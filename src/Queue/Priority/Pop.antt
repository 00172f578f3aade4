-- ===== src/Queue/Priority/Pop.antt =====
-- `scheduler_queue_pop` of queue.c serves the highest priority that has a task.
use hivelang.Prelude.{
  ℕ, zero, suc, ◌-◌, ◌≤◌, ◌<◌, ◌≡◌, refl, ◌≢◌, sym, ◌∙◌, inl, inr, Bool, true, false, Option, none,
  some, List, [], ◌∷◌, arith, get_elem?, set, get_elem?_lt, lt_of_get_elem?, ne→==, ==_refl, ◌>>=◌,
  ℕ_discrete, dec_lt, Option-cases,
}
use hivelang.Queue.Ring.{TaskQueue, contents, queue_pop}
use hivelang.Queue.Ring.Deque.{IsQueue, queue_pop-Pops, Pops}
use hivelang.Queue.Priority.{
  SchedulerQueue, max_task_priority, highest, set_bit, pop_rounds, scheduler_queue_pop,
}
use hivelang.Queue.Priority.Marks.{
  replace-IsScheduler, mark-IsScheduler, IsScheduler, highest-none, highest-some, tasks_at,
  tasks_in-ne, tasks_in-same, tasks_in-some, tasks_in_self, unmarked,
}

-- What a pop does: nothing if there are no tasks, or else it takes the front task of the highest
-- priority that has one.
pub data PopsHighest (s : SchedulerQueue) : ℕ → SchedulerQueue → Type 0 where
  idle :
      {s' : SchedulerQueue}
      → ((i : ℕ) → tasks_at s i ≡ [])
      → ((i : ℕ) → tasks_at s' i ≡ [])
      → PopsHighest s 0 s'
  serve :
      {s' : SchedulerQueue} (p task : ℕ) (rest : List ℕ)
      → task ≢ 0
      → tasks_at s p ≡ task ∷ rest
      → ((i : ℕ) → p < i → tasks_at s i ≡ [])
      → tasks_at s' p ≡ rest
      → ((i : ℕ) → i ≢ p → tasks_at s' i ≡ tasks_at s i)
      → PopsHighest s task s'

PopsHighest-from :
    (s₁ s : SchedulerQueue) (task : ℕ) (s' : SchedulerQueue)
    → ((i : ℕ) → tasks_at s₁ i ≡ tasks_at s i)
    → PopsHighest s₁ task s'
    → PopsHighest s task s'
PopsHighest-from s₁ s task s' h (idle none_in out) = idle (λ i. sym (h i) ∙ none_in i) out
PopsHighest-from s₁ s task s' h (serve p t rest ne at above taken others) =
    serve p t rest ne (sym (h p) ∙ at) (λ i lt. sym (h i) ∙ above i lt) taken
      (λ i apart. others i apart ∙ h i)

abbrev pub Popped : SchedulerQueue → Option (ℕ × SchedulerQueue) → Type 0
Popped s r =
    (task : ℕ) × (s' : SchedulerQueue) × (r ≡ some (task, s'))
    × IsScheduler s'
    × PopsHighest s task s'

pub all_idle :
    (s : SchedulerQueue)
    → IsScheduler s
    → highest 64 s.active_mask ≡ none
    → (i : ℕ) → tasks_at s i ≡ []
all_idle s v e i = elim (dec_lt i 64) [
  | yes lt ↦ unmarked s v i (highest-none 64 s.active_mask e i lt)
  | no ge ↦ unmarked s v i (v.bounded i (omega arith))
]

pop_rounds_idle :
    (fuel : ℕ) (s : SchedulerQueue)
    → IsScheduler s
    → highest 64 s.active_mask ≡ none
    → Popped s (pop_rounds (suc fuel) s)
unfolding pop_rounds
pop_rounds_idle fuel s v e =
    (0, s, rw (pop_rounds, e) refl, v, idle (all_idle s v e) (all_idle s v e))

pop_rounds_serve :
    (fuel : ℕ) (s : SchedulerQueue) (p : ℕ) (q q' : TaskQueue) (task : ℕ) (rest : List ℕ)
    → IsScheduler s
    → highest 64 s.active_mask ≡ some p
    → get_elem? s.queues p ≡ some q
    → queue_pop q ≡ some (task, q')
    → contents q ≡ task ∷ rest
    → task ≢ 0
    → IsQueue q'
    → contents q' ≡ rest
    → Popped s (pop_rounds (suc fuel) s)
unfolding pop_rounds
pop_rounds_serve fuel s p q q' task rest v e at popped c ne w c' =
    let (on, lt64, above) = highest-some 64 s.active_mask p e in
    let lt_len = lt_of_get_elem? s.queues p q at in
    let lt : p < max_task_priority = omega (arith, v.sized) in
    (
      task,
      record s { queues = set s.queues p q'; size = s.size - 1 },
      rw (pop_rounds, e, at, popped) (rw (◌>>=◌, ne→== task 0 ne) refl),
      replace-IsScheduler s v p q' w lt s.active_mask (s.size - 1) (λ off. absurd (cc))
          (λ i ne. refl),
      serve p task rest ne (tasks_in-some s.queues p q at ∙ c)
          (λ i higher. elim (dec_lt i 64) [
            | yes small ↦ unmarked s v i (above i higher small)
            | no big ↦ unmarked s v i (v.bounded i (omega arith))
          ])
          (tasks_in_self s.queues p q' lt_len ∙ c')
          (λ i apart. tasks_in-ne s.queues p i q' (λ x. apart (sym x))),
    )

-- A round on an empty ring clears its bit, and goes on.
pop_rounds_clear :
    (fuel : ℕ) (s : SchedulerQueue) (p : ℕ) (q : TaskQueue)
    → highest 64 s.active_mask ≡ some p
    → get_elem? s.queues p ≡ some q
    → queue_pop q ≡ some (0, q)
    → pop_rounds (suc fuel) s
      ≡ pop_rounds fuel (record {
        queues = set s.queues p q;
        active_mask = set_bit s.active_mask p false;
        size = s.size;
      })
unfolding pop_rounds
pop_rounds_clear fuel s p q e at popped = rw (pop_rounds, e, at, popped) refl

both : (b : Bool) → b ≡ true → b ≡ false → ⊥
both b h k = cc

-- The ring of the highest bit.
marked_ring :
    (s : SchedulerQueue)
    → IsScheduler s
    → (p : ℕ) → highest 64 s.active_mask ≡ some p
    → (p < max_task_priority) × (q : TaskQueue) × (get_elem? s.queues p ≡ some q) × IsQueue q
marked_ring s v p e = elim (dec_lt p max_task_priority) [
  | no ge ↦ absurd (both _ (highest-some 64 s.active_mask p e).0 (v.bounded p (omega arith)))
  | yes lt ↦
      let (q, at) = get_elem?_lt s.queues p (omega (arith, v.sized)) in (lt, q, at, v.rings p q at)
]

pop_rounds-round :
    (fuel : ℕ) (s : SchedulerQueue)
    → IsScheduler s
    → (p : ℕ) → highest 64 s.active_mask ≡ some p
    → p < max_task_priority
    → (q : TaskQueue) → get_elem? s.queues p ≡ some q
    → (w : IsQueue q)
    → ((s₁ : SchedulerQueue)
        → IsScheduler s₁
        → ((i : ℕ) → p ≤ i → i < 64 → s₁.active_mask i ≡ false)
        → Popped s₁ (pop_rounds fuel s₁))
    → (ts : List ℕ) → contents q ≡ ts
    → Pops q w ts
    → Popped s (pop_rounds (suc fuel) s)
pop_rounds-round fuel s v p e less q at w next [] c popped =
    let s₁ : SchedulerQueue = record {
      queues = set s.queues p q;
      active_mask = set_bit s.active_mask p false;
      size = s.size;
    } in
    let (on, lt64, above) = highest-some 64 s.active_mask p e in
    let (task, s', e', v', pops) =
      next s₁ (mark-IsScheduler s v p q w less false s.size (λ off. c)) (λ i le lt.
        elim (ℕ_discrete i p) [
          | yes x ↦ rw (x, ==_refl p) refl
          | no apart ↦ rw (ne→== i p apart) (above i (omega arith) lt)
        ]) in
    (
      task,
      s',
      pop_rounds_clear fuel s p q e at popped ∙ e',
      v',
      PopsHighest-from s₁ s task s' (λ i. tasks_in-same s.queues p i q at) pops,
    )
pop_rounds-round fuel s v p e less q at w next (task ∷ rest) c (ne, q', popped, w', c', hd) =
    pop_rounds_serve fuel s p q q' task rest v e at popped c ne w' c'

pop_rounds-Popped :
    (fuel b : ℕ) (s : SchedulerQueue)
    → IsScheduler s
    → b < fuel
    → ((i : ℕ) → b ≤ i → i < 64 → s.active_mask i ≡ false)
    → Popped s (pop_rounds fuel s)
pop_rounds-Popped zero b s v lt clear = elim lt [ ]
pop_rounds-Popped (suc fuel) b s v lt clear = elim (Option-cases (highest 64 s.active_mask)) [
  | inl e ↦ pop_rounds_idle fuel s v e
  | inr (p, e) ↦
      let (less, q, at, w) = marked_ring s v p e in
      let (on, lt64, above) = highest-some 64 s.active_mask p e in
      pop_rounds-round fuel s v p e less q at w
        (λ s₁ v₁ clear₁. elim (dec_lt p b) [
          | yes below ↦ pop_rounds-Popped fuel p s₁ v₁ (omega arith) clear₁
          | no over ↦ absurd (both _ on (clear p (omega arith) lt64))
        ])
        (contents q) refl (queue_pop-Pops q w)
]

-- From a scheduler queue in order, `scheduler_queue_pop` always ends. It answers NULL only when no
-- priority has a task. Otherwise it answers the front task of the highest priority that has one,
-- takes that task from its ring, and leaves the tasks of the other priorities as they were.
pub scheduler_queue_pop-Popped :
    (s : SchedulerQueue) → IsScheduler s → Popped s (scheduler_queue_pop s)
unfolding scheduler_queue_pop
scheduler_queue_pop-Popped s v = pop_rounds-Popped 65 64 s v (omega arith) (λ i le lt. omega arith)
