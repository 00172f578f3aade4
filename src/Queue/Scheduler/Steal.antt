-- ===== src/Queue/Scheduler/Steal.antt =====
-- The loop of `scheduler_dequeue` that visits the other queues, and the whole dequeue.
use hivelang.Prelude.{
  ℕ, zero, suc, ◌+◌, ◌-◌, ◌≤◌, ◌<◌, ◌≡◌, refl, ◌≢◌, ap, sym, ◌∙◌, subst, ◌⊎◌, inl, inr, none, some,
  List, [], length, get_elem?, set, get_elem?_lt, lt_of_get_elem?, ◌>>=◌, ne→==, Option-cases,
  dec_lt, lt→leb, le→leb, arith,
}
use hivelang.Queue.Priority.{SchedulerQueue, highest, scheduler_queue_pop}
use hivelang.Queue.Priority.Marks.{IsScheduler, tasks_at}
use hivelang.Queue.Priority.Pop.{PopsHighest, idle, serve, scheduler_queue_pop-Popped, all_idle}
use hivelang.Queue.Scheduler.{Scheduler, next_victim, steal, scheduler_dequeue}
use hivelang.Queue.Scheduler.Dequeue.{
  IsPool, tasks_of, tasks_of-some, nothing, Dequeued, SameTasks, replaced-SameTasks,
  replaced-Dequeued,
}

tasks_of_out : (ws : List SchedulerQueue) (i p : ℕ) → length ws ≤ i → tasks_of ws i p ≡ []
tasks_of_out ws i p out = elim (Option-cases (get_elem? ws i)) [
  | inl e ↦ rw (tasks_of, e) refl
  | inr (q, e) ↦ absurd (omega (arith, lt_of_get_elem? ws i q e))
]

-- The queues that the loop still visits, `n` rounds after `victim`.
abbrev Ahead : ℕ → ℕ → ℕ → ℕ → Type 0
Ahead workers_len n victim j = ((victim < j) × (j ≤ victim + n)) ⊎ (j + workers_len ≤ victim + n)

next_victim_lt : (w v : ℕ) → v < w → next_victim w v < w
next_victim_lt w v lt = ground arith

Ahead-next_victim :
    (w n v j : ℕ)
    → v < w
    → j < w
    → Ahead w (suc n) v j
    → (j ≡ next_victim w v) ⊎ Ahead w n (next_victim w v) j
Ahead-next_victim w n v j lt lt' a = elim (dec_lt (v + 1) w) [
  | yes more ↦ rw (lt→leb w (v + 1) more) (omega arith)
  | no last ↦ rw (le→leb w (v + 1) (omega arith)) (omega arith)
]

module _ (n : ℕ) (s : Scheduler) (v : ℕ) (q : SchedulerQueue)
    (at : get_elem? s.workers (next_victim s.workers_len v) ≡ some q) where
  abbrev victim : ℕ
  victim = next_victim s.workers_len v

  steal_skip : highest 64 q.active_mask ≡ none → steal (suc n) s v ≡ steal n s victim
  unfolding steal
  steal_skip e = rw (steal, at) (rw (◌>>=◌, e) refl)

  steal_empty :
      (p : ℕ) (q' : SchedulerQueue)
      → highest 64 q.active_mask ≡ some p
      → scheduler_queue_pop q ≡ some (0, q')
      → steal (suc n) s v ≡ steal n (record s { workers = set s.workers victim q' }) victim
  unfolding steal
  steal_empty p q' e popped = rw (steal, at) (rw (◌>>=◌, e, popped) refl)

  steal_task :
      (p task : ℕ) (q' : SchedulerQueue)
      → task ≢ 0
      → highest 64 q.active_mask ≡ some p
      → scheduler_queue_pop q ≡ some (task, q')
      → steal (suc n) s v
        ≡ some (task, record s { workers = set s.workers victim q'; len = s.len - 1 })
  unfolding steal
  steal_task p task q' ne e popped =
      rw (steal, at) (rw (◌>>=◌, e, popped) (rw (◌>>=◌, ne→== task 0 ne) refl))

-- The queues that a loop has left behind have no tasks.
abbrev Behind : Scheduler → ℕ → ℕ → Type 0
Behind s₀ n v =
    (j : ℕ)
    → j < s₀.workers_len
    → ((p : ℕ) → tasks_of s₀.workers j p ≡ []) ⊎ Ahead s₀.workers_len n v j

none_left :
    (s₀ s : Scheduler) (v : ℕ)
    → SameTasks s₀ s
    → v < s₀.workers_len
    → Behind s₀ 0 v
    → Dequeued s₀ (some (0, s))
none_left s₀ s v k lt behind =
    (0, s, refl, k.valid, nothing all_none (λ i p. k.same_tasks i p ∙ all_none i p) k.same_len)
  where
    all_none : (i p : ℕ) → tasks_of s₀.workers i p ≡ []
    all_none i p = elim (dec_lt i s₀.workers_len) [
      | yes inside ↦ elim (behind i inside) [
        | inl is_idle ↦ is_idle p
        | inr a ↦ absurd (omega arith)
      ]
      | no outside ↦
          sym (k.same_tasks i p)
          ∙ tasks_of_out s.workers i p (omega (arith, k.valid.sized, k.same_workers_len))
    ]

go_on-Behind :
    (s₀ : Scheduler) (n v : ℕ)
    → v < s₀.workers_len
    → Behind s₀ (suc n) v
    → ((p : ℕ) → tasks_of s₀.workers (next_victim s₀.workers_len v) p ≡ [])
    → Behind s₀ n (next_victim s₀.workers_len v)
go_on-Behind s₀ n v lt behind here j inside = elim (behind j inside) [
  | inl is_idle ↦ inl is_idle
  | inr a ↦ elim (Ahead-next_victim s₀.workers_len n v j lt inside a) [
    | inl e ↦ inl (rw e here)
    | inr a' ↦ inr a'
  ]
]

pops-cases :
    (q q' : SchedulerQueue) (task : ℕ)
    → PopsHighest q task q'
    → ((task ≡ 0) × ((p : ℕ) → tasks_at q p ≡ []) × ((p : ℕ) → tasks_at q' p ≡ tasks_at q p))
      ⊎ (task ≢ 0)
pops-cases q q' task (idle before after) = inl (refl, before, λ p. after p ∙ sym (before p))
pops-cases q q' task (serve p t rest ne at above taken others) = inr ne

own_empty :
    (s : Scheduler) (worker_id : ℕ) (q q' : SchedulerQueue)
    → get_elem? s.workers worker_id ≡ some q
    → scheduler_queue_pop q ≡ some (0, q')
    → scheduler_dequeue s worker_id
      ≡ steal s.workers_len (record s { workers = set s.workers worker_id q' }) worker_id
unfolding scheduler_dequeue
own_empty s worker_id q q' at popped = rw (scheduler_dequeue, at) (rw (◌>>=◌, popped) refl)

own_task :
    (s : Scheduler) (worker_id : ℕ) (q q' : SchedulerQueue) (task : ℕ)
    → task ≢ 0
    → get_elem? s.workers worker_id ≡ some q
    → scheduler_queue_pop q ≡ some (task, q')
    → scheduler_dequeue s worker_id
      ≡ some (task, record s { workers = set s.workers worker_id q'; len = s.len - 1 })
unfolding scheduler_dequeue
own_task s worker_id q q' task ne at popped =
    rw (scheduler_dequeue, at) (rw (◌>>=◌, popped) (rw (◌>>=◌, ne→== task 0 ne) refl))

-- One visit, and what the loop does with the others.
steal_visit :
    (s₀ s : Scheduler) (n v : ℕ) (q : SchedulerQueue)
    → SameTasks s₀ s
    → get_elem? s.workers (next_victim s.workers_len v) ≡ some q
    → IsScheduler q
    → ((s' : Scheduler)
        → SameTasks s₀ s'
        → ((p : ℕ) → tasks_at q p ≡ [])
        → Dequeued s₀ (steal n s' (next_victim s.workers_len v)))
    → Dequeued s₀ (steal (suc n) s v)
steal_visit s₀ s n v q k at w next = elim (Option-cases (highest 64 q.active_mask)) [
  | inl e ↦
      let (task, s', e', w', d) = next s k (all_idle q w e) in
      (task, s', steal_skip n s v q at e ∙ e', w', d)
  | inr (p, e) ↦
      let (task, q', popped, w', pops) = scheduler_queue_pop-Popped q w in
      go p e task q' popped w' pops
]
  where
    go :
        (p : ℕ)
        → highest 64 q.active_mask ≡ some p
        → (task : ℕ) (q' : SchedulerQueue) → scheduler_queue_pop q ≡ some (task, q')
        → IsScheduler q'
        → PopsHighest q task q'
        → Dequeued s₀ (steal (suc n) s v)
    go p e task q' popped w' pops = elim (pops-cases q q' task pops) [
      | inl (z, before, same) ↦
          let (t, s', e', u, d) =
            next (record s { workers = set s.workers (next_victim s.workers_len v) q' })
              (replaced-SameTasks s₀ s k (next_victim s.workers_len v) q q' task at w' same)
              before in
          (t, s', steal_empty n s v q at p q' e (rw z at popped) ∙ e', u, d)
      | inr ne ↦
          let (t, s', e', u, d) =
            replaced-Dequeued s₀ s k (next_victim s.workers_len v) q q' task at w' ne pops in
          (t, s', steal_task n s v q at p task q' ne e popped ∙ e', u, d)
    ]

steal-Dequeued :
    (s₀ : Scheduler) (n : ℕ) (s : Scheduler) (v : ℕ)
    → SameTasks s₀ s
    → v < s₀.workers_len
    → Behind s₀ n v
    → Dequeued s₀ (steal n s v)
unfolding steal
steal-Dequeued s₀ zero s v k lt behind = none_left s₀ s v k lt behind
steal-Dequeued s₀ (suc n) s v k lt behind =
    let victim = next_victim s.workers_len v in
    let e : victim ≡ next_victim s₀.workers_len v = ap (λ w. next_victim w v) k.same_workers_len in
    let inside : victim < s₀.workers_len =
      subst (λ x. x < s₀.workers_len) (sym e) (next_victim_lt s₀.workers_len v lt) in
    let (q, at) =
      get_elem?_lt s.workers victim
        (subst (λ x. victim < x) (sym (k.valid.sized ∙ k.same_workers_len)) inside) in
    steal_visit s₀ s n v q k at (k.valid.each victim q at) (λ s' k' empty.
      steal-Dequeued s₀ n s' victim k' inside (
        subst (Behind s₀ n) (sym e) (
          go_on-Behind s₀ n v lt behind (λ p.
            ap (λ x. tasks_of s₀.workers x p) (sym e)
            ∙ sym (k.same_tasks victim p)
            ∙ tasks_of-some s.workers victim p q at
            ∙ empty p))))

-- From a scheduler in order, `scheduler_dequeue` of one of its threads always ends. It answers NULL
-- only when no queue of any thread has a task. Otherwise it serves the highest priority of one of
-- the queues, changes the tasks of no other queue, and counts the task off. The scheduler stays in
-- order.
pub scheduler_dequeue-Dequeued :
    (s : Scheduler) (worker_id : ℕ)
    → IsPool s
    → worker_id < s.workers_len
    → Dequeued s (scheduler_dequeue s worker_id)
unfolding scheduler_dequeue
scheduler_dequeue-Dequeued s worker_id w lt =
    let (q, at) = get_elem?_lt s.workers worker_id (omega (arith, w.sized)) in
    let (task, q', popped, w', pops) = scheduler_queue_pop-Popped q (w.each worker_id q at) in
    let k : SameTasks s s = record {
      valid = w;
      same_tasks = λ i p. refl;
      same_len = refl;
      same_workers_len = refl;
    } in
    elim (pops-cases q q' task pops) [
      | inl (z, before, same) ↦
          let s₁ : Scheduler = record s { workers = set s.workers worker_id q' } in
          let (t, s', e, u, d) =
            steal-Dequeued s s.workers_len s₁ worker_id
              (replaced-SameTasks s s k worker_id q q' task at w' same) lt
              (λ j inside. inr (omega arith)) in
          (t, s', own_empty s worker_id q q' at (rw z at popped) ∙ e, u, d)
      | inr ne ↦
          let (t, s', e, u, d) = replaced-Dequeued s s k worker_id q q' task at w' ne pops in
          (t, s', own_task s worker_id q q' task ne at popped ∙ e, u, d)
    ]
