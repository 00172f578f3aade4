-- ===== src/Queue/Scheduler/Dequeue.antt =====
-- `scheduler_dequeue` of queue.c finds a task if any queue has one.
use hivelang.Prelude.{
  ℕ, ◌-◌, ◌<◌, ◌≡◌, refl, ◌≢◌, ap, sym, ◌∙◌, subst, Option, none, some, List, [], length,
  length-set, get_elem?, set, get_elem?-set_self, get_elem?-set_ne, lt_of_get_elem?, some-inj,
  ℕ_discrete,
}
use hivelang.Queue.Priority.{SchedulerQueue}
use hivelang.Queue.Priority.Marks.{IsScheduler, tasks_at}
use hivelang.Queue.Priority.Pop.{PopsHighest}
use hivelang.Queue.Scheduler.{Scheduler}

pub record IsPool (s : Scheduler) : Type 0 where
  pub sized : length s.workers ≡ s.workers_len
  pub each : (i : ℕ) (q : SchedulerQueue) → get_elem? s.workers i ≡ some q → IsScheduler q

-- The tasks of one queue of a list, by their priority.
abbrev pub tasks_of : List SchedulerQueue → ℕ → ℕ → List ℕ
tasks_of ws i p = elim (get_elem? ws i) [ none ↦ [] | some q ↦ tasks_at q p ]

pub tasks_of-some :
    (ws : List SchedulerQueue) (i p : ℕ) (q : SchedulerQueue)
    → get_elem? ws i ≡ some q
    → tasks_of ws i p ≡ tasks_at q p
tasks_of-some ws i p q at = rw (tasks_of, at) refl

tasks_of-set_self :
    (ws : List SchedulerQueue) (i p : ℕ) (q : SchedulerQueue)
    → i < length ws
    → tasks_of (set ws i q) i p ≡ tasks_at q p
tasks_of-set_self ws i p q lt = rw (tasks_of, get_elem?-set_self ws i q lt) refl

tasks_of-set_ne :
    (ws : List SchedulerQueue) (i j p : ℕ) (q : SchedulerQueue)
    → i ≢ j
    → tasks_of (set ws i q) j p ≡ tasks_of ws j p
tasks_of-set_ne ws i j p q ne = rw (tasks_of, get_elem?-set_ne ws i j q ne) refl

-- What a dequeue does: nothing if there are no tasks, or else it serves the highest priority of
-- one queue, and no other queue changes its tasks.
pub data Dequeues (s : Scheduler) : ℕ → Scheduler → Type 0 where
  nothing :
      {s' : Scheduler}
      → ((i p : ℕ) → tasks_of s.workers i p ≡ [])
      → ((i p : ℕ) → tasks_of s'.workers i p ≡ [])
      → s'.len ≡ s.len
      → Dequeues s 0 s'
  served :
      {s' : Scheduler} {task : ℕ} (i : ℕ) (q q' : SchedulerQueue)
      → task ≢ 0
      → ((p : ℕ) → tasks_at q p ≡ tasks_of s.workers i p)
      → ((p : ℕ) → tasks_at q' p ≡ tasks_of s'.workers i p)
      → PopsHighest q task q'
      → ((j : ℕ) → i ≢ j → (p : ℕ) → tasks_of s'.workers j p ≡ tasks_of s.workers j p)
      → s'.len ≡ s.len - 1
      → Dequeues s task s'

abbrev pub Dequeued : Scheduler → Option (ℕ × Scheduler) → Type 0
Dequeued s r =
    (task : ℕ) × (s' : Scheduler) × (r ≡ some (task, s')) × IsPool s' × Dequeues s task s'

replace-IsPool :
    (s : Scheduler)
    → IsPool s
    → (i : ℕ) (q : SchedulerQueue) (n : ℕ) → i < length s.workers
    → IsScheduler q
    → IsPool (record s { workers = set s.workers i q; len = n })
replace-IsPool s w i q n lt v = record {
  sized = length-set s.workers i q ∙ w.sized;
  each = λ j r at. elim (ℕ_discrete i j) [
    | no ne ↦ w.each j r (sym (get_elem?-set_ne s.workers i j q ne) ∙ at)
    | yes e ↦
        subst IsScheduler
          (some-inj
            (sym (get_elem?-set_self s.workers i q lt) ∙ ap (get_elem? (set s.workers i q)) e ∙ at))
          v
  ];
}

-- A scheduler that differs from `s₀` in masks and empty rings at most.
pub record SameTasks (s₀ s : Scheduler) : Type 0 where
  pub valid : IsPool s
  pub same_tasks : (i p : ℕ) → tasks_of s.workers i p ≡ tasks_of s₀.workers i p
  pub same_len : s.len ≡ s₀.len
  pub same_workers_len : s.workers_len ≡ s₀.workers_len

-- The result of a pop on one queue: no task there, or the task that the whole dequeue gives.
module _ (s₀ s : Scheduler) (k : SameTasks s₀ s) (i : ℕ) (q q' : SchedulerQueue) (task : ℕ)
    (at : get_elem? s.workers i ≡ some q) (v' : IsScheduler q') where
  pub replaced-SameTasks :
      ((p : ℕ) → tasks_at q' p ≡ tasks_at q p)
      → SameTasks s₀ (record s { workers = set s.workers i q' })
  replaced-SameTasks same =
      let lt = lt_of_get_elem? s.workers i q at in
      record {
        valid = replace-IsPool s k.valid i q' s.len lt v';
        same_tasks = λ j p. elim (ℕ_discrete i j) [
          | no ne ↦ tasks_of-set_ne s.workers i j p q' ne ∙ k.same_tasks j p
          | yes e ↦
              ap (λ x. tasks_of (set s.workers i q') x p) (sym e)
              ∙ tasks_of-set_self s.workers i p q' lt
              ∙ same p
              ∙ sym (tasks_of-some s.workers i p q at)
              ∙ ap (λ x. tasks_of s.workers x p) e
              ∙ k.same_tasks j p
        ];
        same_len = k.same_len;
        same_workers_len = k.same_workers_len;
      }

  pub replaced-Dequeued :
      task ≢ 0
      → PopsHighest q task q'
      → Dequeued s₀ (some (task, record s { workers = set s.workers i q'; len = s.len - 1 }))
  replaced-Dequeued ne pops =
      let lt = lt_of_get_elem? s.workers i q at in
      (
        task,
        record s { workers = set s.workers i q'; len = s.len - 1 },
        refl,
        replace-IsPool s k.valid i q' (s.len - 1) lt v',
        served i q q' ne (λ p. sym (tasks_of-some s.workers i p q at) ∙ k.same_tasks i p)
            (λ p. sym (tasks_of-set_self s.workers i p q' lt)) pops
            (λ j apart p. tasks_of-set_ne s.workers i j p q' apart ∙ k.same_tasks j p)
            (ap (λ n. n - 1) k.same_len),
      )
