-- ===== src/Queue/Priority/Push.antt =====
-- `scheduler_queue_push_front` and `scheduler_queue_push` of queue.c on one priority.
use hivelang.Prelude.{
  ℕ, ◌+◌, ◌<◌, ◌≡◌, refl, ◌≢◌, true, Option, some, List, ◌∷◌, ◌++◌, [], arith, get_elem?,
  lt_of_get_elem?, ◌>>=◌,
}
use hivelang.Queue.Ring.{TaskQueue, ring_size, contents, queue_push}
use hivelang.Queue.Ring.Deque.{IsQueue, queue_push_front-contents, queue_push-contents}
use hivelang.Queue.Priority.{
  SchedulerQueue, max_task_priority, announce, asserted, scheduler_queue_push_front,
  scheduler_queue_push,
}
use hivelang.Queue.Priority.Marks.{
  IsScheduler, tasks_at, tasks_in_self, tasks_in-ne, mark-IsScheduler,
}

-- A priority that has tasks after a push, and the others as they were.
abbrev pub Pushed : SchedulerQueue → ℕ → List ℕ → Option SchedulerQueue → Type 0
Pushed s p ts r =
    (s' : SchedulerQueue) × (r ≡ some s')
    × IsScheduler s'
    × (tasks_at s' p ≡ ts)
    × ((i : ℕ) → p ≢ i → tasks_at s' i ≡ tasks_at s i)
    × (s'.size ≡ s.size + 1)

asserted-true : (p task : ℕ) → p < max_task_priority → task ≢ 0 → asserted p task ≡ true
asserted-true p task less ne = ground arith

module _ (s : SchedulerQueue) (v : IsScheduler s) (p task : ℕ) (q : TaskQueue) where
  announced :
      (q' : TaskQueue)
      → get_elem? s.queues p ≡ some q
      → p < max_task_priority
      → IsQueue q'
      → (r : Option SchedulerQueue) → r ≡ some (announce s p q')
      → Pushed s p (contents q') r
  announced q' at less w r e = (
    announce s p q',
    e,
    mark-IsScheduler s v p q' w less true (s.size + 1) (λ off. absurd (cc)),
    tasks_in_self s.queues p q' (lt_of_get_elem? s.queues p q at),
    λ i apart. tasks_in-ne s.queues p i q' apart,
    refl,
  )

  -- On a priority below 16 whose ring has a free cell, `scheduler_queue_push_front` ends and puts
  -- the task in front of that priority's tasks. The tasks of the other priorities stay, the queue
  -- stays in order, and its size grows by one.
  pub scheduler_queue_push_front-Pushed :
      get_elem? s.queues p ≡ some q
      → p < max_task_priority
      → task ≢ 0
      → 0 < q.head
      → q.tail < q.head + ring_size
      → Pushed s p (task ∷ contents q) (scheduler_queue_push_front s p task)
  unfolding scheduler_queue_push_front
  scheduler_queue_push_front-Pushed at less ne pos_head room =
      let (q', e, w, c) = queue_push_front-contents q (v.rings p q at) task ne pos_head room in
      rw (← c) (
        announced q' at less w (scheduler_queue_push_front s p task)
          (rw (scheduler_queue_push_front, asserted-true p task less ne, at) (rw (◌>>=◌, e) refl)))

  -- On a priority below 16 whose ring has a free cell, `scheduler_queue_push` puts the task behind
  -- that priority's tasks. The tasks of the other priorities stay, the queue stays in order, and
  -- its size grows by one.
  pub scheduler_queue_push-Pushed :
      get_elem? s.queues p ≡ some q
      → p < max_task_priority
      → task ≢ 0
      → q.tail < q.head + ring_size
      → Pushed s p (contents q ++ task ∷ []) (scheduler_queue_push s p task)
  unfolding scheduler_queue_push
  scheduler_queue_push-Pushed at less ne room =
      let (w, c) = queue_push-contents q (v.rings p q at) task ne room in
      rw (← c) (
        announced (queue_push q task) at less w (scheduler_queue_push s p task)
          (rw (scheduler_queue_push, asserted-true p task less ne, at) refl))
