-- ===== src/Tests/Queues.antt =====
-- A ring with one task, and a scheduler queue with it at one priority.
use hivelang.Prelude.{
  ◌≡◌, refl, sym, ap, false, [], ◌∷◌, ◌++◌, some, arith, get_elem?, length-replicate,
  eq_of_get_elem?-replicate, get_elem?-replicate, subst, replicate,
}
use hivelang.Queue.Ring.{TaskQueue, bias, queue_init, queue_push, contents}
use hivelang.Queue.Ring.Deque.{queue_push-contents, IsQueue, queue_init-IsQueue}
use hivelang.Queue.Priority.{
  SchedulerQueue, max_task_priority, scheduler_queue_push_front, scheduler_queue_push,
  scheduler_queue_pop,
}
use hivelang.Queue.Priority.Marks.{IsScheduler}
use hivelang.Queue.Priority.Pop.{Popped, scheduler_queue_pop-Popped}
use hivelang.Queue.Priority.Push.{
  scheduler_queue_push-Pushed, Pushed, scheduler_queue_push_front-Pushed,
}
use hivelang.Prelude.{ℕ, zero, suc, some-inj}
use hivelang.Queue.Scheduler.{Scheduler, scheduler_dequeue}
use hivelang.Queue.Scheduler.Dequeue.{Dequeued}
use hivelang.Queue.Scheduler.Steal.{scheduler_dequeue-Dequeued}

abbrev pub empty_ring : TaskQueue
empty_ring = record { buffer = λ i. 0; head = bias; tail = bias }

empty_ring-IsQueue : IsQueue empty_ring
unfolding queue_init
empty_ring-IsQueue = queue_init-IsQueue.0

abbrev one_task : TaskQueue
one_task = queue_push empty_ring 7

one_task-IsQueue : IsQueue one_task
one_task-IsQueue =
    (queue_push-contents empty_ring empty_ring-IsQueue 7 (omega arith) (omega arith)).0

one_task-contents : contents one_task ≡ 7 ∷ []
one_task-contents =
    (queue_push-contents empty_ring empty_ring-IsQueue 7 (omega arith) (omega arith)).1

abbrev pub idle_queue : SchedulerQueue
idle_queue = record {
  queues = replicate max_task_priority empty_ring;
  active_mask = λ i. false;
  size = 0;
}

pub idle_queue-IsScheduler : IsScheduler idle_queue
idle_queue-IsScheduler = record {
  sized = length-replicate max_task_priority empty_ring;
  rings = λ i q at.
      subst IsQueue (sym (eq_of_get_elem?-replicate max_task_priority empty_ring i q at))
        empty_ring-IsQueue;
  marked =
      λ i q at off. ap contents (eq_of_get_elem?-replicate max_task_priority empty_ring i q at);
  bounded = λ i le. refl;
}

third_ring : get_elem? idle_queue.queues 3 ≡ some empty_ring
third_ring = get_elem?-replicate max_task_priority empty_ring 3 (omega arith)

scheduler_queue_push_front-Pushed_example :
    Pushed idle_queue 3 (7 ∷ contents empty_ring) (scheduler_queue_push_front idle_queue 3 7)
scheduler_queue_push_front-Pushed_example =
    scheduler_queue_push_front-Pushed idle_queue idle_queue-IsScheduler 3 7 empty_ring third_ring
      (omega arith) (omega arith) (omega arith) (omega arith)

busy_queue :
    Pushed idle_queue 3 (contents empty_ring ++ 7 ∷ []) (scheduler_queue_push idle_queue 3 7)
busy_queue =
    scheduler_queue_push-Pushed idle_queue idle_queue-IsScheduler 3 7 empty_ring third_ring
      (omega arith) (omega arith) (omega arith)

scheduler_queue_pop-Popped_example : Popped busy_queue.0 (scheduler_queue_pop busy_queue.0)
scheduler_queue_pop-Popped_example = scheduler_queue_pop-Popped busy_queue.0 busy_queue.2

-- The first thread's queue is idle, and the second one's has a task.
abbrev two_workers : Scheduler
two_workers = record {
  workers = idle_queue ∷ busy_queue.0 ∷ [];
  workers_len = 2;
  len = 1;
  rnd_state = 88172645463325252;
}

two_workers_each :
    (i : ℕ) (q : SchedulerQueue) → get_elem? two_workers.workers i ≡ some q → IsScheduler q
two_workers_each zero q at = subst IsScheduler (some-inj at) idle_queue-IsScheduler
two_workers_each (suc zero) q at = subst IsScheduler (some-inj at) busy_queue.2
two_workers_each (suc (suc i)) q at = absurd (cc)

scheduler_dequeue-Dequeued_example : Dequeued two_workers (scheduler_dequeue two_workers 0)
scheduler_dequeue-Dequeued_example =
    scheduler_dequeue-Dequeued two_workers 0 (record { sized = refl; each = two_workers_each })
      (omega arith)
