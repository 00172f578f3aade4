-- ===== src/Tests/Workers.antt =====
-- A worker that waits, and a scheduler of one thread.
use hivelang.Prelude.{◌≡◌, refl, none, some, [], ◌∷◌, get_elem?, get_elem?-replicate, write, arith}
use hivelang.Queue.Ring.{contents}
use hivelang.Queue.Priority.{max_task_priority, scheduler_queue_push_front}
use hivelang.Queue.Priority.Push.{Pushed, scheduler_queue_push_front-Pushed}
use hivelang.Queue.Scheduler.{Scheduler, scheduler_enqueue, scheduler_enqueue_with_affinity}
use hivelang.Workers.{WaitingWorker, WorkerPool}
use hivelang.Tests.Queues.{empty_ring, idle_queue, idle_queue-IsScheduler}

second_ring : get_elem? idle_queue.queues 1 ≡ some empty_ring
second_ring = get_elem?-replicate max_task_priority empty_ring 1 (omega arith)

pub pushed :
    Pushed idle_queue 1 (16 ∷ contents empty_ring) (scheduler_queue_push_front idle_queue 1 16)
pushed =
    scheduler_queue_push_front-Pushed idle_queue idle_queue-IsScheduler 1 16 empty_ring second_ring
      (omega arith) (omega arith) (omega arith) (omega arith)

abbrev pub one_thread : Scheduler
one_thread = record { workers = idle_queue ∷ []; workers_len = 1; len = 0; rnd_state = 1 }

abbrev pub after_enqueue : Scheduler
after_enqueue = record { workers = pushed.0 ∷ []; workers_len = 1; len = 1; rnd_state = 1 }

pub enqueued : scheduler_enqueue one_thread (some 0) 1 16 ≡ some after_enqueue
unfolding scheduler_enqueue scheduler_enqueue_with_affinity
enqueued = rw (scheduler_enqueue, scheduler_enqueue_with_affinity, pushed.1) refl

abbrev worker : WaitingWorker
worker = record {
  queued = 0;
  links = 1;
  id = 0;
  depth = 3;
  data_address = 900;
  rbp_value = 800;
  context = [];
}

abbrev pub pool : WorkerPool
pool = record {
  waiting = write (λ a. none) 32 (some worker);
  queued_workers = λ a. none;
  free_workers = [];
  affinities = some 0 ∷ [];
  scheduler = one_thread;
}
