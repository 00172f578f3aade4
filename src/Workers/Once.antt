-- ===== src/Workers/Once.antt =====
-- A worker that pauses and comes back: it is enqueued once, and its struct is given up once.
use hivelang.Prelude.{ℕ, ◌≡◌, none}
use hivelang.Queue.Scheduler.{Scheduler}
use hivelang.Workers.{QueuedWorker, WorkerPool, continue_worker}
use hivelang.Workers.States.{Caller}

-- The worker's struct is gone, and any further answer finds none.
abbrev pub GivenUp : WorkerPool → ℕ → Type 0
GivenUp s w =
    (s.waiting w ≡ none) × ((rdi_value address : ℕ) → continue_worker s w rdi_value address ≡ none)

-- The task of a worker that paused: it goes on where it was called from, as it was, with a value for
-- rdi.
abbrev pub task_of : Caller → ℕ → QueuedWorker
task_of c rdi_value = record {
  id = c.running_id;
  depth = c.running_depth;
  data_address = c.return_address;
  rdi_value = rdi_value;
  rbp_value = c.rbp_value;
  context = c.context;
}
