-- ===== src/Workers.antt =====
-- Workers that wait, and how they come back to the scheduler: runtimes/0.3/common/runtime.c and
-- allocators.c.
pub mod Once
pub mod States
pub mod Updates
use hivelang.Prelude.{
  ℕ, ◌-◌, ◌==◌, true, false, Option, none, some, ◌>>=◌, List, [], ◌∷◌, get_elem?, Memory, write,
}
use hivelang.Word.{signed_lt}
use hivelang.Queue.Scheduler.{Scheduler, scheduler_enqueue}

-- `struct waiting_worker`, without its state.
pub record WaitingWorker : Type 0 where
  pub queued : ℕ
  pub links : ℕ
  pub id : ℕ
  pub depth : ℕ
  pub data_address : ℕ
  pub rbp_value : ℕ
  pub context : List ℕ

-- `struct queued_worker`
pub record QueuedWorker : Type 0 where
  pub id : ℕ
  pub depth : ℕ
  pub data_address : ℕ
  pub rdi_value : ℕ
  pub rbp_value : ℕ
  pub context : List ℕ

-- The structs in memory, the list of free ones from which `AllocateQueuedWorker` takes, the
-- affinity of each worker's code, and the scheduler.
pub record WorkerPool : Type 0 where
  pub waiting : Memory WaitingWorker
  pub queued_workers : Memory QueuedWorker
  pub free_workers : List ℕ
  pub affinities : List (Option ℕ)
  pub scheduler : Scheduler

-- `address` is what `myMalloc` gives when no struct is free.
unfoldable pub allocate_queued_worker : List ℕ → ℕ → ℕ × List ℕ
allocate_queued_worker [] address = (address, [])
allocate_queued_worker (t ∷ free_workers) address = (t, free_workers)

unfoldable pub free_queued_worker : List ℕ → ℕ → List ℕ
free_queued_worker free_workers t = elim (t == 0) [ true ↦ free_workers | false ↦ t ∷ free_workers ]

-- `EnqueueWorkerFromWaitList`: only who changes `queued` from 0 to 1 enqueues.
unfoldable pub enqueue_worker_from_wait_list : WorkerPool → ℕ → ℕ → ℕ → Option WorkerPool
enqueue_worker_from_wait_list s w rdi_value address = do
  worker ← s.waiting w
  elim (worker.queued == 0) [
    | false ↦ some s
    | true ↦
        let (t, free_workers) = allocate_queued_worker s.free_workers address in
        do
          affinity ← get_elem? s.affinities worker.id
          scheduler ← scheduler_enqueue s.scheduler affinity 1 t
          some (record s {
            waiting = write s.waiting w (some (record worker { queued = 1 }));
            queued_workers = write s.queued_workers t (
                some (record {
                  id = worker.id;
                  depth = worker.depth;
                  data_address = worker.data_address;
                  rdi_value = rdi_value;
                  rbp_value = worker.rbp_value;
                  context = worker.context;
                }));
            free_workers = free_workers;
            scheduler = scheduler;
          })
  ]

-- `atomic_fetch_sub(&w->links, 1)`, its assertion, and the release of the struct with its last
-- link.
unfoldable pub release_link : WorkerPool → ℕ → Option WorkerPool
release_link s w = do
  worker ← s.waiting w
  elim (signed_lt 0 worker.links) [
    | false ↦ none
    | true ↦ elim (worker.links == 1) [
      | true ↦ some (record s { waiting = write s.waiting w none })
      | false ↦ some (record s {
        waiting = write s.waiting w (some (record worker { links = worker.links - 1 }));
      })
    ]
  ]

-- What `UpdateSingleWorker` and the two callbacks that continue a worker do once it may go on.
unfoldable pub continue_worker : WorkerPool → ℕ → ℕ → ℕ → Option WorkerPool
continue_worker s w rdi_value address = do
  s' ← enqueue_worker_from_wait_list s w rdi_value address
  release_link s' w
