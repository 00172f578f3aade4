-- ===== src/Queue/Scheduler.antt =====
-- `struct scheduler` of runtimes/0.3/common/queue.c: a queue for each thread, of which an idle
-- thread steals.
pub mod Dequeue
pub mod Steal
use hivelang.Prelude.{
  ℕ, zero, suc, ◌+◌, ◌-◌, ◌%◌, ◌==◌, ltb, leb, true, false, if◌then◌else◌, Option, none, some, List,
  map, length, get_elem?, set, ◌>>=◌, bit_xor,
}
use hivelang.Word.{shl64, shr64}
use hivelang.Queue.Priority.{
  SchedulerQueue, highest, scheduler_queue_init, scheduler_queue_push_front, scheduler_queue_pop,
}

-- The counters are signed in C; here a counter stops at 0.
pub record Scheduler : Type 0 where
  pub workers : List SchedulerQueue
  pub workers_len : ℕ
  pub len : ℕ
  pub rnd_state : ℕ

-- The next state, which is also the answer.
unfoldable pub scheduler_rnd : ℕ → ℕ
scheduler_rnd state =
    let x = bit_xor state (shl64 state 13) in
    let y = bit_xor x (shr64 x 7) in bit_xor y (shl64 y 17)

-- `ticks` is what `GetTicks` gives, and the list what the memory of the queues has for their sizes,
-- one for each thread.
unfoldable pub scheduler_init : ℕ → List ℕ → Scheduler
scheduler_init ticks unwritten_sizes = record {
  workers = map scheduler_queue_init unwritten_sizes;
  workers_len = length unwritten_sizes;
  len = 0;
  rnd_state = ticks;
}

-- A push in front (ALWAYS_PUSH_FRONT) on one of the queues, and the counter.
abbrev pub push_to : Scheduler → ℕ → ℕ → ℕ → Option Scheduler
push_to s target priority wk = do
  q ← get_elem? s.workers target
  q' ← scheduler_queue_push_front q priority wk
  some (record s { workers = set s.workers target q'; len = s.len + 1 })

unfoldable pub scheduler_enqueue_with_affinity : Scheduler → ℕ → ℕ → ℕ → Option Scheduler
scheduler_enqueue_with_affinity s affinity priority wk =
    push_to s (affinity % s.workers_len) priority wk

-- The affinity is that of the worker's code, `none` for -1. The shorter of two random queues is
-- taken.
unfoldable pub scheduler_enqueue : Scheduler → Option ℕ → ℕ → ℕ → Option Scheduler
scheduler_enqueue s (some affinity) priority wk =
    scheduler_enqueue_with_affinity s affinity priority wk
scheduler_enqueue s none priority wk =
    let r = scheduler_rnd s.rnd_state in
    let r' = scheduler_rnd r in
    let i = r % s.workers_len in
    let j = r' % s.workers_len in
    do
      qi ← get_elem? s.workers i
      qj ← get_elem? s.workers j
      push_to (record s { rnd_state = r' }) (if ltb qi.size qj.size then i else j) priority wk

-- `victim_id + 1 >= s->workers_len ? 0 : victim_id + 1`
abbrev pub next_victim : ℕ → ℕ → ℕ
next_victim workers_len victim_id = if leb workers_len (victim_id + 1) then 0 else victim_id + 1

-- The loop over the other queues, and at last the thread's own once more.
unfoldable pub steal : ℕ → Scheduler → ℕ → Option (ℕ × Scheduler)
steal zero s victim_id = some (0, s)
steal (suc n) s victim_id =
    let victim = next_victim s.workers_len victim_id in
    do
      q ← get_elem? s.workers victim
      elim (highest 64 q.active_mask) [
        | none ↦ steal n s victim
        | some p ↦ do
          (task, q') ← scheduler_queue_pop q
          elim (task == 0) [
            | true ↦ steal n (record s { workers = set s.workers victim q' }) victim
            | false ↦ some (task, record s { workers = set s.workers victim q'; len = s.len - 1 })
          ]
      ]

unfoldable pub scheduler_dequeue : Scheduler → ℕ → Option (ℕ × Scheduler)
scheduler_dequeue s worker_id = do
  q ← get_elem? s.workers worker_id
  (task, q') ← scheduler_queue_pop q
  elim (task == 0) [
    | false ↦ some (task, record s { workers = set s.workers worker_id q'; len = s.len - 1 })
    | true ↦ steal s.workers_len (record s { workers = set s.workers worker_id q' }) worker_id
  ]
