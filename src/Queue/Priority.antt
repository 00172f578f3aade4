-- ===== src/Queue/Priority.antt =====
-- `struct scheduler_queue` of runtimes/0.3/common/queue.c: a ring for each priority, and a mask of
-- the priorities that may have tasks.
pub mod Marks
pub mod Pop
pub mod Push
use hivelang.Prelude.{
  ℕ, zero, suc, ◌+◌, ◌-◌, ◌/◌, ◌%◌, ◌^◌, ◌==◌, leb, Bool, true, false, not, ◌&&◌, if◌then◌else◌,
  Option, none, some, List, replicate, get_elem?, set, ◌>>=◌,
}
use hivelang.Queue.Ring.{TaskQueue, queue_init, queue_push, queue_push_front, queue_pop}

abbrev pub max_task_priority : ℕ
max_task_priority = 16

-- The word `active_mask` by its bits.
pub record SchedulerQueue : Type 0 where
  pub queues : List TaskQueue
  pub active_mask : ℕ → Bool
  pub size : ℕ

abbrev pub set_bit : (ℕ → Bool) → ℕ → Bool → ℕ → Bool
set_bit mask i b j = if j == i then b else mask j

-- `63 - __builtin_clzll(mask)`: the highest bit below `n` that is set; none if the mask is 0.
abbrev pub highest : ℕ → (ℕ → Bool) → Option ℕ
highest zero mask = none
highest (suc n) mask = if mask n then some n else highest n mask

-- `s->active_mask = s->size, 0;` gives the mask what the field `size` has in the memory that was
-- allocated, and leaves that field as it is.
unfoldable pub scheduler_queue_init : ℕ → SchedulerQueue
scheduler_queue_init unwritten_size = record {
  queues = replicate max_task_priority queue_init;
  active_mask = λ i. (unwritten_size / 2 ^ i) % 2 == 1;
  size = unwritten_size;
}

-- The common end of the two pushes: the mask and the counter.
abbrev pub announce : SchedulerQueue → ℕ → TaskQueue → SchedulerQueue
announce s priority q = record {
  queues = set s.queues priority q;
  active_mask = set_bit s.active_mask priority true;
  size = s.size + 1;
}

-- The assertions of both pushes: the priority is at most MAX_TASK_PRIORITY, and the task not NULL.
abbrev pub asserted : ℕ → ℕ → Bool
asserted priority task = leb priority max_task_priority && not (task == 0)

-- `none` is a failed assertion, an index outside `queues`, or a wait for ever.
unfoldable pub scheduler_queue_push_front : SchedulerQueue → ℕ → ℕ → Option SchedulerQueue
scheduler_queue_push_front s priority task =
    if asserted priority task
    then (do
      q ← get_elem? s.queues priority
      q' ← queue_push_front q task
      some (announce s priority q'))
    else none

unfoldable pub scheduler_queue_push : SchedulerQueue → ℕ → ℕ → Option SchedulerQueue
scheduler_queue_push s priority task =
    if asserted priority task
    then (do q ← get_elem? s.queues priority; some (announce s priority (queue_push q task)))
    else none

-- Each round answers or clears a bit of the mask, so 65 rounds are enough.
unfoldable pub pop_rounds : ℕ → SchedulerQueue → Option (ℕ × SchedulerQueue)
pop_rounds zero s = none
pop_rounds (suc fuel) s = elim (highest 64 s.active_mask) [
  | none ↦ some (0, s)
  | some priority ↦ do
    q ← get_elem? s.queues priority
    (task, q') ← queue_pop q
    elim (task == 0) [
      | false ↦ some (task, record s { queues = set s.queues priority q'; size = s.size - 1 })
      | true ↦ pop_rounds fuel (record s {
        queues = set s.queues priority q';
        active_mask = set_bit s.active_mask priority false;
      })
    ]
]

unfoldable pub scheduler_queue_pop : SchedulerQueue → Option (ℕ × SchedulerQueue)
scheduler_queue_pop = pop_rounds 65
