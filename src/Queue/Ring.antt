-- ===== src/Queue/Ring.antt =====
-- `struct task_queue` of runtimes/0.3/common/queue.c: a ring of RING_SIZE cells between two
-- counters. An operation runs with no other thread between its steps, so a loop that waits for a
-- cell to change waits for ever.
pub mod Deque
use hivelang.Prelude.{
  ℕ, ◌+◌, ◌-◌, ◌*◌, ◌%◌, ◌^◌, ◌==◌, leb, if◌then◌else◌, Option, none, some, List, [], ◌∷◌,
}

abbrev pub ring_size : ℕ
ring_size = 4 * 64 * 1024

-- The counters are signed in C and start at 0. Here they have 2 ^ 62 added, a multiple of the ring
-- size, so that `h & RING_MASK` is `h % ring_size` and they are natural numbers.
abbrev pub bias : ℕ
bias = 2 ^ 62

-- A cell is NULL (0) or a task.
pub record TaskQueue : Type 0 where
  pub buffer : ℕ → ℕ
  pub head : ℕ
  pub tail : ℕ

abbrev pub store : (ℕ → ℕ) → ℕ → ℕ → ℕ → ℕ
store b i v j = if j == i then v else b j

unfoldable pub queue_init : TaskQueue
queue_init = record { buffer = λ i. 0; head = bias; tail = bias }

unfoldable pub queue_push : TaskQueue → ℕ → TaskQueue
queue_push q task = record q {
  buffer = store q.buffer (q.tail % ring_size) task;
  tail = q.tail + 1;
}

-- The compare-and-exchange succeeds on an empty cell only.
unfoldable pub queue_push_front : TaskQueue → ℕ → Option TaskQueue
queue_push_front q task =
    let h = q.head - 1 in
    if q.buffer (h % ring_size) == 0
    then some (record q { buffer = store q.buffer (h % ring_size) task; head = h })
    else none

unfoldable pub queue_pop : TaskQueue → Option (ℕ × TaskQueue)
queue_pop q =
    let h = q.head in
    let task = q.buffer (h % ring_size) in
    if leb q.tail h
    then some (0, q)
    else if task == 0
    then none
    else some (task, record q { buffer = store q.buffer (h % ring_size) 0; head = h + 1 })

-- The tasks from counter `h` on, and those of a queue, front first.
abbrev pub cells : (ℕ → ℕ) → ℕ → ℕ → List ℕ
cells b h ℕ.zero = []
cells b h (ℕ.suc n) = b (h % ring_size) ∷ cells b (h + 1) n

abbrev pub contents : TaskQueue → List ℕ
contents q = cells q.buffer q.head (q.tail - q.head)
