-- ===== src/Queue.antt =====
-- The task queues and the scheduler of runtimes/0.3/common/queue.c.
pub mod Ring
pub mod Priority
pub mod Scheduler
