-- ===== src/MultiThread.antt =====
-- src/runtime/scheduler/multi_thread.rs. Tasks are abstract; the queues of crossbeam are the interface
-- `Deque`. Worker has the rounds of one worker, Pool the steps of all of them.
pub mod Deque
pub mod Shared
pub mod Steal
pub mod Worker
pub mod BlockOn
pub mod Pool
