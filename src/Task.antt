-- ===== src/Task.antt =====
-- src/task: the state word of a task, its header and what is done to it.
pub mod State
pub mod Header
pub mod Wake
pub mod Raw
pub mod Yield
pub mod SafeTests
pub mod Waker
pub mod Layout
pub mod Join
pub mod Handle
pub mod Access
pub mod Overlap
