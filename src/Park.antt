-- ===== src/Park.antt =====
-- src/runtime/park.rs, and the parker of src/runtime/scheduler/current_thread.rs: how a thread waits and how it is woken.
pub mod ThreadPark
pub mod ThreadParker
pub mod FlagPark
pub mod YieldPark
pub mod Wakers
