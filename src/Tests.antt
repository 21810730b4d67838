-- ===== src/Tests.antt =====
-- The theorems at concrete inputs.
mod Tasks
mod Parking
mod Timers
mod Workers
mod Contexts
mod Handles
mod Drivers
mod Pools
mod Joins
mod Locals
mod Machines
mod Wakers
mod Memory
mod Overlaps
