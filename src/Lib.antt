-- ===== src/Lib.antt =====
-- The runtime of loony-rs: tasks and their wakers, thread parkers, timers, I/O, and the schedulers.
--
-- A task is a header with a state word, a future, an output and a join waker (src/task/raw.rs). A
-- waker sets the word to SCHEDULED and calls the scheduler's function, which puts the task in a queue.
-- A worker takes it from there and polls the future. The join handle reads the output, or stores its
-- own waker in the header. A thread without work waits in a parker, and a timer or an event wakes by a
-- waker. A handle blocks a thread on a future, and the builder makes a runtime with one of the two
-- schedulers. Paths below are from the root of the repository.
--
-- Base: shared names, Boolean tests, lists over the native numbers, sums of weights.
-- Bits: reduces `bit_and`, `bit_or` at the masks of the state word to division and remainder.
-- Task/State: TaskState of src/task/raw.rs, bit by bit; a usize has 64 bits, written `% 2 ^ 64`.
-- Task/Header: Header and the functions on it. The allocation is a record, `events` logs the calls
-- out of it (the scheduler, the wakers, the deallocation). The output is a pointer until it is
-- written: reading it then gives a value that nobody wrote.
-- Task/Wake: wake_by_ref_waker of src/task/raw.rs and wake_waker of src/task/waker.rs, for one
-- thread. The number that the second takes counts the failures of its weak exchange. Task/Wake/Race: the
-- same loop with any number of threads, a step for each access to the word.
-- Task/Raw: create_raw_task and poll. What the future does in a poll is a parameter: a list of
-- calls of its waker, and a result.
-- Task/Access: the methods of Task on the word, Task::run and schedule_fn. Task/Overlap: the polls of one
-- task on any number of workers, with the queues that it is in as a number.
-- Task/Layout: task_layout, the pointers of create_raw_task and deallocate of src/task/raw.rs, with
-- addresses as numbers. Task/Layout/Heap: the heap as the list of the blocks that are allocated, in
-- which a free of anything else is undefined, with create_task and deallocate_task of src/task/mod.rs.
-- Task/Waker: ManualWaker and CallbackWaker of src/task/waker.rs; a box is counted when it is made
-- and when it is freed. Task/Waker/Tables: the noop and panic wakers.
-- Task/Join: the join handle of src/task/mod.safe.rs, Task/Handle: tasks and handle of
-- src/task/mod.rs, whose poll frees an address inside the header: that free is an entry of the log,
-- and what follows it is true as far as it does nothing. The fuel of Task/Join counts the calls of poll by itself: one is enough
-- where it returns at all, since a further call finds the same state and flags. Task/Join/Race: that
-- poll and the completion of the task on two threads, a step for each access to the header.
-- Task/Yield: YieldNow and block_on of src/task/mod.safe.rs; the fuel of block_on counts polls.
-- Task/SafeTests: the tests of that file, as lists of their assertions.
-- Park/ThreadPark: park_timeout and unpark of src/runtime/park.rs as steps of one parking thread
-- and any number of others, Park/ThreadParker: those of src/runtime/scheduler/current_thread.rs.
-- Park/FlagPark: SleepPark of the same file and BlockOnParker of
-- src/runtime/scheduler/multi_thread.rs, over the token of the standard library's thread::park.
-- Park/YieldPark: YieldPark. Park/Wakers: the waker tables of the parkers, and the counts of their Arc.
-- Timer: TimeDriver and Parker::park_timeout of src/runtime/park.rs, Sleep of src/time/mod.rs. An
-- instant is a number. The heap of std is the interface `BinaryHeap`. The fuel of `process` counts
-- its rounds: one more than there are timers is enough. Timer/Parker: Parker with its drivers, whose calls
-- of its ThreadPark are logged. Timer/Driver: TimeDriver of src/time/mod.rs with all its futures.
-- Io: IoDriver and PlatformSelector of src/runtime/park.rs. Mio and slab are the interfaces `Mio` and
-- `Slab`. The fuel of `poll` counts the events that are looked at: one more than there are is enough.
-- Io/Windows: the branches for Windows, over the interface `Iocp`.
-- Context: the thread-locals of src/runtime/scheduler/multi_thread.rs and the guards over them, with
-- those of src/runtime/handle.rs. A shared state is a number there, its identity. Context/Workers: what
-- a worker and a shutdown do to them.
-- CurrentThread: src/runtime/scheduler/current_thread.rs. The queue carries whether it is borrowed. The
-- fuel of `run_until_idle` counts the tasks of the queue, which does not grow while it is borrowed;
-- that of `block_on` counts the polls. CurrentThread/Tasks: the same with the tasks of
-- src/task/mod.rs, their wakers and the notification of the parker; a park without one sleeps until
-- another thread wakes a task that wakes `block_on`. A run of a task has fuel for two polls, one inside
-- the other, which is enough (Task/Handle/Nested). CurrentThread/Fifo: a plain queue for its calls.
-- Handle: Handle of src/runtime/handle.rs; Handle/BlockOn its block_on and process_some_tasks, with the
-- lock of the state: a thread that locks it a second time stays there. What
-- others do to the waker between two polls is an argument, a list of calls for each round; the fuel
-- counts the rounds, one more than the future is pending. Handle/Schedule: the functions that
-- create_task and create_task_with_shared of src/task/mod.safe.rs schedule by. Handle/Shutdown: the
-- flags that the handle and the current-thread scheduler read and set. Handle/Wakers: the memory behind
-- the wakers of the two blocking loops, as a count of owners. Handle/Lost: spawning on a worker.
-- Handle/Background: spawn_background.
-- MultiThread: src/runtime/scheduler/multi_thread.rs. The queues of crossbeam are the interface
-- `Deque`, whose steal may answer that it has to be retried. A round of a worker is one call, with
-- what the others push meanwhile as its argument. MultiThread/BlockOn: its block_on, with fuel for the
-- polls. MultiThread/Pool: all the workers at once, with the threads that spawn, those that block and
-- help, and the one that shuts down, a step for each search, check, lock, wait and notification; the
-- own queue of a worker is the one of its index among the stealers. A run of a task is part of the step that finds it.
-- Runtime: the builder of src/runtime/builder.rs and the runtime of src/runtime/mod.rs, over the two
-- schedulers. Runtime/Machine: a worker with its tasks, each the header of Task/Raw under a number: what
-- create_task of src/task/mod.safe.rs makes and MultiThread::spawn pushes, found by a round of the worker,
-- run, and pushed again by its wakes, which come from threads of the runtime. Runtime/Machine/Fair and Spawned: many tasks at once. Runtime/Machine/Manual:
-- ManualWaker::wake there. Runtime/Machine/Awaited and Helped: block_on of a join handle, on a thread
-- that may run the task itself; the fuel counts the polls of the handle and, within one, its calls of
-- itself.
-- Tests: the theorems at concrete inputs, with lists for the heap, the queues and the slab.
--
-- Not modelled: an output that is larger than the field of the header that it is written over, what
-- crosses only as a pointer (Task::from_raw, Runtime::handle, the FutureExt wrappers, ParkThread
-- around ThreadPark), Handle::spawn, which passes a Task where a future is wanted and so does not
-- compile, the branches of the selector for systems that are neither unix nor Windows, and the
-- memory orders of the atomic accesses, which are taken to be sequentially consistent.
pub mod Base
pub mod Bits
pub mod Task
pub mod Park
pub mod Timer
pub mod Io
pub mod Context
pub mod CurrentThread
pub mod Handle
pub mod MultiThread
pub mod Runtime
pub mod Tests
