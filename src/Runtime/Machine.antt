-- ===== src/Runtime/Machine.antt =====
-- A worker of the multi-thread scheduler and the tasks that it runs, put together: what `create_task` of
-- src/task/mod.safe.rs makes and `MultiThread::spawn` pushes, a round of `WorkerThread::run`, and
-- `Task::run`, whose wakes schedule the task again. A task is a number, under which its header is kept,
-- and its wakes come from threads of the runtime, which have it as their current one.
pub mod Rounds
pub mod Queued
pub mod Fair
pub mod Spawned
pub mod Awaited
pub mod Helped
pub mod Manual
pub mod Joined
use loony_rs_runtime.Base.{◌≡◌, refl, false, ℕ, zero, suc, ◌-◌, Option, some, none, [], update}
use loony_rs_runtime.Task.Header.{Polled, Header}
use loony_rs_runtime.Task.Raw
use loony_rs_runtime.Task.Raw.Once.{schedules}
use loony_rs_runtime.MultiThread.Deque.{Deque}
use loony_rs_runtime.MultiThread.Shared.{Shared, spawn_task}
use loony_rs_runtime.Context.Workers.{begin}
use loony_rs_runtime.Handle.Schedule.{schedule_current}
use loony_rs_runtime.MultiThread.Worker.{Round, runs, drops, sleeps, stops, round}

pub record Machine (Queue F T W : Type 0) : Type 0 where
  pub shared : Shared Queue
  pub own : Queue
  pub tasks : ℕ → Header F T W

module _ (D : Deque ℕ) where
  open D use {Queue}

  -- The closure that `create_task` gives to the task, on a worker of this runtime, whose identity is 0,
  -- or on a thread in its `MultiThread::block_on`. Both have set the context of the thread to this
  -- runtime, so the closure's other branch, a run in place, is not taken.
  unfoldable pub schedule_here : ℕ → Shared Queue → Shared Queue
  unfolding schedule_current begin
  schedule_here n s =
      let context = begin 0 0 (record { shared = none; worker = none }) in
      (schedule_current D (λ t w. w) context n
          (record { shareds = λ _. s; flags = λ _. false })).shareds
        0

  -- It pushes the task and notifies a worker.
  pub schedule_here_lem : (n : ℕ) (s : Shared Queue) → schedule_here n s ≡ spawn_task D n s
  unfolding schedule_here
  schedule_here_lem n s = refl

  -- That closure, called so often.
  unfoldable pub reschedule : ℕ → ℕ → Shared Queue → Shared Queue
  reschedule zero n s = s
  reschedule (suc k) n s = schedule_here n (reschedule k n s)

  -- `MultiThread::spawn`, with the task of `create_task`.
  unfoldable pub spawn : {F T W : Type 0} → ℕ → F → Machine Queue F T W → Machine Queue F T W
  spawn n f m = record m {
    shared = spawn_task D n m.shared;
    tasks = update m.tasks n (Raw.create_raw_task f);
  }

module _ {F T W : Type 0} (D : Deque ℕ) (poll_future : F → Polled F T) where
  open D use {Queue}

  -- `Task::run`
  unfoldable pub run_task : ℕ → Machine Queue F T W → Machine Queue F T W
  unfolding reschedule
  run_task n m =
      let h = m.tasks n in
      let h' = Raw.poll poll_future 1 h in
      record m {
        shared = reschedule D (schedules h'.events - schedules h.events) n m.shared;
        tasks = update m.tasks n h';
      }

  -- What the loop does with the outcome of a round.
  unfoldable pub conclude : Round ℕ → Machine Queue F T W → Machine Queue F T W
  unfolding run_task
  conclude (runs n) m = run_task n m
  conclude (drops n) m = m
  conclude sleeps m = m
  conclude stops m = m

  -- A round of the worker `index`, with nothing pushed by other threads meanwhile.
  unfoldable pub work : ℕ → Machine Queue F T W → Machine Queue F T W
  unfolding conclude round
  work index m =
      let (r, own, s) = round D index [] m.own m.shared in
      conclude r (record m { shared = s; own = own })

  unfoldable pub rounds : ℕ → ℕ → Machine Queue F T W → Machine Queue F T W
  unfolding work
  rounds zero index m = m
  rounds (suc k) index m = rounds k index (work index m)
