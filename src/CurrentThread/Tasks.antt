-- ===== src/CurrentThread/Tasks.antt =====
-- The current-thread scheduler with its tasks: `CurrentThread` of
-- src/runtime/scheduler/current_thread.rs over the tasks of src/task/mod.rs, which have no scheduler,
-- so that a wake runs the task on the thread that wakes it. A task is a number, under which its
-- header is kept. Tasks spawn no tasks here; Idle.antt says what becomes of one that does.
pub mod Rounds
pub mod Joined
pub mod Waits
pub mod Woken
use loony_rs_runtime.Base.{
  ℕ, zero, suc, ◌+◌, Bool, true, false, ◌||◌, ltb, if◌then◌else◌, Option, none, some, List, [], ◌∷◌,
  ◌++◌, length, update,
}
use loony_rs_runtime.Task.Header.{Poll, ready, pending, Polled, Header}
use loony_rs_runtime.Task.Wake
use loony_rs_runtime.Task.Handle
use loony_rs_runtime.Task.Raw.Keeps.{wokes}
use loony_rs_runtime.Task.Handle.{create_task, poll_task}
use loony_rs_runtime.CurrentThread
use loony_rs_runtime.CurrentThread.{Outcome, done, unfinished, bind, Local, is_idle}

-- The waker that `block_on` gives to its future, `ThreadParker::waker`.
pub data MainWaker : Type 0 where
  main_waker : MainWaker

-- `notified` says whether the word of the `ThreadParker` is `NOTIFIED`.
pub record Machine (F T : Type 0) : Type 0 where
  pub local : Local ℕ
  pub tasks : ℕ → Header F (Option T) MainWaker
  pub notified : Bool

-- How `block_on` ends: `asleep` is a park that nothing ends.
pub data Ended (A : Type 0) : Type 0 where
  returned : A → Ended A
  asleep : Ended A

module _ {F T : Type 0} where
  -- `spawn_local`
  unfoldable pub spawn_local : ℕ → F → Machine F T → Outcome (Machine F T)
  spawn_local n f m = bind (CurrentThread.spawn_local n m.local) (λ l. done (record m {
    local = l;
    tasks = update m.tasks n (create_task f);
    notified = m.local.parker || m.notified;
  }))

  -- `wake` of the waker of `block_on`, if it is called: it unparks the thread.
  unfoldable pub wake_main : Bool → Machine F T → Machine F T
  wake_main called m = record m { notified = m.notified || called }

  -- What is done to a header, with the wakes of the waker of `block_on` that its log shows.
  unfoldable pub visit :
      (Header F (Option T) MainWaker → Header F (Option T) MainWaker)
      → ℕ
      → Machine F T
      → Machine F T
  unfolding wake_main
  visit act n m =
      let h = m.tasks n in
      let h' = act h in
      wake_main (ltb (wokes h.events) (wokes h'.events)) (record m { tasks = update m.tasks n h' })

module _ {F T : Type 0} (poll_future : F → Polled F T) where
  -- `Task::run`
  unfoldable pub run_task : ℕ → Machine F T → Machine F T
  unfolding visit
  run_task n m = visit (poll_task poll_future 2) n m

  -- The waker of a task, called by another thread.
  unfoldable pub wake_task : ℕ → Machine F T → Machine F T
  unfolding visit
  wake_task n m = visit (Wake.wake_by_ref (poll_task poll_future 2)) n m

  unfoldable pub run_tasks : List ℕ → Machine F T → Machine F T
  unfolding run_task
  run_tasks [] m = m
  run_tasks (n ∷ ns) m = run_tasks ns (run_task n m)

  unfoldable pub run_until_idle : Machine F T → Outcome (Machine F T)
  unfolding run_tasks
  run_until_idle m =
      bind (CurrentThread.run_until_idle (λ _. []) (suc (length m.local.queue)) m.local)
        (λ r. done (run_tasks r.0 (record m { local = r.1 })))

  -- `ThreadParker::park`, with the tasks that other threads wake while this one sleeps, in order.
  -- It answers with those that are left.
  unfoldable pub park : List ℕ → Machine F T → Option (List ℕ × Machine F T)
  unfolding wake_task
  park [] m = if m.notified then some ([], record m { notified = false }) else none
  park (n ∷ ns) m = elim m.notified [
    | true ↦ some (n ∷ ns, record m { notified = false })
    | false ↦ park ns (wake_task n m)
  ]

  -- A parameter for a poll of the future of `block_on`.
  module _ {M A : Type 0} (poll_main : M → Machine F T → Outcome (M × Machine F T × Poll A)) where
    -- `CurrentThread::block_on`, for so many polls.
    unfoldable pub block_on : ℕ → List ℕ → M → Machine F T → Outcome (Ended A × Machine F T)
    unfolding run_until_idle park is_idle
    block_on zero outside main m = unfinished
    block_on (suc polls) outside main m = bind (poll_main main m) (λ (main', m1, result).
        elim result [
          | ready a ↦ done (returned a, m1)
          | pending ↦ bind (run_until_idle m1) (λ m2. elim (is_idle m2.local) [
            | true ↦ elim (park outside m2) [
              | none ↦ done (asleep, m2)
              | some (left, m3) ↦ block_on polls left main' m3
            ]
            | false ↦ block_on polls outside main' m2
          ])
        ])

-- The future `async { spawn_local(f).await }`, which spawns its task under the number `n`.
pub data Main (F : Type 0) : Type 0 where
  start : F → Main F
  join : Main F

module _ {F T : Type 0} (n : ℕ) where
  unfoldable pub poll_join : Machine F T → Outcome (Main F × Machine F T × Poll (Handle.Answer T))
  poll_join m =
      let (result, h) = Handle.poll main_waker (m.tasks n) in
      done (join, record m { tasks = update m.tasks n h }, result)

  unfoldable pub poll_main :
      Main F → Machine F T → Outcome (Main F × Machine F T × Poll (Handle.Answer T))
  unfolding spawn_local poll_join
  poll_main (start f) m = bind (spawn_local n f m) poll_join
  poll_main join m = poll_join m
