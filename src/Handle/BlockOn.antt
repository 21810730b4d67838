-- ===== src/Handle/BlockOn.antt =====
-- `Handle::block_on`, its two ways to block, and `process_some_tasks`.
use loony_rs_runtime.Base.{
  ℕ, zero, suc, Bool, true, false, if◌then◌else◌, Option, none, some, List, [], ◌∷◌, ◌++◌,
}
use loony_rs_runtime.MultiThread.Deque.{Deque}
use loony_rs_runtime.MultiThread.Shared.{Shared, spawn_task}
use loony_rs_runtime.MultiThread.Steal.{to_option}
use loony_rs_runtime.Context.{Context, try_get_worker}
use loony_rs_runtime.Task.Header.{ready, pending, WakerCall, clone, wake, wake_by_ref, drop, Polled}

-- `deadlocked` is a lock of the mutex that the thread itself holds, `panicked` the `unreachable!`
-- after the loop, and `unfinished` fuel that ran out.
pub data Outcome (A : Type 0) : Type 0 where
  done : A → Outcome A
  deadlocked panicked unfinished : Outcome A

-- What the waker of `block_on_with_worker` points to, with whether its mutex is locked; `woken` logs the
-- wakers that were woken.
pub record BlockOnState (F W : Type 0) : Type 0 where
  pub future : F
  pub waker : Option W
  pub completed : Bool
  pub locked : Bool
  pub woken : List W

module _ {F W : Type 0} where
  unfoldable pub take_waker : BlockOnState F W → BlockOnState F W
  take_waker st = elim st.waker [
    | none ↦ st
    | some w ↦ record st { waker = none; woken = st.woken ++ w ∷ [] }
  ]

  -- `lock`; `none` is a thread that waits for the lock that it holds itself.
  unfoldable pub lock : BlockOnState F W → Option (BlockOnState F W)
  lock st = if st.locked then none else some (record st { locked = true })

  unfoldable pub unlock : BlockOnState F W → BlockOnState F W
  unlock st = record st { locked = false }

  -- What a function of the waker does to the state that it has locked.
  unfoldable pub waker_call : WakerCall → BlockOnState F W → BlockOnState F W
  unfolding take_waker
  waker_call clone st = st
  waker_call wake st = take_waker (record st { completed = true })
  waker_call wake_by_ref st = take_waker st
  waker_call drop st = st

  -- `wake` and `wake_by_ref`, from the lock to its release.
  unfoldable pub locked_call : WakerCall → BlockOnState F W → Option (BlockOnState F W)
  unfolding lock unlock waker_call
  locked_call c st = elim (lock st) [ none ↦ none | some held ↦ some (unlock (waker_call c held)) ]

  -- A call of the waker; `clone` and `drop` do not lock.
  unfoldable pub call_waker : WakerCall → BlockOnState F W → Option (BlockOnState F W)
  unfolding locked_call
  call_waker clone st = some st
  call_waker wake st = locked_call wake st
  call_waker wake_by_ref st = locked_call wake_by_ref st
  call_waker drop st = some st

  unfoldable pub call_wakers : List WakerCall → BlockOnState F W → Option (BlockOnState F W)
  unfolding call_waker
  call_wakers [] st = some st
  call_wakers (c ∷ cs) st = elim (call_waker c st) [ none ↦ none | some st' ↦ call_wakers cs st' ]

-- `spawns` is what a run of a task puts into the injector, in order.
module _ {Task : Type 0} (D : Deque Task) (spawns : Task → List Task) where
  open D use {Queue, steal}

  unfoldable pub spawn_all : List Task → Shared Queue → Shared Queue
  unfolding spawn_task
  spawn_all [] s = s
  spawn_all (t ∷ ts) s = spawn_all ts (spawn_task D t s)

  -- So many rounds of the loop, with the tasks that it runs.
  unfoldable pub process : ℕ → Shared Queue → List Task × Shared Queue
  unfolding spawn_all
  process zero s = ([], s)
  process (suc rounds) s =
      let (r, q) = steal s.injector in
      elim (to_option r) [
        | none ↦ ([], record s { injector = q })
        | some t ↦
            let (ran, s') = process rounds (spawn_all (spawns t) (record s { injector = q })) in
            (t ∷ ran, s')
      ]

  -- `process_some_tasks`
  unfoldable pub process_some_tasks : Shared Queue → List Task × Shared Queue
  unfolding process
  process_some_tasks s = process 10 s

  -- A poll of the future: what it becomes, its calls of the waker, its result. A waker is a number.
  module _ {F T : Type 0} (poll_future : F → Polled F T) where
    -- The waker does nothing.
    unfoldable pub block_on_simple : ℕ → F → Shared Queue → Outcome (T × Shared Queue)
    unfolding process_some_tasks
    block_on_simple zero f s = unfinished
    block_on_simple (suc polls) f s =
        let p = poll_future f in
        elim p.result [
          | ready t ↦ done (t, s)
          | pending ↦ block_on_simple polls p.next (process_some_tasks s).1
        ]

    -- The loop of `block_on_with_worker` from its round `n` on: the state is locked for the test and for
    -- the poll, and the calls of the waker that the poll makes find it so. `between` are the calls of
    -- the waker after each poll, by the tasks that run there and by other threads.
    unfoldable pub block_on_with_worker :
        (ℕ → List WakerCall) → ℕ → ℕ → BlockOnState F ℕ → Shared Queue → Outcome (T × Shared Queue)
    unfolding process_some_tasks call_wakers lock unlock
    block_on_with_worker between zero n st s = unfinished
    block_on_with_worker between (suc polls) n st s =
        let p = poll_future st.future in
        elim (lock st) [
          | none ↦ deadlocked
          | some held ↦
              if held.completed
              then panicked
              else elim (call_wakers p.calls (record held { future = p.next })) [
                | none ↦ deadlocked
                | some polled ↦ elim p.result [
                  | ready t ↦ done (t, s)
                  | pending ↦ elim (call_wakers (between n) (unlock polled)) [
                    | none ↦ deadlocked
                    | some st' ↦
                        block_on_with_worker between polls (suc n) st' (process_some_tasks s).1
                  ]
                ]
              ]
        ]

    -- `Handle::block_on` of the handle with the shared state `own`.
    unfoldable pub block_on :
        (ℕ → List WakerCall) → ℕ → ℕ → Context → F → Shared Queue → Outcome (T × Shared Queue)
    unfolding try_get_worker block_on_simple block_on_with_worker
    block_on between polls own c f s = elim (try_get_worker own c) [
      | none ↦ block_on_simple polls f s
      | some _ ↦
          block_on_with_worker between polls 0
            (record { future = f; waker = none; completed = false; locked = false; woken = [] }) s
    ]
