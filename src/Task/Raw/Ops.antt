-- ===== src/Task/Raw/Ops.antt =====
-- Everything that the runtime does to a task after `create_raw_task`, as one step function, and
-- what each part of it does to the word.
use loony_rs_runtime.Base.{List, [], ◌∷◌}
use loony_rs_runtime.Task.Header.{Polled, WakerCall, Header, abort_task, set_join_waker}
use loony_rs_runtime.Task.Raw.{call, poll}

-- A call on a waker of the task, a run of the task by a worker (`Task::run`), `abort_task`, and
-- `set_join_waker` by its join handle.
pub data Op (W : Type 0) : Type 0 where
  waker_call : WakerCall → Op W
  run : Op W
  abort : Op W
  join : W → Op W

module _ {F T W : Type 0} (poll_future : F → Polled F T) where
  -- Depth 1 is enough for a task with a scheduler: its wakes run nothing.
  unfoldable pub step : Op W → Header F T W → Header F T W
  unfolding call abort_task set_join_waker
  step (waker_call c) h = call (poll poll_future 1) c h
  step run h = poll poll_future 1 h
  step abort h = abort_task h
  step (join w) h = (set_join_waker h w).0

  unfoldable pub steps : List (Op W) → Header F T W → Header F T W
  steps [] h = h
  steps (o ∷ os) h = steps os (step o h)
