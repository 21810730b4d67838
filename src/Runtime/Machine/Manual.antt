-- ===== src/Runtime/Machine/Manual.antt =====
-- `ManualWaker::wake` of src/task/waker.rs on a task of the machine. It asks nothing of the state.
use loony_rs_runtime.Base.{ℕ, zero, suc, ◌-◌, ◌%◌, ◌≡◌, true, update}
use loony_rs_runtime.Task.Header.{Polled, Header}
use loony_rs_runtime.Task.Wake
use loony_rs_runtime.Task.Raw
use loony_rs_runtime.Task.Raw.Once.{schedules}
use loony_rs_runtime.MultiThread.Deque.{Deque}
use loony_rs_runtime.Runtime.Machine.{Machine, reschedule, work}

-- A future after so many polls.
abbrev pub polled : {F T : Type 0} → (F → Polled F T) → ℕ → F → F
polled poll_future zero f = f
polled poll_future (suc k) f = polled poll_future k (poll_future f).next

module _ {F T W : Type 0} (D : Deque ℕ) (poll_future : F → Polled F T) where
  open D use {Queue, steal}

  -- `ManualWaker::wake` for the task `n`
  unfoldable pub wake_manually : ℕ → Machine Queue F T W → Machine Queue F T W
  wake_manually n m =
      let h = m.tasks n in
      let h' = Wake.manual_wake (Raw.poll poll_future 1) h in
      record m {
        shared = reschedule D (schedules h'.events - schedules h.events) n m.shared;
        tasks = update m.tasks n h';
      }

  -- So often in turn a wake and a round of the worker.
  unfoldable pub wake_and_work : ℕ → ℕ → ℕ → Machine Queue F T W → Machine Queue F T W
  unfolding wake_manually
  wake_and_work zero index n m = m
  wake_and_work (suc k) index n m =
      wake_and_work k index n (work D poll_future index (wake_manually n m))

  -- A complete task with a scheduler, and what a poll leaves of it.
  record Completed (f : F) (wakes_so_far : ℕ) (h : Header F T W) : Type 0 where
    has_scheduler : h.scheduler ≡ true
    done : h.state % 4 ≡ 3
    with_future : h.future ≡ f
    scheduled : schedules h.events ≡ wakes_so_far
