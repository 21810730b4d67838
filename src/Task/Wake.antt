-- ===== src/Task/Wake.antt =====
-- Waking a task: the two versions of `waker_from_task`, in src/task/raw.rs and src/task/waker.rs.
-- Here no other thread changes the word between the load and the exchange.
pub mod Arithmetic
pub mod Laws
pub mod Race
use loony_rs_runtime.Base.{
  ℕ, zero, suc, bit_and, bit_or, ◌||◌, not, if◌then◌else◌, Option, none, some,
}
use loony_rs_runtime.Task.State.{
  bit_not, state_mask, scheduled, from_bits, is_idle, is_scheduled, is_running, is_complete,
  is_aborted, with_flag,
}
use loony_rs_runtime.Task.Header.{Header, Event, schedule, emit}

-- One round of the loop of raw.rs, at the word that was loaded: `none` leaves the loop, `some d`
-- tries to exchange the word for `d`.
unfoldable pub attempt : ℕ → Option ℕ
attempt current =
    let s = from_bits current in
    if is_complete s || is_aborted s
    then none
    else if is_scheduled s || is_running s
    then none
    else some (with_flag s scheduled).bits

-- One round of the loops of waker.rs.
unfoldable pub attempt_idle : ℕ → Option ℕ
attempt_idle current =
    let s = from_bits current in
    if is_complete s || is_aborted s
    then none
    else if is_scheduled s || is_running s
    then none
    else if not (is_idle s)
    then none
    else some (bit_or (bit_and current (bit_not state_mask)) scheduled.bits)

-- `run` is the vtable's `poll`.
module _ {F T W : Type 0} (run : Header F T W → Header F T W) where
  -- `Task::schedule`
  unfoldable pub schedule_task : Header F T W → Header F T W
  unfolding emit
  schedule_task h = if h.scheduler then emit schedule h else run h

  -- raw.rs: `wake_by_ref_waker`, and `wake_waker`, which calls it.
  unfoldable pub wake_by_ref : Header F T W → Header F T W
  unfolding schedule_task
  wake_by_ref h = elim (attempt h.state) [
    | none ↦ h
    | some d ↦ schedule_task (record h { state = d })
  ]

  -- waker.rs: `wake_waker` and `wake_by_ref_waker`, whose bodies are the same. The weak exchange
  -- may fail for no reason, here as often as the number says.
  unfoldable pub wake_weak : ℕ → Header F T W → Header F T W
  unfolding schedule_task
  wake_weak zero h = elim (attempt_idle h.state) [
    | none ↦ h
    | some d ↦ schedule_task (record h { state = d })
  ]
  wake_weak (suc failures) h = elim (attempt_idle h.state) [
    | none ↦ h
    | some _ ↦ wake_weak failures h
  ]

  -- waker.rs: `ManualWaker::wake`, which asks nothing of the state.
  unfoldable pub manual_wake : Header F T W → Header F T W
  unfolding schedule_task
  manual_wake h = schedule_task h
