-- ===== src/Task/Raw.antt =====
-- The rest of src/task/raw.rs: the creation of a task, the vtable's `poll`, and the calls that a
-- future makes on the waker of its context.
pub mod Ops
pub mod Once
pub mod Count
pub mod Polling
pub mod Freed
pub mod Keeps
use loony_rs_runtime.Base.{
  ℕ, zero, suc, ◌==◌, bit_and, bit_or, true, not, if◌then◌else◌, none, List, [], ◌∷◌,
}
use loony_rs_runtime.Task.State.{TaskState, idle, complete, join_interest, from_bits, with_refcount}
use loony_rs_runtime.Task.Header.{
  Poll, ready, pending, WakerCall, clone, wake, wake_by_ref, drop, Polled, pointer, value, Event,
  out_of_fuel, Header, emit, clone_waker, release, drop_waker, wake_join,
}
use loony_rs_runtime.Task.Wake

module _ {F T W : Type 0} where
  -- `create_raw_task`: the header that it writes. The task's own pointer counts as one waker.
  unfoldable pub create_raw_task : F → Header F T W
  create_raw_task f = record {
    state = (with_refcount idle 1).bits;
    scheduler = true;
    future = f;
    output = pointer;
    join_waker = none;
    events = [];
  }

  -- What follows the call of `Future::poll`, up to the end of the match.
  unfoldable pub finish : Header F T W → Poll T → Header F T W
  unfolding release wake_join
  finish h (ready t) =
      let prev = h.state in
      let done = record h { output = value t; state = bit_or prev complete.bits } in
      release (if not (bit_and prev join_interest.bits == 0) then wake_join done else done)
  finish h pending = release h

  module _ (run : Header F T W → Header F T W) where
    unfoldable pub call : WakerCall → Header F T W → Header F T W
    unfolding clone_waker drop_waker
    call clone h = clone_waker h
    call wake h = Wake.wake_by_ref run h
    call wake_by_ref h = Wake.wake_by_ref run h
    call drop h = drop_waker h

    unfoldable pub calls : List WakerCall → Header F T W → Header F T W
    unfolding call
    calls [] h = h
    calls (c ∷ cs) h = calls cs (call c h)

-- A parameter for `Future::poll` of the task's future.
module _ {F T W : Type 0} (poll_future : F → Polled F T) where
  -- `VTableFor::poll`. The waker that it makes is dropped at its end. The fuel bounds how deep a
  -- poll may run inside another, which takes a task without a scheduler.
  unfoldable pub poll : ℕ → Header F T W → Header F T W
  unfolding emit finish calls drop_waker
  poll zero h = emit out_of_fuel h
  poll (suc fuel) h =
      let p = poll_future h.future in
      drop_waker (finish (calls (poll fuel) p.calls (record h { future = p.next })) p.result)
