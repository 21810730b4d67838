-- ===== src/Task/Handle.antt =====
-- src/task/mod.rs: the tasks and the join handle of the module that the crate compiles. Its header
-- has the fields of raw.rs, `waker` for `join_waker`, an output that is an `Option`, and no
-- scheduler, so that a wake runs the task at once.
pub mod Laws
pub mod Waiting
pub mod Nested
use loony_rs_runtime.Base.{
  ℕ, zero, suc, ◌==◌, bit_and, bit_or, false, not, if◌then◌else◌, Option, none, some, [],
}
use loony_rs_runtime.Task.Header.{
  Poll, ready, pending, Polled, Cell, pointer, value, Header, emit, frees_inside, out_of_fuel,
  drop_waker, wake_join,
}
use loony_rs_runtime.Task.Raw.{calls}

-- `panicked` is `unwrap` on `None`, `garbage` a read of bytes that are no `Option<T>`.
pub data Answer (T : Type 0) : Type 0 where
  ok : T → Answer T
  aborted panicked garbage : Answer T

-- What `take().unwrap()` finds in the bytes of the field `output`, and what it leaves there.
abbrev pub take_output : {T : Type 0} → Cell (Option T) → Answer T × Cell (Option T)
take_output pointer = (garbage, pointer)
take_output (value none) = (panicked, value none)
take_output (value (some t)) = (ok t, value none)

module _ {F T W : Type 0} where
  unfoldable pub create_task : F → Header F (Option T) W
  create_task f = record {
    state = 0;
    scheduler = false;
    future = f;
    output = pointer;
    join_waker = none;
    events = [];
  }

  -- `JoinHandle::abort`; the test of the old state has an empty body.
  unfoldable pub abort : Header F (Option T) W → Header F (Option T) W
  abort h = record h { state = bit_or h.state 0x4 }

  -- `JoinHandle::poll`. The `Box` that it makes of the field's address is dropped at the end of the
  -- first branch, also when `unwrap` panics. What is true of the task afterwards is true only as far
  -- as that free does nothing.
  unfoldable pub poll : W → Header F (Option T) W → Poll (Answer T) × Header F (Option T) W
  unfolding emit
  poll w h =
      if not (bit_and h.state 0x1 == 0)
      then (
        ready (take_output h.output).0,
        emit frees_inside (record h { output = (take_output h.output).1 }),
      )
      else if not (bit_and h.state 0x4 == 0)
      then (ready aborted, h)
      else (pending, record h { join_waker = some w })

  -- What follows the call of `Future::poll` in `poll_task`: the output is written over the field
  -- `output`. An output whose `Option` is larger than the field, and so overwrites what follows it, is
  -- not modelled.
  unfoldable pub finish_task : Header F (Option T) W → Poll T → Header F (Option T) W
  unfolding wake_join
  finish_task h (ready t) =
      wake_join (record h { output = value (some t); state = bit_or h.state 0x1 })
  finish_task h pending = h

module _ {F T W : Type 0} (poll_future : F → Polled F T) where
  -- `poll_task`. The fuel bounds how deep a poll may run inside another.
  unfoldable pub poll_task : ℕ → Header F (Option T) W → Header F (Option T) W
  unfolding emit finish_task calls drop_waker
  poll_task zero h = emit out_of_fuel h
  poll_task (suc fuel) h =
      let p = poll_future h.future in
      drop_waker
        (finish_task (calls (poll_task fuel) p.calls (record h { future = p.next })) p.result)
