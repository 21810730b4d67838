-- ===== src/Task/Header.antt =====
-- `Header` of src/task/raw.rs, and what a task asks of the code around it: the future that it polls
-- and the wakers that it calls.
use loony_rs_runtime.Base.{
  ℕ, ◌+◌, ◌-◌, ◌^◌, ◌<◌, ◌==◌, ◌&&◌, bit_and, bit_or, Bool, not, if◌then◌else◌, Option, none, some,
  List, [], ◌∷◌, ◌++◌,
}
use loony_rs_runtime.Task.State.{
  usize, shl, refcount_shift, aborted, complete, join_interest, from_bits, refcount, is_complete,
}

pub data Poll (T : Type 0) : Type 0 where
  ready : T → Poll T
  pending : Poll T

-- What a future does with the waker of its context while it is polled.
pub data WakerCall : Type 0 where
  clone wake wake_by_ref drop : WakerCall

-- One call of `Future::poll`: the future afterwards, its waker calls in order, and the result.
pub record Polled (F T : Type 0) : Type 0 where
  pub next : F
  pub calls : List WakerCall
  pub result : Poll T

-- The bytes at `header.output.get()`: a field of the header. It starts as the pointer to the output
-- storage, and `poll` writes the output over it.
--
-- The field is as large as a pointer, and a larger output overwrites what follows it, which is not
-- modelled: what is said of a header once an output was written is true only of outputs that fit, as
-- `Usize` does in raw.rs, and `U32` with its `Option` in mod.rs.
pub data Cell (T : Type 0) : Type 0 where
  pointer : Cell T
  value : T → Cell T

abbrev pub Usize : Type 0
Usize = (n : ℕ) × (n < 2 ^ 64)

abbrev pub U32 : Type 0
U32 = (n : ℕ) × (n < 2 ^ 32)

-- What leaves the header. `schedule` is a call of the scheduler's function, `woke w` a call of
-- `wake` on the join handle's waker, `deallocate` a call of the vtable's function of that name.
-- `frees_inside` is the drop of a `Box` made of the address of the field `output`, by the `poll` of
-- mod.rs: a free of an address inside the header, which is undefined.
pub data Event (W : Type 0) : Type 0 where
  schedule : Event W
  woke : W → Event W
  deallocate : Event W
  frees_inside : Event W
  out_of_fuel : Event W

-- `scheduler` says whether the pointer of that name is set. `events` is the log, oldest first.
pub record Header (F T W : Type 0) : Type 0 where
  pub state : ℕ
  pub scheduler : Bool
  pub future : F
  pub output : Cell T
  pub join_waker : Option W
  pub events : List (Event W)

module _ {F T W : Type 0} where
  unfoldable pub emit : Event W → Header F T W → Header F T W
  emit e h = record h { events = h.events ++ e ∷ [] }

  -- `state.fetch_add(1 << REFCOUNT_SHIFT)`: `clone_waker`, and `ManualWaker::new`.
  unfoldable pub clone_waker : Header F T W → Header F T W
  clone_waker h = record h { state = usize (h.state + shl 1 refcount_shift) }

  -- `state.fetch_sub(1 << REFCOUNT_SHIFT)`
  unfoldable pub release : Header F T W → Header F T W
  release h = record h { state = usize (h.state + 2 ^ 64 - shl 1 refcount_shift) }

  -- `drop_waker`, the same in raw.rs and in waker.rs, and `ManualWaker::drop`.
  unfoldable pub drop_waker : Header F T W → Header F T W
  unfolding emit release
  drop_waker h =
      let prev = from_bits h.state in
      if refcount prev == 1 && is_complete prev then emit deallocate (release h) else release h

  -- `join_waker.take()`, and the call of `wake` on what was there.
  unfoldable pub wake_join : Header F T W → Header F T W
  unfolding emit
  wake_join h = elim h.join_waker [
    | some w ↦ emit (woke w) (record h { join_waker = none })
    | none ↦ h
  ]

  unfoldable pub set_join_waker : Header F T W → W → Header F T W × Bool
  set_join_waker h w = (
    record h { state = bit_or h.state join_interest.bits; join_waker = some w },
    not (bit_and h.state complete.bits == 0),
  )

  -- `ptr::read` copies the bytes and leaves them; `pointer` is a read of bytes that are no `T`.
  unfoldable pub try_read_output : Header F T W → Option (Cell T)
  try_read_output h =
      if bit_and h.state complete.bits == 0
      then none
      else if not (bit_and h.state aborted.bits == 0)
      then none
      else some h.output

  unfoldable pub abort_task : Header F T W → Header F T W
  unfolding wake_join
  abort_task h =
      let h' = record h { state = bit_or h.state aborted.bits } in
      if not (bit_and h'.state join_interest.bits == 0) then wake_join h' else h'
