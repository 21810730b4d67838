-- ===== src/Task/Join/Round.antt =====
-- A task from its creation to the answer of its join handle.
use loony_rs_runtime.Base.{ℕ, suc, ◌/◌, ◌%◌, ◌≡◌, refl, arith, true, some, [], ◌∷◌, ◌++◌, bit_or}
use loony_rs_runtime.Bits.{bit_or_eight, bit_or_four}
use loony_rs_runtime.Task.State.{from_bits, with_refcount}
use loony_rs_runtime.Task.State.Fields.{is_complete_lem}
use loony_rs_runtime.Task.Header.{ready, pending, value, Header, Polled}
use loony_rs_runtime.Task.Raw.{create_raw_task}
use loony_rs_runtime.Task.Raw
use loony_rs_runtime.Task.Raw.Polling.{woken, poll_runs_future, completion_wakes}
use loony_rs_runtime.Task.Join.{ok, err, aborted, abort, poll}
use loony_rs_runtime.Task.Join.Laws.{answer, busy}
use loony_rs_runtime.Task.Join.Laws

module _ {F T W : Type 0} (poll_future : F → Polled F T) where
  -- A task whose future is ready at its first poll hands its output to the join handle.
  pub run_then_join :
      (fuel : ℕ) (f : F) (t : T) (w : W)
      → (poll_future f).result ≡ ready t
      → let h = Raw.poll poll_future 1 (create_raw_task f) in
        poll (suc fuel) w h ≡ some (ready (ok (value t)), h)
  unfolding create_raw_task with_refcount
  run_then_join fuel f t w r =
      let fresh : Header F T W = create_raw_task f in
      let h = Raw.poll poll_future 1 fresh in
      let (_, stored, flags) = poll_runs_future poll_future 0 fresh refl in
      let (output, done) = (rw r at stored) in
      ground (
        arith,
        Laws.join_answers fuel w h,
        is_complete_lem (from_bits h.state),
        output,
        done,
        flags,
      )

  -- A join handle that answered `Pending` is woken, once, by the poll that completes the task.
  pub pending_then_woken :
      (fuel : ℕ) (t : T) (w : W) (h : Header F T W)
      → h.scheduler ≡ true
      → h.state % 4 ≡ 0
      → h.state / 4 % 2 ≡ 0
      → (poll_future h.future).result ≡ ready t
      → let g = record h { state = bit_or h.state 8; join_waker = some w } in
        (poll (suc fuel) w h ≡ some (pending, g))
        × (woken (Raw.poll poll_future 1 g).events ≡ woken h.events ++ w ∷ [])
  pending_then_woken fuel t w h on idle clear r =
      let g : Header F T W = record h { state = bit_or h.state 8; join_waker = some w } in
      (
        ground (arith, Laws.join_answers fuel w h),
        completion_wakes poll_future 0 t w g on (omega (arith, bit_or_eight h.state)) refl r,
      )

module _ {F T W : Type 0} where
  abort_state : (h : Header F T W) → (abort h).state ≡ bit_or h.state 4
  unfolding abort
  abort_state h = ground arith

  -- After `abort` the join handle answers `Aborted`, whatever the state of the task was.
  pub join-abort :
      (fuel : ℕ) (w : W) (h : Header F T W)
      → poll (suc fuel) w (abort h) ≡ some (ready (err aborted), abort h)
  join-abort fuel w h =
      ground (arith, Laws.join_answers fuel w (abort h), abort_state h, bit_or_four h.state)
