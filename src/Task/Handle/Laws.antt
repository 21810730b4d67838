-- ===== src/Task/Handle/Laws.antt =====
-- What the join handle of src/task/mod.rs answers.
use loony_rs_runtime.Base.{
  ℕ, suc, ◌++◌, ◌∷◌, ◌/◌, ◌%◌, ◌==◌, ◌≡◌, arith, Option, some, [], if◌then◌else◌,
}
use loony_rs_runtime.Bits.{bit_or_one, bit_or_four, bit_and_four, bit_and_ones}
use loony_rs_runtime.Task.Header.{
  ready, pending, value, Header, Polled, drop_waker, frees_inside, emit,
}
use loony_rs_runtime.Task.Raw.{calls}
use loony_rs_runtime.Task.Wake
use loony_rs_runtime.Task.Wake.Arithmetic.{attempt_lem}
use loony_rs_runtime.Task.Handle.{
  ok, aborted, panicked, garbage, take_output, poll, poll_task, finish_task, abort, create_task,
}

module _ {F T W : Type 0} where
  -- The handle reads the output exactly if bit 0 of the word is set.
  pub reads_bit_zero :
      (w : W) (h : Header F (Option T) W)
      → poll w h ≡ (
          if h.state % 2 == 1
          then (
            ready (take_output h.output).0,
            emit frees_inside (record h { output = (take_output h.output).1 }),
          )
          else if h.state / 4 % 2 == 1
          then (ready aborted, h)
          else (pending, record h { join_waker = some w }))
  unfolding poll
  reads_bit_zero w h = ground (arith, bit_and_ones 1 h.state, bit_and_four h.state)

  -- Every poll that hands an output over frees an address inside the header.
  pub answer_frees :
      (w : W) (t : T) (h : Header F (Option T) W)
      → (poll w h).0 ≡ ready (ok t)
      → (poll w h).1.events ≡ h.events ++ frees_inside ∷ []
  unfolding emit
  answer_frees w t h e = ground (arith, reads_bit_zero w h)

  -- A second poll after an answer panics.
  pub second_poll_panics :
      (w : W) (t : T) (h : Header F (Option T) W)
      → (poll w h).0 ≡ ready (ok t)
      → (poll w (poll w h).1).0 ≡ ready panicked
  unfolding emit
  second_poll_panics w t h e = ground (arith, reads_bit_zero w h, reads_bit_zero w (poll w h).1)

  -- After `abort`, a task whose bit 0 is clear is reported as aborted.
  pub abort_reported :
      (w : W) (h : Header F (Option T) W)
      → h.state % 2 ≡ 0
      → poll w (abort h) ≡ (ready aborted, abort h)
  unfolding abort
  abort_reported w h e = ground (arith, reads_bit_zero w (abort h), bit_or_four h.state)

module _ {F T W : Type 0} (poll_future : F → Polled F T) where
  finish_done :
      (t : T) (h : Header F (Option T) W)
      → let g = drop_waker (finish_task h (ready t)) in
        (g.output ≡ value (some t)) × (g.state % 2 ≡ 1)
  unfolding drop_waker finish_task
  finish_done t h = ground (arith, bit_or_one h.state)

  -- A task whose future is ready hands its output to the handle.
  pub run_then_poll :
      (fuel : ℕ) (w : W) (t : T) (h : Header F (Option T) W)
      → (poll_future h.future).result ≡ ready t
      → (poll w (poll_task poll_future (suc fuel) h)).0 ≡ ready (ok t)
  unfolding poll_task
  run_then_poll fuel w t h r =
      let p = poll_future h.future in
      let g = calls (poll_task poll_future fuel) p.calls (record h { future = p.next }) in
      rw r
        (ground (arith, finish_done t g, reads_bit_zero w (drop_waker (finish_task g (ready t)))))

  waits_lem :
      (fuel : ℕ) (h : Header F (Option T) W)
      → (poll_future h.future).calls ≡ []
      → (poll_future h.future).result ≡ pending
      → let g = poll_task poll_future (suc fuel) h in
        (g.output ≡ h.output) × (g.state % 2 ≡ h.state % 2)
  unfolding poll_task finish_task drop_waker calls
  waits_lem fuel h quiet waits = rw (quiet, waits) (ground arith)

  -- The waker marks a task as scheduled in bit 0, the bit that the handle takes for completion: once
  -- a pending task was woken, its handle reads an output that nobody wrote.
  pub woken_then_garbage :
      (fuel : ℕ) (w : W) (f : F)
      → (poll_future f).calls ≡ []
      → (poll_future f).result ≡ pending
      → (poll w (Wake.wake_by_ref (poll_task {W = W} poll_future (suc fuel)) (create_task f))).0
        ≡ ready garbage
  unfolding create_task Wake.wake_by_ref
  woken_then_garbage fuel w f quiet waits =
      let h : Header F (Option T) W = record (create_task f) { state = 1 } in
      ground (
        arith,
        attempt_lem 0,
        waits_lem fuel h quiet waits,
        reads_bit_zero w (poll_task poll_future (suc fuel) h),
      )
