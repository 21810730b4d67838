-- ===== src/Task/Raw/Count.antt =====
-- The count of wakers in bits 16 to 31 of the word, and what a poll does to it.
use loony_rs_runtime.Base.{ℕ, suc, ◌+◌, ◌/◌, ◌%◌, ◌^◌, ◌<◌, ◌≡◌, refl, arith, true, List, [], ◌∷◌}
use loony_rs_runtime.Bits.{bit_or_three}
use loony_rs_runtime.Task.State.{from_bits, refcount, with_refcount}
use loony_rs_runtime.Task.State.Fields.{refcount_lem}
use loony_rs_runtime.Task.Header.{
  Poll, ready, pending, Polled, WakerCall, clone, wake, wake_by_ref, drop, Header, release,
  clone_waker, drop_waker, wake_join,
}
use loony_rs_runtime.Task.Wake
use loony_rs_runtime.Task.Wake.Arithmetic.{attempt_lem}
use loony_rs_runtime.Task.Raw.{call, calls, finish, poll, create_raw_task}

abbrev pub clones : List WakerCall → ℕ
clones [] = 0
clones (clone ∷ cs) = suc (clones cs)
clones (wake ∷ cs) = clones cs
clones (wake_by_ref ∷ cs) = clones cs
clones (drop ∷ cs) = clones cs

abbrev pub drops : List WakerCall → ℕ
drops [] = 0
drops (clone ∷ cs) = drops cs
drops (wake ∷ cs) = drops cs
drops (wake_by_ref ∷ cs) = drops cs
drops (drop ∷ cs) = suc (drops cs)

cons_counts :
    (c : WakerCall) (cs : List WakerCall)
    → (clones (c ∷ cs) ≡ clones (c ∷ []) + clones cs) × (drops (c ∷ cs) ≡ drops (c ∷ []) + drops cs)
cons_counts clone cs = omega arith
cons_counts wake cs = omega arith
cons_counts wake_by_ref cs = omega arith
cons_counts drop cs = omega arith

module _ {F T W : Type 0} where
  -- From `g` to `h` the word lost so many references and gained so many.
  pub record Delta (lost gained : ℕ) (g h : Header F T W) : Type 0 where
    pub fits : h.state < 2 ^ 64
    pub on : h.scheduler ≡ true
    pub count : (h.state / 2 ^ 16 + lost) % 2 ^ 48 ≡ (g.state / 2 ^ 16 + gained) % 2 ^ 48

  -- A header that a step may start from.
  pub record Live (h : Header F T W) : Type 0 where
    pub fits : h.state < 2 ^ 64
    pub on : h.scheduler ≡ true

  pub live : {a b : ℕ} {g h : Header F T W} → Delta a b g h → Live h
  live d = record { fits = d.fits; on = d.on }

  clone_waker-Delta : {h : Header F T W} → Live h → Delta 0 1 h (clone_waker h)
  unfolding clone_waker
  clone_waker-Delta v = ground arith

  release-Delta : {h : Header F T W} → Live h → Delta 1 0 h (release h)
  unfolding release
  release-Delta v = ground arith

  drop_waker-Delta : {h : Header F T W} → Live h → Delta 1 0 h (drop_waker h)
  unfolding drop_waker
  drop_waker-Delta v = ground arith

  wake_join-Delta : {h : Header F T W} → Live h → Delta 0 0 h (wake_join h)
  unfolding wake_join
  wake_join-Delta v = ground arith

  pub finish-Delta : {h : Header F T W} (r : Poll T) → Live h → Delta 1 0 h (finish h r)
  unfolding finish
  finish-Delta pending v = release-Delta v
  finish-Delta {h} (ready t) v = ground (arith, bit_or_three h.state)

  module _ (run : Header F T W → Header F T W) where
    wake_by_ref-Delta : {h : Header F T W} → Live h → Delta 0 0 h (Wake.wake_by_ref run h)
    unfolding Wake.wake_by_ref
    wake_by_ref-Delta {h} v = ground (arith, attempt_lem h.state)

    call-Delta :
        (c : WakerCall) {h : Header F T W}
        → Live h
        → Delta (drops (c ∷ [])) (clones (c ∷ [])) h (call run c h)
    unfolding call
    call-Delta clone v = clone_waker-Delta v
    call-Delta wake v = wake_by_ref-Delta v
    call-Delta wake_by_ref v = wake_by_ref-Delta v
    call-Delta drop v = drop_waker-Delta v

    pub calls-Delta :
        (cs : List WakerCall) {h : Header F T W}
        → Live h
        → Delta (drops cs) (clones cs) h (calls run cs h)
    unfolding calls
    calls-Delta [] v = ground arith
    calls-Delta (c ∷ cs) v =
        let first = call-Delta c v in
        let rest = calls-Delta cs (live first) in
        record {
          fits = rest.fits;
          on = rest.on;
          count = omega (arith, first.count, rest.count, cons_counts c cs);
        }

  module _ (poll_future : F → Polled F T) where
    poll-Delta :
        (fuel : ℕ) (h : Header F T W)
        → Live h
        → let cs = (poll_future h.future).calls in
          Delta (drops cs + 2) (clones cs) h (poll poll_future (suc fuel) h)
    unfolding poll
    poll-Delta fuel h v =
        let p = poll_future h.future in
        let g = record h { future = p.next } in
        let called =
          calls-Delta (poll poll_future fuel) p.calls {h = g}
            (record { fits = v.fits; on = v.on }) in
        let finished = finish-Delta p.result (live called) in
        let dropped = drop_waker-Delta (live finished) in
        record {
          fits = dropped.fits;
          on = dropped.on;
          count = omega (arith, called.count, finished.count, dropped.count);
        }

    -- A poll takes two references from the count, beside those that the future itself clones and
    -- drops: one at the end of the match, one when the waker that it made goes out of scope.
    pub poll-refcount :
        (fuel : ℕ) (h : Header F T W)
        → h.state < 2 ^ 64
        → h.scheduler ≡ true
        → let cs = (poll_future h.future).calls in
          (refcount (from_bits (poll poll_future (suc fuel) h).state) + drops cs + 2) % 2 ^ 16
          ≡ (refcount (from_bits h.state) + clones cs) % 2 ^ 16
    poll-refcount fuel h fits on = omega (
      arith,
      (poll-Delta fuel h (record { fits = fits; on = on })).count,
      (poll-Delta fuel h (record { fits = fits; on = on })).fits,
      refcount_lem (from_bits (poll poll_future (suc fuel) h).state),
      refcount_lem (from_bits h.state),
    )

module _ {F T : Type 0} (W : Type 0) (poll_future : F → Polled F T) where
  -- So a new task, which counts one reference, is left with a count below zero by its first poll,
  -- which wraps to 0xffff, if the future keeps no clone of its waker.
  pub first_poll_underflows :
      (fuel : ℕ) (f : F)
      → clones (poll_future f).calls ≡ drops (poll_future f).calls
      → refcount (from_bits (poll poll_future (suc fuel) (create_raw_task {W = W} f)).state)
        ≡ 0xffff
  unfolding create_raw_task with_refcount
  first_poll_underflows fuel f even =
      let h : Header F T W = create_raw_task f in
      omega (
        arith,
        poll-refcount poll_future fuel h (omega arith) refl,
        refcount_lem (from_bits h.state),
        refcount_lem (from_bits (poll poll_future (suc fuel) h).state),
        even,
      )
