-- ===== src/Task/Raw/Freed.antt =====
-- When the last waker of a task is taken to be dropped, and the task deallocated.
use loony_rs_runtime.Base.{
  ℕ, zero, suc, ◌+◌, ◌/◌, ◌%◌, ◌^◌, ◌<◌, ◌==◌, ◌≡◌, ◌≢◌, refl, ap, bit_and, bit_or, Bool-cases,
  Option-cases, inl, inr, ◌∙◌, arith, true, List, [], ◌∷◌, ◌++◌, if◌then◌else◌,
}
use loony_rs_runtime.Bits.{bit_or_three}
use loony_rs_runtime.Task.State.{complete, join_interest, from_bits, with_refcount}
use loony_rs_runtime.Task.State.Fields.{refcount_lem, is_complete_lem}
use loony_rs_runtime.Task.Header.{
  ready, Polled, value, WakerCall, clone, wake, wake_by_ref, drop, Header, Event, schedule, woke,
  deallocate, frees_inside, out_of_fuel, release, clone_waker, drop_waker, wake_join,
}
use loony_rs_runtime.Task.Wake
use loony_rs_runtime.Task.Wake.Arithmetic.{attempt_lem}
use loony_rs_runtime.Task.Raw.{call, calls, finish, poll, create_raw_task}
use loony_rs_runtime.Task.Raw.Count.{clones, drops, Live, live, finish-Delta, calls-Delta}

abbrev pub deallocations : {W : Type 0} → List (Event W) → ℕ
deallocations [] = 0
deallocations (schedule ∷ es) = deallocations es
deallocations (woke w ∷ es) = deallocations es
deallocations (deallocate ∷ es) = suc (deallocations es)
deallocations (frees_inside ∷ es) = deallocations es
deallocations (out_of_fuel ∷ es) = deallocations es

deallocations-append :
    {W : Type 0} (es fs : List (Event W))
    → deallocations (es ++ fs) ≡ deallocations es + deallocations fs
deallocations-append [] fs = omega arith
deallocations-append (schedule ∷ es) fs = deallocations-append es fs
deallocations-append (woke w ∷ es) fs = deallocations-append es fs
deallocations-append (deallocate ∷ es) fs = omega (arith, deallocations-append es fs)
deallocations-append (frees_inside ∷ es) fs = deallocations-append es fs
deallocations-append (out_of_fuel ∷ es) fs = deallocations-append es fs

module _ {F T W : Type 0} where
  -- So many wakers are dropped.
  unfoldable pub drop_wakers : ℕ → Header F T W → Header F T W
  unfolding drop_waker
  drop_wakers zero h = h
  drop_wakers (suc n) h = drop_wakers n (drop_waker h)

  -- Not complete, with a scheduler, and not freed.
  record Early (h : Header F T W) : Type 0 where
    early : h.state % 4 ≢ 3
    on : h.scheduler ≡ true
    kept : deallocations h.events ≡ 0

  module _ (run : Header F T W → Header F T W) where
    call-Early : (c : WakerCall) (h : Header F T W) → Early h → Early (call run c h)
    unfolding call clone_waker drop_waker release Wake.wake_by_ref
    call-Early clone h v = ground arith
    call-Early wake h v =
        ground (arith, attempt_lem h.state, deallocations-append h.events (schedule ∷ []))
    call-Early wake_by_ref h v =
        ground (arith, attempt_lem h.state, deallocations-append h.events (schedule ∷ []))
    call-Early drop h v = ground (arith, is_complete_lem (from_bits h.state))

    calls-Early : (cs : List WakerCall) (h : Header F T W) → Early h → Early (calls run cs h)
    unfolding calls
    calls-Early [] h v = v
    calls-Early (c ∷ cs) h v = calls-Early cs (call run c h) (call-Early c h v)

  wake_join_quiet :
      (h : Header F T W)
      → (deallocations (wake_join h).events ≡ deallocations h.events)
        × ((wake_join h).state ≡ h.state)
  unfolding wake_join
  wake_join_quiet h = elim (Option-cases h.join_waker) [
    | inl q ↦ ground (arith, q)
    | inr (w, q) ↦ ground (arith, q, deallocations-append h.events (woke w ∷ []))
  ]

  -- A ready future completes the task, and frees nothing yet.
  finish_ready :
      (t : T) (h : Header F T W)
      → (deallocations (finish h (ready t)).events ≡ deallocations h.events)
        × ((finish h (ready t)).state % 4 ≡ 3)
  unfolding finish release
  finish_ready t h =
      let quiet =
        wake_join_quiet (record h { output = value t; state = bit_or h.state complete.bits }) in
      elim (Bool-cases (bit_and h.state join_interest.bits == 0)) [
        | inl none_waits ↦ ground (arith, none_waits, bit_or_three h.state)
        | inr waits ↦ ground (arith, waits, quiet, bit_or_three h.state)
      ]

  -- A drop on a complete task frees it if the count is one.
  drop_complete :
      (h : Header F T W)
      → h.state < 2 ^ 64
      → h.state % 4 ≡ 3
      → let h' = drop_waker h in
        (h'.state < 2 ^ 64)
        × (h'.state % 4 ≡ 3)
        × (deallocations h'.events
            ≡ deallocations h.events + (if h.state / 2 ^ 16 % 2 ^ 16 == 1 then 1 else 0))
        × ((h'.state / 2 ^ 16 + 1) % 2 ^ 16 ≡ h.state / 2 ^ 16 % 2 ^ 16)
  unfolding drop_waker release
  drop_complete h fits done = ground (
    arith,
    is_complete_lem (from_bits h.state),
    refcount_lem (from_bits h.state),
    deallocations-append h.events (deallocate ∷ []),
  )

  -- The drop that takes the count from one frees the task, and none before it does.
  drop_all :
      (m : ℕ) (h : Header F T W)
      → h.state < 2 ^ 64
      → h.state % 4 ≡ 3
      → h.state / 2 ^ 16 % 2 ^ 16 ≡ suc m
      → deallocations (drop_wakers (suc m) h).events ≡ suc (deallocations h.events)
  unfolding drop_wakers
  drop_all zero h fits done one = ground (arith, drop_complete h fits done)
  drop_all (suc m) h fits done more =
      let (fits', done', freed, count) = drop_complete h fits done in
      ground
        (arith, freed, more, drop_all m (drop_waker h) fits' done' (omega (arith, count, more)))

  drop_few :
      (j m : ℕ) (h : Header F T W)
      → h.state < 2 ^ 64
      → h.state % 4 ≡ 3
      → h.state / 2 ^ 16 % 2 ^ 16 ≡ m
      → j < m
      → deallocations (drop_wakers j h).events ≡ deallocations h.events
  unfolding drop_wakers
  drop_few zero m h fits done count lt = refl
  drop_few (suc j) zero h fits done count lt = absurd (omega arith)
  drop_few (suc j) (suc m) h fits done more lt =
      let (fits', done', freed, count) = drop_complete h fits done in
      ground (
        arith,
        freed,
        more,
        lt,
        drop_few j m (drop_waker h) fits' done' (omega (arith, count, more)) (omega arith),
      )

module _ {F T : Type 0} (W : Type 0) (poll_future : F → Polled F T) where
  -- A new task whose future is ready at its first poll, in which it makes a number of wakers that it
  -- keeps: the task is deallocated when all of them but one are dropped, so that one that is alive
  -- points to freed memory, and not before.
  pub freed_early :
      (fuel k : ℕ) (f : F) (t : T)
      → (poll_future f).result ≡ ready t
      → clones (poll_future f).calls ≡ drops (poll_future f).calls + suc k
      → suc k < 2 ^ 16
      → let h : Header F T W = poll poll_future (suc fuel) (create_raw_task f) in
        (deallocations (drop_wakers k h).events ≡ 1)
        × ((j : ℕ) → j < k → deallocations (drop_wakers j h).events ≡ 0)
  unfolding poll create_raw_task with_refcount drop_wakers
  freed_early fuel k f t r kept fits =
      let p = poll_future f in
      let fresh : Header F T W = record (create_raw_task f) { future = p.next } in
      let run = poll poll_future fuel in
      let g = calls run p.calls fresh in
      let start : Live fresh = record { fits = omega arith; on = refl } in
      let called = calls-Delta run p.calls {h = fresh} start in
      let ended = finish-Delta {h = g} (ready t) (live called) in
      let early =
        calls-Early run p.calls fresh (record { early = omega arith; on = refl; kept = refl }) in
      let (quiet, done) = finish_ready t g in
      let count : (finish g (ready t)).state / 2 ^ 16 % 2 ^ 16 ≡ suc k =
        omega (arith, called.count, ended.count, ended.fits, kept, fits) in
      rw r (
        drop_all k (finish g (ready t)) ended.fits done count ∙ ap suc (quiet ∙ early.kept),
        λ j lt.
            drop_few (suc j) (suc k) (finish g (ready t)) ended.fits done count (omega arith)
            ∙ quiet
            ∙ early.kept,
      )
