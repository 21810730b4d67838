-- ===== src/Task/Waker/Manual.antt =====
-- `ManualWaker::into_waker` and the count of wakers.
use loony_rs_runtime.Base.{◌+◌, ◌%◌, ◌^◌, ◌<◌, ◌≡◌, ap, ◌∙◌, arith, true, [], ◌∷◌, ◌++◌}
use loony_rs_runtime.Task.State.{from_bits, refcount, is_complete}
use loony_rs_runtime.Task.State.Fields.{refcount_lem}
use loony_rs_runtime.Task.Header.{Header, deallocate, drop_waker, release, emit}
use loony_rs_runtime.Task.Waker.{manual_new, into_waker}

module _ {F T W : Type 0} where
  -- The waker that comes out has no share in the count.
  into_waker-new :
      (h : Header F T W)
      → h.state < 2 ^ 32
      → refcount (from_bits h.state) ≡ 1
      → into_waker (manual_new h) ≡ h
  unfolding manual_new into_waker
  into_waker-new h fits one = ground (
    arith,
    refcount_lem (from_bits ((h.state + 65536) % 2 ^ 64)),
    refcount_lem (from_bits h.state),
  )

  drop_last :
      (h : Header F T W)
      → is_complete (from_bits h.state) ≡ true
      → refcount (from_bits h.state) ≡ 1
      → drop_waker h ≡ emit deallocate (release h)
  unfolding drop_waker
  drop_last h complete one = ground arith

  -- A waker that a `ManualWaker` was turned into takes away the share of another: on a complete task
  -- with one waker it frees the task when it is dropped, while that one is alive.
  pub into_waker_frees :
      (h : Header F T W)
      → h.state < 2 ^ 32
      → is_complete (from_bits h.state) ≡ true
      → refcount (from_bits h.state) ≡ 1
      → (drop_waker (into_waker (manual_new h))).events ≡ h.events ++ deallocate ∷ []
  unfolding emit release
  into_waker_frees h fits complete one =
      ap (λ (g : Header F T W). (drop_waker g).events) (into_waker-new h fits one)
      ∙ ap (λ (g : Header F T W). g.events) (drop_last h complete one)
