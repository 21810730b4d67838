-- ===== src/Task/Wake/Laws.antt =====
-- The two versions of the loop agree, and waking a task again changes nothing.
use loony_rs_runtime.Base.{
  ℕ, zero, suc, ◌+◌, ◌/◌, ◌%◌, ◌^◌, ◌<◌, ◌==◌, ◌≡◌, arith, true, false, ◌&&◌, ◌⊎◌, inl, inr,
  Bool-cases, [], ◌∷◌, ◌++◌,
}
use loony_rs_runtime.Task.Header.{Header, schedule}
use loony_rs_runtime.Task.Wake.{wake_by_ref, wake_weak}
use loony_rs_runtime.Task.Wake.Arithmetic.{attempt_lem, attempt_idle_lem}

module _ {F T W : Type 0} (run : Header F T W → Header F T W) where
  -- However often the weak exchange fails, waker.rs does to a task what raw.rs does.
  pub wake_weak-eq-wake_by_ref :
      (failures : ℕ) (h : Header F T W)
      → h.state < 2 ^ 64
      → wake_weak run failures h ≡ wake_by_ref run h
  unfolding wake_weak wake_by_ref
  wake_weak-eq-wake_by_ref zero h fits =
      ground (arith, attempt_lem h.state, attempt_idle_lem h.state fits)
  wake_weak-eq-wake_by_ref (suc n) h fits =
      ground (
        arith,
        attempt_lem h.state,
        attempt_idle_lem h.state fits,
        wake_weak-eq-wake_by_ref n h fits,
      )

  -- A wake hands the task to its scheduler exactly if the task is idle and not aborted.
  pub wake_by_ref_lem :
      (h : Header F T W)
      → h.scheduler ≡ true
      → ((h.state % 4 ≡ 0)
          × (h.state / 4 % 2 ≡ 0)
          × (wake_by_ref run h
              ≡ record h { state = h.state + 1; events = h.events ++ schedule ∷ [] }))
        ⊎ (((h.state % 4 == 0 && h.state / 4 % 2 == 0) ≡ false) × (wake_by_ref run h ≡ h))
  unfolding wake_by_ref
  wake_by_ref_lem h on = elim (Bool-cases (h.state % 4 == 0 && h.state / 4 % 2 == 0)) [
    | inl yes' ↦ inl (ground arith, ground arith, ground (arith, attempt_lem h.state))
    | inr no' ↦ inr (no', ground (arith, attempt_lem h.state))
  ]

  -- Further wakes of a task that was just woken are absorbed.
  pub wake_by_ref_idempotent :
      (h : Header F T W)
      → h.scheduler ≡ true
      → wake_by_ref run (wake_by_ref run h) ≡ wake_by_ref run h
  unfolding wake_by_ref
  wake_by_ref_idempotent h on = ground (arith, attempt_lem h.state, attempt_lem (h.state + 1))
