-- ===== src/MultiThread/Shared/Notify.antt =====
-- Whom a notification reaches.
use loony_rs_runtime.Base.{
  ℕ, zero, suc, ◌%◌, ◌≡◌, refl, arith, Option, none, some, List, [], ◌∷◌, length, get_elem?, All,
}
use loony_rs_runtime.MultiThread.Shared.{
  Shared, unpark, unpark_all, notify_worker, notify_all_workers, notify_first, shutdown_workers,
}

-- No thread is registered with any unparker.
abbrev pub Unset : List (Option ℕ) → Type 0
Unset us = All (λ u. u ≡ none) us

get-Unset :
    (us : List (Option ℕ)) (i : ℕ) (u : Option ℕ) → Unset us → get_elem? us i ≡ some u → u ≡ none
get-Unset [] i u h e = absurd (cc)
get-Unset (v ∷ vs) zero u h e = ground (arith, h.0)
get-Unset (v ∷ vs) (suc i) u h e = get-Unset vs i u h.1 e

unpark-none : (u : Option ℕ) (log : List ℕ) → u ≡ none → unpark u log ≡ log
unfolding unpark
unpark-none u log e = rw e refl

picked :
    (o : Option (Option ℕ)) (log : List ℕ)
    → ((u : Option ℕ) → o ≡ some u → u ≡ none)
    → elim o [ none ↦ log | some u ↦ unpark u log ] ≡ log
picked none log h = refl
picked (some u) log h = unpark-none u log (h u refl)

unpark_all-Unset : (us : List (Option ℕ)) (log : List ℕ) → Unset us → unpark_all us log ≡ log
unfolding unpark_all
unpark_all-Unset [] log h = refl
unpark_all-Unset (u ∷ us) log h = rw (unpark-none u log h.0) (unpark_all-Unset us log h.1)

module _ {Queue : Type 0} where
  notify_worker-Unset :
      (s : Shared Queue) → Unset s.unparkers → (notify_worker s).unparked ≡ s.unparked
  unfolding notify_worker
  notify_worker-Unset s h = chosen s.unparkers h
    where
      chosen :
          (us : List (Option ℕ))
          → Unset us
          → (notify_worker (record s { unparkers = us })).unparked ≡ s.unparked
      chosen [] k = refl
      chosen (u ∷ us) k =
          let i = s.last_notified % length (u ∷ us) in
          picked (get_elem? (u ∷ us) i) s.unparked (λ v e. get-Unset (u ∷ us) i v k e)

  notify_first-Unset :
      (s : Shared Queue) → Unset s.unparkers → (notify_first s).unparked ≡ s.unparked
  unfolding notify_first
  notify_first-Unset s h = chosen s.unparkers h
    where
      chosen :
          (us : List (Option ℕ))
          → Unset us
          → (notify_first (record s { unparkers = us })).unparked ≡ s.unparked
      chosen [] k = refl
      chosen (u ∷ us) k = unpark-none u s.unparked k.0

  -- While no worker has registered its thread with its unparker, no notification unparks a thread:
  -- it comes down to the condition variable.
  pub notifications_unpark_nobody :
      (s : Shared Queue)
      → Unset s.unparkers
      → ((notify_worker s).unparked ≡ s.unparked)
        × ((notify_all_workers s).unparked ≡ s.unparked)
        × ((notify_first s).unparked ≡ s.unparked)
        × ((shutdown_workers s).unparked ≡ s.unparked)
  unfolding notify_all_workers shutdown_workers
  notifications_unpark_nobody s h = (
    notify_worker-Unset s h,
    unpark_all-Unset s.unparkers s.unparked h,
    notify_first-Unset s h,
    unpark_all-Unset s.unparkers s.unparked h,
  )

-- A notification leaves the queues and the shutdown flag.
pub notify_worker-keeps :
    {Queue : Type 0} (s : Shared Queue)
    → ((notify_worker s).injector ≡ s.injector)
      × ((notify_worker s).stealers ≡ s.stealers)
      × ((notify_worker s).shutdown ≡ s.shutdown)
unfolding notify_worker
notify_worker-keeps {Queue} s = go s.unparkers
  where
    go :
        (us : List (Option ℕ))
        → let t : Shared Queue = record s { unparkers = us } in
          ((notify_worker t).injector ≡ s.injector)
          × ((notify_worker t).stealers ≡ s.stealers)
          × ((notify_worker t).shutdown ≡ s.shutdown)
    go [] = (refl, refl, refl)
    go (u ∷ us) = (refl, refl, refl)
