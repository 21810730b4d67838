-- ===== src/Tests/Wakers.antt =====
-- The waker of a blocking loop at concrete inputs.
use loony_rs_runtime.Base.{ℕ, ◌≡◌, ◌-◌, ◌+◌, refl, none, some, [], ◌∷◌, true, false}
use loony_rs_runtime.Park.Wakers.{ArcInner, Owners}
use loony_rs_runtime.Handle.BlockOn.{BlockOnState}
use loony_rs_runtime.Handle.Wakers.{
  clones, wakes, taken, gone, act, acts, handle_waker, handle_start, handle_waker_counts,
}

abbrev state : BlockOnState ℕ ℕ
state = record { future = 3; waker = none; completed = false; locked = false; woken = [] }

-- Two clones are woken by value, and the loop still runs.
freed :
    (o : Owners) × (a : ArcInner (BlockOnState ℕ ℕ)) × (acts handle_waker
        (clones ∷ clones ∷ wakes ∷ wakes ∷ [])
        (handle_start state)
      ≡ some (o, a))
    × (o.parker ≡ true)
unfolding acts act handle_start handle_waker
freed = (_, _, refl, refl)

handle_waker_counts_example :
    freed.1.strong ≡ 2 - (taken 1 (clones ∷ clones ∷ wakes ∷ wakes ∷ []) + gone freed.0)
handle_waker_counts_example =
    handle_waker_counts (clones ∷ clones ∷ wakes ∷ wakes ∷ []) state freed.0 freed.1 freed.2
