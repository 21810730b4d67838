-- ===== src/Task/Waker.antt =====
-- The other wakers of src/task/waker.rs: `ManualWaker` and `CallbackWaker`.
pub mod Manual
pub mod Callback
pub mod Tables
use loony_rs_runtime.Base.{
  ℕ, ◌+◌, ◌-◌, ◌==◌, Bool, true, false, if◌then◌else◌, Option, none, some, List, [], ◌∷◌,
}
use loony_rs_runtime.Task.Header.{Header, clone_waker, drop_waker}

module _ {F T W : Type 0} where
  -- `ManualWaker::new`; the header of a `ManualWaker` that is alive is always there.
  unfoldable pub manual_new : Header F T W → Header F T W
  unfolding clone_waker
  manual_new h = clone_waker h

  -- `Drop for ManualWaker`
  unfoldable pub manual_drop : Header F T W → Header F T W
  unfolding drop_waker
  manual_drop h = drop_waker h

  -- `ManualWaker::into_waker`: `waker_from_task` counts nothing, and the `ManualWaker` is dropped.
  unfoldable pub into_waker : Header F T W → Header F T W
  unfolding manual_drop
  into_waker h = manual_drop h

-- The boxes that wakers point to, with a `CallbackWaker` in each, those of the callbacks, and how often
-- the callbacks were called. A `CallbackWaker` that is made has a callback.
pub record Boxes : Type 0 where
  pub live : ℕ
  pub callbacks : ℕ
  pub calls : ℕ

-- `CallbackWaker::new`, and `Clone for CallbackWaker`, which clones the box of the callback.
unfoldable pub callback_new : Boxes → Boxes
callback_new b = record b { callbacks = b.callbacks + 1 }

unfoldable pub callback_copy : Boxes → Boxes
callback_copy b = record b { callbacks = b.callbacks + 1 }

-- The drop of a `CallbackWaker` that was not turned into a waker.
unfoldable pub callback_discard : Boxes → Boxes
callback_discard b = record b { callbacks = b.callbacks - 1 }

-- `CallbackWaker::into_waker`, and the functions of its vtable.
unfoldable pub callback_waker : Boxes → Boxes
callback_waker b = record b { live = b.live + 1 }

unfoldable pub callback_clone : Boxes → Boxes
callback_clone b = record b { live = b.live + 1; callbacks = b.callbacks + 1 }

unfoldable pub callback_wake : Boxes → Boxes
callback_wake b = record b { calls = b.calls + 1 }

unfoldable pub callback_wake_by_ref : Boxes → Boxes
unfolding callback_wake
callback_wake_by_ref b = callback_wake b

unfoldable pub callback_drop : Boxes → Boxes
callback_drop b = record b { live = b.live - 1; callbacks = b.callbacks - 1 }

-- What safe code does with `CallbackWaker`s and with the wakers that it turns them into.
pub data Op : Type 0 where
  news copies discards turns clones wakes wakes_by_ref drops : Op

-- How many are alive of the ones and of the others.
pub record Alive : Type 0 where
  pub values : ℕ
  pub wakers : ℕ

-- `none` is the use of one where there is none.
unfoldable pub act : Op → Alive × Boxes → Option (Alive × Boxes)
unfolding callback_new callback_copy callback_discard callback_waker callback_clone callback_wake
    callback_wake_by_ref callback_drop
act news (a, b) = some (record a { values = a.values + 1 }, callback_new b)
act copies (a, b) =
    if a.values == 0 then none else some (record a { values = a.values + 1 }, callback_copy b)
act discards (a, b) =
    if a.values == 0 then none else some (record a { values = a.values - 1 }, callback_discard b)
act turns (a, b) =
    if a.values == 0
    then none
    else some (record { values = a.values - 1; wakers = a.wakers + 1 }, callback_waker b)
act clones (a, b) =
    if a.wakers == 0 then none else some (record a { wakers = a.wakers + 1 }, callback_clone b)
act wakes (a, b) =
    if a.wakers == 0 then none else some (record a { wakers = a.wakers - 1 }, callback_wake b)
act wakes_by_ref (a, b) = if a.wakers == 0 then none else some (a, callback_wake_by_ref b)
act drops (a, b) =
    if a.wakers == 0 then none else some (record a { wakers = a.wakers - 1 }, callback_drop b)

unfoldable pub acts : List Op → Alive × Boxes → Option (Alive × Boxes)
unfolding act
acts [] s = some s
acts (o ∷ os) s = elim (act o s) [ none ↦ none | some s' ↦ acts os s' ]
