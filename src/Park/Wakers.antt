-- ===== src/Park/Wakers.antt =====
-- The wakers of the parkers in src/runtime/park.rs, and that of `ThreadParker` in
-- src/runtime/scheduler/current_thread.rs. All four hold a raw pointer to the parker's inner state,
-- which is in an `Arc`, and have the same four functions but for the `unpark` that they call.
pub mod Counts
use loony_rs_runtime.Base.{
  ℕ, ◌+◌, ◌-◌, ◌==◌, Bool, true, false, if◌then◌else◌, Option, none, some, List, [], ◌∷◌,
}
use loony_rs_runtime.Park.ThreadPark.{notified}
use loony_rs_runtime.Park.YieldPark
use loony_rs_runtime.Park.YieldPark.{YieldPark}

-- What an `Arc` points to: the strong count, and the value. The value is freed when the count gets 0.
pub record ArcInner (S : Type 0) : Type 0 where
  pub strong : ℕ
  pub value : S

module _ {S : Type 0} where
  -- `Arc::clone`, and the drop of an `Arc`. `Arc::into_raw`, `Arc::from_raw` and `mem::forget`
  -- change nothing.
  unfoldable pub cloned : ArcInner S → ArcInner S
  cloned a = record a { strong = a.strong + 1 }

  unfoldable pub dropped : ArcInner S → ArcInner S
  dropped a = record a { strong = a.strong - 1 }

-- What safe code does with a parker and its wakers.
pub data Op : Type 0 where
  makes clones wakes wakes_by_ref drops drops_parker : Op

-- The values that are alive: the parker, and so many wakers.
pub record Owners : Type 0 where
  pub parker : Bool
  pub wakers : ℕ

module _ {S : Type 0} (unpark : S → S) where
  -- `clone` and `clone.clone()`, neither of which is dropped.
  unfoldable pub waker_clone : ArcInner S → ArcInner S
  unfolding cloned
  waker_clone a = cloned (cloned a)

  -- The parker that is made of the pointer is dropped after the call.
  unfoldable pub waker_wake : ArcInner S → ArcInner S
  unfolding dropped
  waker_wake a = dropped (record a { value = unpark a.value })

  unfoldable pub waker_wake_by_ref : ArcInner S → ArcInner S
  unfolding cloned dropped
  waker_wake_by_ref a =
      let parker = cloned a in dropped (record parker { value = unpark parker.value })

  unfoldable pub waker_drop : ArcInner S → ArcInner S
  unfolding dropped
  waker_drop a = dropped a

  -- `waker` and `into_waker` of a parker.
  unfoldable pub waker : ArcInner S → ArcInner S
  unfolding cloned
  waker a = cloned a

  -- `none` is what the ownership rules forbid: the use of a value that is not alive.
  unfoldable pub act : Op → Owners × ArcInner S → Option (Owners × ArcInner S)
  unfolding waker waker_clone waker_wake waker_wake_by_ref waker_drop
  act makes (o, a) = if o.parker then some (record o { wakers = o.wakers + 1 }, waker a) else none
  act clones (o, a) =
      if o.wakers == 0 then none else some (record o { wakers = o.wakers + 1 }, waker_clone a)
  act wakes (o, a) =
      if o.wakers == 0 then none else some (record o { wakers = o.wakers - 1 }, waker_wake a)
  act wakes_by_ref (o, a) = if o.wakers == 0 then none else some (o, waker_wake_by_ref a)
  act drops (o, a) =
      if o.wakers == 0 then none else some (record o { wakers = o.wakers - 1 }, waker_drop a)
  act drops_parker (o, a) = if o.parker then some (record o { parker = false }, dropped a) else none

  unfoldable pub acts : List Op → Owners × ArcInner S → Option (Owners × ArcInner S)
  unfolding act
  acts [] s = some s
  acts (o ∷ os) s = elim (act o s) [ none ↦ none | some s' ↦ acts os s' ]

-- A vtable by its functions.
pub record RawWakerVtable (S : Type 0) : Type 0 where
  pub clone : ArcInner S → ArcInner S
  pub wake : ArcInner S → ArcInner S
  pub wake_by_ref : ArcInner S → ArcInner S
  pub drop : ArcInner S → ArcInner S

unfoldable pub vtable : {S : Type 0} → (S → S) → RawWakerVtable S
unfolding waker_clone waker_wake waker_wake_by_ref waker_drop
vtable unpark = record {
  clone = waker_clone unpark;
  wake = waker_wake unpark;
  wake_by_ref = waker_wake_by_ref unpark;
  drop = waker_drop unpark;
}

-- `ThreadPark::unpark` as far as it is about the word, and the waker of `ThreadPark`.
unfoldable pub thread_waker : RawWakerVtable ℕ
unfolding vtable
thread_waker = vtable (λ state. notified)

unfoldable pub sleep_waker : RawWakerVtable Bool
unfolding vtable
sleep_waker = vtable (λ state. true)

unfoldable pub yield_waker : RawWakerVtable YieldPark
unfolding vtable
yield_waker = vtable YieldPark.unpark

-- `ThreadParker::waker` of the current-thread scheduler.
unfoldable pub parker_waker : RawWakerVtable ℕ
unfolding vtable
parker_waker = vtable (λ state. notified)
