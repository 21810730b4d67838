-- ===== src/Handle/Wakers.antt =====
-- The memory behind the wakers of the two blocking loops: that of `Handle::block_on_with_worker` in
-- src/runtime/handle.rs, which points to an `Arc`, and that of `BlockOnParker` in
-- src/runtime/scheduler/multi_thread.rs, which points to the frame of `block_on`.
use loony_rs_runtime.Base.{
  ℕ, ◌+◌, ◌-◌, ◌==◌, ◌≤◌, ◌≡◌, refl, arith, Bool, true, false, if◌then◌else◌, inl, inr, Option,
  Option-cases, none, some, List, [], ◌∷◌,
}
use loony_rs_runtime.Task.Header.{wake, wake_by_ref}
use loony_rs_runtime.Park.Wakers.{ArcInner, dropped, Owners, RawWakerVtable}
use loony_rs_runtime.Handle.BlockOn.{BlockOnState, waker_call}

-- What the holders of a waker do, and the end of the call that blocks. `parker` of `Owners` says
-- whether that call still runs.
pub data Op : Type 0 where
  clones wakes wakes_by_ref drops returns : Op

module _ {S : Type 0} (V : RawWakerVtable S) where
  -- `none` is what the ownership rules forbid.
  unfoldable pub act : Op → Owners × ArcInner S → Option (Owners × ArcInner S)
  unfolding dropped
  act clones (o, a) =
      if o.wakers == 0 then none else some (record o { wakers = o.wakers + 1 }, V.clone a)
  act wakes (o, a) =
      if o.wakers == 0 then none else some (record o { wakers = o.wakers - 1 }, V.wake a)
  act wakes_by_ref (o, a) = if o.wakers == 0 then none else some (o, V.wake_by_ref a)
  act drops (o, a) =
      if o.wakers == 0 then none else some (record o { wakers = o.wakers - 1 }, V.drop a)
  act returns (o, a) = if o.parker then some (record o { parker = false }, dropped a) else none

  unfoldable pub acts : List Op → Owners × ArcInner S → Option (Owners × ArcInner S)
  unfolding act
  acts [] s = some s
  acts (o ∷ os) s = elim (act o s) [ none ↦ none | some s' ↦ acts os s' ]

-- `wake` makes an `Arc` of the pointer and drops it; the other functions leave the count alone.
unfoldable pub handle_waker : {F W : Type 0} → RawWakerVtable (BlockOnState F W)
unfolding dropped waker_call
handle_waker = record {
  clone = λ a. a;
  wake = λ a. dropped (record a { value = waker_call wake a.value });
  wake_by_ref = λ a. record a { value = waker_call wake_by_ref a.value };
  drop = λ a. a;
}

-- The `Arc` of the loop, and the one that `into_raw` gave to the waker.
unfoldable pub handle_start :
    {F W : Type 0} → BlockOnState F W → Owners × ArcInner (BlockOnState F W)
handle_start st = (record { parker = true; wakers = 1 }, record { strong = 2; value = st })

-- `BlockOnParker::waker`; the frame counts as one owner of what is in it, and the value is the flag.
unfoldable pub frame_waker : RawWakerVtable Bool
frame_waker = record {
  clone = λ a. a;
  wake = λ a. record a { value = true };
  wake_by_ref = λ a. record a { value = true };
  drop = λ a. a;
}

unfoldable pub frame_start : Owners × ArcInner Bool
frame_start = (record { parker = true; wakers = 1 }, record { strong = 1; value = false })

-- What the calls of `wake` take away if each takes `c`.
abbrev pub taken : ℕ → List Op → ℕ
taken c [] = 0
taken c (clones ∷ os) = taken c os
taken c (wakes ∷ os) = c + taken c os
taken c (wakes_by_ref ∷ os) = taken c os
taken c (drops ∷ os) = taken c os
taken c (returns ∷ os) = taken c os

-- Whether the call has returned.
abbrev pub gone : Owners → ℕ
gone o = if o.parker then 0 else 1

-- The vtable lowers the count by `c` in a `wake`, and leaves it alone otherwise.
record Lowers {S : Type 0} (V : RawWakerVtable S) (c : ℕ) : Type 0 where
  by_clone : (a : ArcInner S) → (V.clone a).strong ≡ a.strong
  by_wake : (a : ArcInner S) → (V.wake a).strong ≡ a.strong - c
  by_ref : (a : ArcInner S) → (V.wake_by_ref a).strong ≡ a.strong
  by_drop : (a : ArcInner S) → (V.drop a).strong ≡ a.strong

module _ {S : Type 0} (V : RawWakerVtable S) (c : ℕ) (low : Lowers V c) where
  -- What one call does to the count, and to the call that blocks.
  act-strong :
      (op : Op) (o o' : Owners) (a a' : ArcInner S)
      → act V op (o, a) ≡ some (o', a')
      → (a'.strong ≡ a.strong - (taken c (op ∷ []) + (gone o' - gone o))) × (gone o ≤ gone o')
  unfolding act dropped
  act-strong clones o o' a a' e = ground (arith, low.by_clone a)
  act-strong wakes o o' a a' e = ground (arith, low.by_wake a)
  act-strong wakes_by_ref o o' a a' e = ground (arith, low.by_ref a)
  act-strong drops o o' a a' e = ground (arith, low.by_drop a)
  act-strong returns o o' a a' e = ground arith

  acts-strong :
      (os : List Op) (o o' : Owners) (a a' : ArcInner S)
      → acts V os (o, a) ≡ some (o', a')
      → (a'.strong ≡ a.strong - (taken c os + (gone o' - gone o))) × (gone o ≤ gone o')
  unfolding acts
  acts-strong [] o o' a a' e = ground arith
  acts-strong (op ∷ os) o o' a a' e = elim (Option-cases (act V op (o, a))) [
    | inl stuck ↦ absurd (ground arith)
    | inr (s, q) ↦
        let first = act-strong op o s.0 a s.1 q in
        let rest = acts-strong os s.0 o' s.1 a' (ground (arith, q, e)) in
        omega (arith, first.0, first.1, rest.0, rest.1, taken_cons op os)
  ]
    where
      taken_cons : (op : Op) (os : List Op) → taken c (op ∷ os) ≡ taken c (op ∷ []) + taken c os
      taken_cons clones os = omega arith
      taken_cons wakes os = omega arith
      taken_cons wakes_by_ref os = omega arith
      taken_cons drops os = omega arith
      taken_cons returns os = omega arith

handle_waker-Lowers : {F W : Type 0} → Lowers (handle_waker {F = F} {W = W}) 1
unfolding handle_waker dropped
handle_waker-Lowers = record {
  by_clone = λ a. refl;
  by_wake = λ a. refl;
  by_ref = λ a. refl;
  by_drop = λ a. refl;
}

-- Whatever is done with the waker of `block_on_with_worker`, its state counts two owners less one for
-- each call of `wake` that takes a waker, and one for the end of the call: two such calls free it while
-- the loop runs, and if there is none it is never freed.
pub handle_waker_counts :
    {F W : Type 0} (os : List Op) (st : BlockOnState F W) (o : Owners)
    (a : ArcInner (BlockOnState F W))
    → acts handle_waker os (handle_start st) ≡ some (o, a)
    → a.strong ≡ 2 - (taken 1 os + gone o)
unfolding handle_start
handle_waker_counts os st o a e =
    let counted = (acts-strong handle_waker 1 handle_waker-Lowers os _ o _ a e).0 in
    omega (arith, counted)

frame_waker-Lowers : Lowers frame_waker 0
unfolding frame_waker
frame_waker-Lowers = record {
  by_clone = λ a. refl;
  by_wake = λ a. omega arith;
  by_ref = λ a. refl;
  by_drop = λ a. refl;
}

-- Whatever is done with the waker of `BlockOnParker`, the frame that it points to is there exactly as
-- long as the call runs: a waker that is alive after that points to nothing.
pub frame_waker_counts :
    (os : List Op) (o : Owners) (a : ArcInner Bool)
    → acts frame_waker os frame_start ≡ some (o, a)
    → a.strong ≡ 1 - gone o
unfolding frame_start
frame_waker_counts os o a e =
    let counted = (acts-strong frame_waker 0 frame_waker-Lowers os _ o _ a e).0 in
    omega (arith, counted, none_taken os)
  where
    none_taken : (os : List Op) → taken 0 os ≡ 0
    none_taken [] = refl
    none_taken (clones ∷ os) = none_taken os
    none_taken (wakes ∷ os) = omega (arith, none_taken os)
    none_taken (wakes_by_ref ∷ os) = none_taken os
    none_taken (drops ∷ os) = none_taken os
    none_taken (returns ∷ os) = none_taken os
