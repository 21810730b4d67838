-- ===== src/Park/Wakers/Counts.antt =====
-- The strong count, and the notifications that get through.
use loony_rs_runtime.Base.{
  ℕ, zero, suc, ◌+◌, ◌≡◌, refl, sym, ap, ◌∙◌, arith, inl, inr, Option-cases, true, if◌then◌else◌,
  some, List, [], ◌∷◌,
}
use native.Mathlib.Nat.{zero-add, suc-add}
use loony_rs_runtime.Park.Wakers.{
  ArcInner, Op, makes, clones, wakes, wakes_by_ref, drops, drops_parker, Owners, act, acts,
}

abbrev pub owned : Owners → ℕ
owned o = o.wakers + (if o.parker then 1 else 0)

abbrev pub cloning : Op → ℕ
cloning clones = 1
cloning _ = 0

abbrev pub waking : Op → ℕ
waking wakes = 1
waking wakes_by_ref = 1
waking _ = 0

-- How often the wakers were cloned, and how often they were woken.
abbrev pub clonings : List (Op) → ℕ
clonings [] = 0
clonings (o ∷ os) = cloning o + clonings os

abbrev pub wakings : List (Op) → ℕ
wakings [] = 0
wakings (o ∷ os) = waking o + wakings os

module _ {S : Type 0} (unpark : S → S) where
  abbrev pub times : ℕ → S → S
  times zero v = v
  times (suc n) v = times n (unpark v)

  times-add : (m n : ℕ) (v : S) → times (m + n) v ≡ times n (times m v)
  times-add zero n v = rw zero-add refl
  times-add (suc m) n v = rw suc-add (times-add m n (unpark v))

  act-strong :
      (o : Op) (s t : Owners × ArcInner S) (leaked : ℕ)
      → act unpark o s ≡ some t
      → s.1.strong ≡ owned s.0 + leaked
      → (t.1.strong ≡ owned t.0 + (cloning o + leaked)) × (t.1.value ≡ times (waking o) s.1.value)
  unfolding act
  act-strong makes s t leaked e h = ground arith
  act-strong clones s t leaked e h = ground arith
  act-strong wakes s t leaked e h = ground arith
  act-strong wakes_by_ref s t leaked e h = ground arith
  act-strong drops s t leaked e h = ground arith
  act-strong drops_parker s t leaked e h = ground arith

  acts-strong :
      (os : List Op) (s t : Owners × ArcInner S) (leaked : ℕ)
      → acts unpark os s ≡ some t
      → s.1.strong ≡ owned s.0 + leaked
      → (t.1.strong ≡ owned t.0 + (clonings os + leaked))
        × (t.1.value ≡ times (wakings os) s.1.value)
  unfolding acts
  acts-strong [] s t leaked e h = ground arith
  acts-strong (o ∷ os) s t leaked e h = elim (Option-cases (act unpark o s)) [
    | inl p ↦ absurd (ground arith)
    | inr (s', p) ↦
        let step = act-strong o s s' leaked p h in
        let rest = acts-strong os s' t (cloning o + leaked) (ground arith) step.0 in
        (
          omega (arith, rest.0),
          rest.1
              ∙ ap (times (wakings os)) step.1
              ∙ sym (times-add (waking o) (wakings os) s.1.value),
        )
  ]

  -- A parker's memory counts one owner for the parker, one for each waker that is alive, and one
  -- more for each clone that was ever made, which nothing gives back; and each wake is one `unpark`.
  pub waker_counts :
      (os : List Op) (v : S) (o : Owners) (a : ArcInner S)
      → acts unpark os (record { parker = true; wakers = 0 }, record { strong = 1; value = v })
        ≡ some (o, a)
      → (a.strong ≡ owned o + clonings os) × (a.value ≡ times (wakings os) v)
  waker_counts os v o a e =
      let counts =
        acts-strong os (record { parker = true; wakers = 0 }, record { strong = 1; value = v })
          (o, a) 0 e (omega arith) in
      (omega (arith, counts.0), counts.1)
