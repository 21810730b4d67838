-- ===== src/Task/Waker/Callback.antt =====
-- The boxes that are left.
use loony_rs_runtime.Base.{ℕ, ◌+◌, ◌≡◌, refl, arith, inl, inr, Option-cases, some, List, [], ◌∷◌}
use loony_rs_runtime.Task.Waker.{
  Boxes, Alive, Op, news, copies, discards, turns, clones, wakes, wakes_by_ref, drops, act, acts,
}

-- How many wakers are woken by value, and how often they are woken at all.
abbrev pub consuming : Op → ℕ
consuming wakes = 1
consuming _ = 0

abbrev pub waking : Op → ℕ
waking wakes = 1
waking wakes_by_ref = 1
waking _ = 0

abbrev pub consumed : List Op → ℕ
consumed [] = 0
consumed (o ∷ os) = consuming o + consumed os

abbrev pub wakings : List Op → ℕ
wakings [] = 0
wakings (o ∷ os) = waking o + wakings os

-- The boxes fit what is alive, besides so many that nobody owns.
record Fits (s : Alive × Boxes) (leaked : ℕ) : Type 0 where
  boxes : s.1.live ≡ s.0.wakers + leaked
  closures : s.1.callbacks ≡ s.0.values + s.0.wakers + leaked

act-Fits :
    (o : Op) (s t : Alive × Boxes) (leaked : ℕ)
    → act o s ≡ some t
    → Fits s leaked
    → Fits t (consuming o + leaked) × (t.1.calls ≡ s.1.calls + waking o)
unfolding act
act-Fits news s t leaked e h = ground arith
act-Fits copies s t leaked e h = ground arith
act-Fits discards s t leaked e h = ground arith
act-Fits turns s t leaked e h = ground arith
act-Fits clones s t leaked e h = ground arith
act-Fits wakes s t leaked e h = ground arith
act-Fits wakes_by_ref s t leaked e h = ground arith
act-Fits drops s t leaked e h = ground arith

acts-Fits :
    (os : List Op) (s t : Alive × Boxes) (leaked : ℕ)
    → acts os s ≡ some t
    → Fits s leaked
    → Fits t (consumed os + leaked) × (t.1.calls ≡ s.1.calls + wakings os)
unfolding acts
acts-Fits [] s t leaked e h = ground arith
acts-Fits (o ∷ os) s t leaked e h = elim (Option-cases (act o s)) [
  | inl p ↦ absurd (ground arith)
  | inr (s', p) ↦
      let step = act-Fits o s s' leaked p h in
      let rest = acts-Fits os s' t (consuming o + leaked) (ground arith) step.0 in
      let n = consuming o in
      (
        record { boxes = omega (arith, rest.0.boxes); closures = omega (arith, rest.0.closures) },
        omega (arith, step.1, rest.1),
      )
]

abbrev pub nothing : Alive × Boxes
nothing = (record { values = 0; wakers = 0 }, record { live = 0; callbacks = 0; calls = 0 })

-- Whatever is done with `CallbackWaker`s and their wakers, each of these has its box, each of both has the
-- box of its callback, and each waker that was woken by value has left both behind, which nothing frees;
-- every wake calls the callback once.
pub callback_boxes :
    (os : List Op) (a : Alive) (b : Boxes)
    → acts os nothing ≡ some (a, b)
    → (b.live ≡ a.wakers + consumed os)
      × (b.callbacks ≡ a.values + a.wakers + consumed os)
      × (b.calls ≡ wakings os)
callback_boxes os a b e =
    let (left, calls) =
      acts-Fits os nothing (a, b) 0 e (record { boxes = refl; closures = refl }) in
    (omega (arith, left.boxes), omega (arith, left.closures), omega (arith, calls))
