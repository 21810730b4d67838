-- ===== src/Context/Guards.antt =====
-- What a sequence of guards does to the context of a thread.
use loony_rs_runtime.Base.{ℕ, ◌≡◌, refl, ◌∙◌, Option, none, some, List, [], ◌∷◌}
use loony_rs_runtime.Context.{
  Context, Guard, entered, within, enter, new, drop, current, Op, enters, blocks, leaves, act, acts,
  unwind,
}

act-unwind :
    (o : Op) (gs : List Guard) (c : Context)
    → unwind (act o (gs, c)).0 (act o (gs, c)).1 ≡ unwind gs c
unfolding act unwind
act-unwind (enters h) gs c = refl
act-unwind (blocks h) gs c = refl
act-unwind leaves [] c = refl
act-unwind leaves (g ∷ gs) c = refl

acts-unwind :
    (os : List Op) (gs : List Guard) (c : Context)
    → unwind (acts os (gs, c)).0 (acts os (gs, c)).1 ≡ unwind gs c
acts-unwind [] gs c = refl
acts-unwind (o ∷ os) gs c = acts-unwind os (act o (gs, c)).0 (act o (gs, c)).1 ∙ act-unwind o gs c

-- However a thread enters runtimes and blocks on them, with its guards dropped in the reverse order,
-- once the rest of them is dropped its context and its worker are those at the start.
pub guards_restore :
    (os : List Op) (c : Context) → unwind (acts os ([], c)).0 (acts os ([], c)).1 ≡ c
unfolding unwind
guards_restore os c = acts-unwind os [] c

-- The abstract view: the stack of the runtimes that the thread is in.
abbrev pub opened : List Op → List ℕ → List ℕ
opened [] hs = hs
opened (enters h ∷ os) hs = opened os (h ∷ hs)
opened (blocks h ∷ os) hs = opened os (h ∷ hs)
opened (leaves ∷ os) [] = opened os []
opened (leaves ∷ os) (h ∷ hs) = opened os hs

abbrev pub top : List ℕ → Option ℕ → Option ℕ
top [] base = base
top (h ∷ hs) base = some h

-- The guards hold the stack.
abbrev Stacked : List Guard → List ℕ → Context → Option ℕ → Type 0
Stacked [] [] c base = c.shared ≡ base
Stacked [] (h ∷ hs) c base = ⊥
Stacked (g ∷ gs) [] c base = ⊥
Stacked (g ∷ gs) (h ∷ hs) c base = (c.shared ≡ some h) × Stacked gs hs (drop g c) base

top-Stacked :
    (gs : List Guard) (hs : List ℕ) (c : Context) (base : Option ℕ)
    → Stacked gs hs c base
    → current c ≡ top hs base
unfolding current
top-Stacked [] [] c base s = s
top-Stacked [] (h ∷ hs) c base s = absurd s
top-Stacked (g ∷ gs) [] c base s = absurd s
top-Stacked (g ∷ gs) (h ∷ hs) c base s = s.0

acts-innermost :
    (os : List Op) (gs : List Guard) (hs : List ℕ) (c : Context) (base : Option ℕ)
    → Stacked gs hs c base
    → current (acts os (gs, c)).1 ≡ top (opened os hs) base
unfolding act enter new drop
acts-innermost [] gs hs c base s = top-Stacked gs hs c base s
acts-innermost (enters h ∷ os) gs hs c base s =
    acts-innermost os (entered c.shared ∷ gs) (h ∷ hs) (record c { shared = some h }) base (refl, s)
acts-innermost (blocks h ∷ os) gs hs c base s =
    acts-innermost os (within c.shared c.worker ∷ gs) (h ∷ hs)
      (record { shared = some h; worker = none }) base (refl, s)
acts-innermost (leaves ∷ os) [] [] c base s = acts-innermost os [] [] c base s
acts-innermost (leaves ∷ os) [] (h ∷ hs) c base s = absurd s
acts-innermost (leaves ∷ os) (g ∷ gs) [] c base s = absurd s
acts-innermost (leaves ∷ os) (g ∷ gs) (h ∷ hs) c base s =
    acts-innermost os gs hs (drop g c) base s.1

-- `Handle::current` is that of the last runtime that the thread entered or blocks on and has not
-- left, and the one at the start if there is none.
pub current_innermost :
    (os : List Op) (c : Context) → current (acts os ([], c)).1 ≡ top (opened os []) c.shared
current_innermost os c = acts-innermost os [] [] c c.shared refl
