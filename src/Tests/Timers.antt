-- ===== src/Tests/Timers.antt =====
-- Timers at concrete inputs, and a heap that keeps a list and takes out the earliest entry of it.
use loony_rs_runtime.Base.{
  ℕ, suc, ◌+◌, ◌≤◌, ◌≡◌, refl, ap, arith, inl, inr, Bool-cases, leb, Option, some, none, List, [],
  ◌∷◌, length, All, if◌then◌else◌,
}
use mathlib.Core.List.{Mem, Perm, eq-or-mem_of_mem-cons, not-mem-nil}
use mathlib.Core.List.Perm
use mathlib.Core.Logic.Or
use native.Mathlib.Bridge.{le_prop}
use mathlib.Core.Option
use mathlib.Core.Option.{some-injective}
use mathlib.Core.Path.{subst}
use loony_rs_runtime.Timer.{TimerEntry, BinaryHeap, process}
use loony_rs_runtime.Timer.Order.{eq-cmp_iff}
use loony_rs_runtime.Timer.Driver.{sleeps, polls, new, registered, acts, driver_wakes_nobody}
use loony_rs_runtime.Timer.Firing.{Fired, process_fires}

abbrev Entries : Type 0
Entries = List (TimerEntry ℕ)

-- The earliest entry, and the others.
abbrev extract : TimerEntry ℕ → Entries → TimerEntry ℕ × Entries
extract e [] = (e, [])
extract e (x ∷ xs) =
    let (m, r) = extract e xs in
    let (m', r') = extract x xs in if leb e.deadline x.deadline then (m, x ∷ r) else (m', e ∷ r')

abbrev pop : Entries → Option (TimerEntry ℕ × Entries)
pop [] = none
pop (e ∷ es) = some (extract e es)

abbrev peek : Entries → Option (TimerEntry ℕ)
peek es = Option.map (λ r. r.0) (pop es)

extract-perm :
    (e : TimerEntry ℕ) (xs : Entries) → Perm (e ∷ xs) ((extract e xs).0 ∷ (extract e xs).1)
extract-perm e [] = Perm.refl (e ∷ [])
extract-perm e (x ∷ xs) = elim (Bool-cases (leb e.deadline x.deadline)) [
  | inl b ↦ rw b (
      Perm.trans (Perm.swap x e xs) (
        Perm.trans (Perm.cons x (extract-perm e xs))
          (Perm.swap (extract e xs).0 x (extract e xs).1)))
  | inr b ↦
      rw b (
        Perm.trans (Perm.cons e (extract-perm x xs))
          (Perm.swap (extract x xs).0 e (extract x xs).1))
]

extract-length : (e : TimerEntry ℕ) (xs : Entries) → length xs ≡ length (extract e xs).1
extract-length e [] = refl
extract-length e (x ∷ xs) = elim (Bool-cases (leb e.deadline x.deadline)) [
  | inl b ↦ rw b (ap suc (extract-length e xs))
  | inr b ↦ rw b (ap suc (extract-length x xs))
]

abbrev Least : TimerEntry ℕ → Entries → Type 0
Least m es = All (λ y. m.deadline ≤ y.deadline) es

extract-Least : (e : TimerEntry ℕ) (xs : Entries) → Least (extract e xs).0 (e ∷ xs)
extract-Least e [] = (omega arith, tt)
extract-Least e (x ∷ xs) =
    let (m, r) = extract e xs in
    let (m', r') = extract x xs in
    elim (Bool-cases (leb e.deadline x.deadline)) [
      | inl b ↦
          let (first, all) = extract-Least e xs in
          subst (λ p. Least p.0 (e ∷ x ∷ xs)) {x = (m, x ∷ r)} {y = extract e (x ∷ xs)} (rw b refl)
            (first, (ground arith, all))
      | inr b ↦
          let (first, all) = extract-Least x xs in
          subst (λ p. Least p.0 (e ∷ x ∷ xs)) {x = (m', e ∷ r')} {y = extract e (x ∷ xs)}
            (rw b refl) (ground arith, (first, all))
    ]

no_later :
    (b : ℕ) (xs : Entries) (y : TimerEntry ℕ)
    → All (λ y. b ≤ y.deadline) xs
    → Mem y xs
    → b ≤ y.deadline
no_later b [] y h m = absurd (not-mem-nil m)
no_later b (x ∷ xs) y h m =
    Or.elim le_prop (eq-or-mem_of_mem-cons m) (λ p. omega (arith, ap (λ e. e.deadline) p, h.0))
      (λ k. no_later b xs y h.1 k)

pub pop_empty : (h : Entries) → pop h ≡ none → h ≡ []
pop_empty [] p = refl
pop_empty (e ∷ es) p = absurd (cc)

pub items-pop : (h g : Entries) (e : TimerEntry ℕ) → pop h ≡ some (e, g) → Perm h (e ∷ g)
items-pop [] g e p = absurd (cc)
items-pop (x ∷ xs) g e p =
    subst (λ r. Perm (x ∷ xs) (r.0 ∷ r.1)) (some-injective (extract x xs) (e, g) p)
      (extract-perm x xs)

pub len-pop : (h g : Entries) (e : TimerEntry ℕ) → pop h ≡ some (e, g) → length h ≡ suc (length g)
len-pop [] g e p = absurd (cc)
len-pop (x ∷ xs) g e p =
    subst (λ r. suc (length xs) ≡ suc (length r.1)) (some-injective (extract x xs) (e, g) p)
      (ap suc (extract-length x xs))

pub pop_least :
    (h g : Entries) (e x : TimerEntry ℕ) → pop h ≡ some (e, g) → Mem x h → e.deadline ≤ x.deadline
pop_least [] g e x p m = absurd (cc)
pop_least (y ∷ ys) g e x p m =
    no_later e.deadline (y ∷ ys) x
      (subst (λ r. (r.0.deadline ≤ y.deadline) × All (λ z. r.0.deadline ≤ z.deadline) ys)
        (some-injective (extract y ys) (e, g) p) (extract-Least y ys))
      m

abbrev pub list_heap : BinaryHeap ℕ
list_heap = record {
  Heap = Entries;
  items = λ h. h;
  len = length;
  new = [];
  push = λ e h. e ∷ h;
  peek = peek;
  pop = pop;
  items-new = refl;
  items-push = λ e h. Perm.refl (e ∷ h);
  peek-pop = λ h. refl;
  pop_empty = pop_empty;
  items-pop = items-pop;
  len-pop = len-pop;
  pop_greatest =
      λ h g e x p m late. omega (arith, pop_least h g e x p m, (eq-cmp_iff x e).1.0 late);
}

abbrev pub at : ℕ → TimerEntry ℕ
at d = record { deadline = d; waker = 100 + d }

abbrev pub three : Entries
three = at 30 ∷ at 10 ∷ at 20 ∷ []

process_fires_example :
    (es : List (TimerEntry ℕ)) × (g : Entries) × (process list_heap 4 20 three ≡ some (es, g))
    × Fired list_heap 20 three es g
process_fires_example = process_fires list_heap 4 20 three (omega arith)

driver_wakes_nobody_example :
    let (ss, inner) = acts {W = ℕ} (sleeps 10 5 ∷ polls 0 12 3 ∷ polls 0 20 3 ∷ []) ([], new) in
    (inner.woken ≡ []) × (length inner.timers ≡ registered ss)
driver_wakes_nobody_example = driver_wakes_nobody (sleeps 10 5 ∷ polls 0 12 3 ∷ polls 0 20 3 ∷ [])
