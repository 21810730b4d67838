-- ===== src/Timer/Firing.antt =====
-- `TimeDriver::process`: which timers fire, and in what order.
use loony_rs_runtime.Base.{
  ℕ, zero, suc, ◌≤◌, ◌<◌, ◌≡◌, arith, inl, inr, Option-cases, Bool-cases, ltb, some, none, List, [],
  ◌∷◌, ◌++◌, All, All-of_mem,
}
use mathlib.Core.List.{Mem, Perm, mem-cons, mem-append_left, not-mem-nil}
use mathlib.Core.List.Perm
use mathlib.Core.Logic.Or
use loony_rs_runtime.Timer.{TimerEntry, BinaryHeap, process}
use loony_rs_runtime.Timer.Order.{pop_earliest, pop_of_peek}

-- In the order of the deadlines.
abbrev pub IsSorted : {W : Type 0} → List (TimerEntry W) → Type 0
IsSorted [] = Unit
IsSorted (e ∷ es) = All (λ x. e.deadline ≤ x.deadline) es × IsSorted es

module _ {W : Type 0} (B : BinaryHeap W) where
  open B use {Heap, items, len, peek, pop, items-pop, len-pop, pop_empty, peek-pop}

  -- The entries `es` were taken out of `h` at `now`, and `g` is what is left.
  pub record Fired (now : ℕ) (h : Heap) (es : List (TimerEntry W)) (g : Heap) : Type 0 where
    pub conserved : Perm (items h) (es ++ items g)
    pub due : All (λ e. e.deadline ≤ now) es
    pub sorted : IsSorted es
    pub waiting : All (λ e. now < e.deadline) (items g)

  none_due :
      (now : ℕ) (h : Heap)
      → ((x : TimerEntry W) → Mem x (items h) → now < x.deadline)
      → Fired now h [] h
  none_due now h later = record {
    conserved = Perm.refl (items h);
    due = tt;
    sorted = tt;
    waiting = All-of_mem (λ x. now < x.deadline) (items h) later;
  }

  one_more :
      (now : ℕ) (h k g : Heap) (e : TimerEntry W) (es : List (TimerEntry W))
      → pop h ≡ some (e, k)
      → e.deadline ≤ now
      → Fired now k es g
      → Fired now h (e ∷ es) g
  one_more now h k g e es p fits rest = record {
    conserved = Perm.trans (items-pop h k e p) (Perm.cons e rest.conserved);
    due = (fits, rest.due);
    sorted = (
      All-of_mem (λ x. e.deadline ≤ x.deadline) es
          (λ x m. pop_earliest B h k e x p (
            (Perm.mem_iff (items-pop h k e p)).1 (
              mem-cons.1
                (Or.inr ((Perm.mem_iff rest.conserved).1 (mem-append_left (items g) m)))))),
      rest.sorted,
    );
    waiting = rest.waiting;
  }

  -- With fuel above the number of timers, `process` ends. It fires exactly the timers that are due,
  -- in the order of their deadlines, and keeps the others.
  pub process_fires :
      (fuel now : ℕ) (h : Heap)
      → len h < fuel
      → (es : List (TimerEntry W)) × (g : Heap) × (process B fuel now h ≡ some (es, g))
        × Fired now h es g
  unfolding process
  process_fires zero now h lt = absurd (omega arith)
  process_fires (suc fuel) now h lt = elim (Option-cases (peek h)) [
    | inl q ↦
        ([], h, ground arith, none_due now h (λ x m. absurd (not-mem-nil (rw (empty q) at m))))
    | inr (e, q) ↦
        let (k, r) = pop_of_peek B h e q in
        elim (Bool-cases (ltb now e.deadline)) [
          | inl wait ↦ (
            [],
            h,
            ground arith,
            none_due now h (λ x m. ground (arith, pop_earliest B h k e x r m)),
          )
          | inr due ↦
              let (es, g, ran, rest) = process_fires fuel now k (omega (arith, len-pop h k e r)) in
              (e ∷ es, g, ground arith, one_more now h k g e es r (ground arith) rest)
        ]
  ]
    where
      empty : peek h ≡ none → items h ≡ []
      empty q = elim (Option-cases (pop h)) [
        | inl p ↦ pop_empty h p
        | inr (r, p) ↦ absurd (ground (arith, peek-pop h))
      ]
