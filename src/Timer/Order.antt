-- ===== src/Timer/Order.antt =====
-- The order of the entries, and the earliest deadline.
use loony_rs_runtime.Base.{
  ℕ, ◌≤◌, ◌<◌, ◌≡◌, ◌↔◌, arith, inl, inr, Option-cases, true, some, All, All-of_mem,
}
use Prim.Native.Nat.{Ordering}
use mathlib.Core.List.{Mem}
use loony_rs_runtime.Timer.{TimerEntry, cmp, eq, BinaryHeap, next_deadline}

-- The entries are equal exactly if neither comes first, and an entry comes first exactly if its
-- deadline is the earlier one.
pub eq-cmp_iff :
    {W : Type 0} (a b : TimerEntry W)
    → ((eq a b ≡ true) ↔ (cmp a b ≡ Ordering.eq))
      × ((cmp a b ≡ Ordering.gt) ↔ (a.deadline < b.deadline))
unfolding eq cmp
eq-cmp_iff a b = ground arith

module _ {W : Type 0} (B : BinaryHeap W) where
  open B use {Heap, items, peek, pop, pop_greatest, peek-pop}

  -- What `pop` takes has a deadline that no other entry is ahead of.
  pub pop_earliest :
      (h g : Heap) (e x : TimerEntry W)
      → pop h ≡ some (e, g)
      → Mem x (items h)
      → e.deadline ≤ x.deadline
  pop_earliest h g e x p m = ground (arith, pop_greatest h g e x p m, eq-cmp_iff x e)

  pub pop_of_peek :
      (h : Heap) (e : TimerEntry W) → peek h ≡ some e → (g : Heap) × (pop h ≡ some (e, g))
  pop_of_peek h e p = elim (Option-cases (pop h)) [
    | inl q ↦ absurd (ground (arith, peek-pop h))
    | inr (r, q) ↦ (r.1, ground (arith, peek-pop h))
  ]

  -- `next_deadline` is a lower bound of the deadlines of all timers.
  pub next_deadline_earliest :
      (h : Heap) (d : ℕ) → next_deadline B h ≡ some d → All (λ e. d ≤ e.deadline) (items h)
  unfolding next_deadline
  next_deadline_earliest h d p = elim (Option-cases (peek h)) [
    | inl q ↦ absurd (ground arith)
    | inr (e, q) ↦
        let (g, r) = pop_of_peek h e q in
        All-of_mem (λ x. d ≤ x.deadline) (items h) (λ x m. ground (arith, pop_earliest h g e x r m))
  ]
