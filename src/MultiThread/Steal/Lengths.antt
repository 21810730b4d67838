-- ===== src/MultiThread/Steal/Lengths.antt =====
-- A steal leaves the number of the queues, and the shutdown flag.
use loony_rs_runtime.Base.{
  ℕ, zero, suc, ◌+◌, ◌≡◌, refl, arith, inl, inr, Option-cases, List, [], ◌∷◌, length, get_elem?,
  set, length-set,
}
use loony_rs_runtime.MultiThread.Deque.{Deque}
use loony_rs_runtime.MultiThread.Shared.{Shared}
use loony_rs_runtime.MultiThread.Steal.{target, steal_ring, steal_first, steal_work}

module _ {Task : Type 0} (D : Deque Task) where
  open D use {Queue, steal}

  pub steal_ring-length :
      (left i offset : ℕ) (qs : List Queue) → length (steal_ring D left i offset qs).1 ≡ length qs
  unfolding steal_ring
  steal_ring-length zero i offset qs = refl
  steal_ring-length (suc left) i offset qs =
      elim (Option-cases (get_elem? qs (target i (length qs) offset))) [
        | inl e ↦ ground arith
        | inr (q, e) ↦
            let at_target = target i (length qs) offset in
            ground (
              arith,
              length-set qs at_target (steal q).1,
              steal_ring-length left i (offset + 1) (set qs at_target (steal q).1),
            )
      ]

  steal_first-length : (qs : List Queue) → length (steal_first D qs).1 ≡ length qs
  unfolding steal_first
  steal_first-length [] = refl
  steal_first-length (q ∷ qs) = ground (arith, steal_first-length qs)

  pub steal_work-keeps :
      (s : Shared Queue)
      → (length (steal_work D s).1.stealers ≡ length s.stealers)
        × ((steal_work D s).1.shutdown ≡ s.shutdown)
  unfolding steal_work
  steal_work-keeps s = ground (arith, steal_first-length s.stealers)
