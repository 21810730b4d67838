-- ===== src/MultiThread/Steal/Ring.antt =====
-- The workers that `WorkerThread::steal_work` asks.
use loony_rs_runtime.Base.{
  ℕ, zero, suc, Option, some, List, [], length, get_elem?, set, get_elem?-lt, lt-of_get_elem?,
  length-set, get_elem?-set_ne, ◌+◌, ◌-◌, ◌%◌, ◌<◌, ◌≤◌, ◌≡◌, ◌≢◌, refl, sym, ap, ◌⊎◌, ◌∙◌, arith,
  inl, inr, ltb, if◌then◌else◌, dec_lt,
}
use native.Mathlib.Nat.{mod-eq_of_lt, mod-eq-sub-mod}
use mathlib.Core.Option.{some-injective}
use mathlib.Core.Path.{subst, subst⁻¹}
use loony_rs_runtime.MultiThread.Deque.{Deque, Steal, empty, retry, success, Steals}
use loony_rs_runtime.MultiThread.Shared.{Shared}
use loony_rs_runtime.MultiThread.Steal.{target, steal_ring, steal_others}

wrap : (x n : ℕ) → x < n + n → x % n ≡ (if ltb x n then x else x - n)
wrap x n h = elim (dec_lt x n) [
  | yes p ↦ ground (arith, mod-eq_of_lt p)
  | no p ↦
      let below : x - n < n = omega arith in
      let eq : x % n ≡ x - n = mod-eq-sub-mod {n = x} {m = n} (omega arith) ∙ mod-eq_of_lt below in
      ground (arith, eq)
]

target_cases :
    (my_index n offset : ℕ)
    → my_index < n
    → offset < n - 1
    → target my_index n offset
      ≡ (if ltb (my_index + 1 + offset) n then my_index + 1 + offset else my_index + 1 + offset - n)
unfolding target
target_cases my_index n offset h k = ground (
  arith,
  wrap (my_index + 1) n (omega arith),
  wrap (my_index + 1 + offset) n (omega arith),
  wrap offset n (omega arith),
)

-- The index that a worker steals from is that of another worker, at each offset of its loop.
pub target_other :
    (my_index n offset : ℕ)
    → my_index < n
    → offset < n - 1
    → (target my_index n offset < n) × (target my_index n offset ≢ my_index)
target_other my_index n offset h k = ground (arith, target_cases my_index n offset h k)

target_once :
    (my_index n o p : ℕ)
    → my_index < n
    → o < n - 1
    → p < n - 1
    → target my_index n o ≡ target my_index n p
    → o ≡ p
target_once my_index n o p h k l e =
    ground (arith, target_cases my_index n o h k, target_cases my_index n p h l)

-- Each other worker is asked at some offset.
pub target_reaches :
    (my_index n other : ℕ)
    → my_index < n
    → other < n
    → other ≢ my_index
    → (offset : ℕ) × (offset < n - 1) × (target my_index n offset ≡ other)
target_reaches my_index n other h k ne = elim (dec_lt my_index other) [
  | yes p ↦ (
    other - (my_index + 1),
    omega arith,
    ground (arith, target_cases my_index n (other - (my_index + 1)) h (omega arith)),
  )
  | no p ↦ (
    other + n - (my_index + 1),
    omega arith,
    ground (arith, target_cases my_index n (other + n - (my_index + 1)) h (omega arith)),
  )
]

module _ {Task : Type 0} (D : Deque Task)
    (prompt : (q : Deque.Queue D) → (Deque.steal D q).0 ≢ retry) where
  open D use {Queue, view, steal, steal-Steals}

  ring_success :
      (left my_index offset : ℕ) (qs : List Queue) (p : Queue) (u : Task)
      → get_elem? qs (target my_index (length qs) offset) ≡ some p
      → (steal p).0 ≡ success u
      → (steal_ring D (suc left) my_index offset qs).0 ≡ some u
  unfolding steal_ring
  ring_success left my_index offset qs p u g s = ground arith

  ring_empty :
      (left my_index offset : ℕ) (qs : List Queue) (p : Queue)
      → get_elem? qs (target my_index (length qs) offset) ≡ some p
      → (steal p).0 ≡ empty
      → steal_ring D (suc left) my_index offset qs
        ≡ steal_ring D left my_index
            (offset + 1)
            (set qs (target my_index (length qs) offset) (steal p).1)
  unfolding steal_ring
  ring_empty left my_index offset qs p g s = ground arith

  steal_cases :
      (q : Queue)
      → ((u : Task) × ((steal q).0 ≡ success u)) ⊎ (((steal q).0 ≡ empty) × (view q ≡ []))
  steal_cases q = go (steal q).0 refl (steal-Steals q) (prompt q)
    where
      go :
          (r : Steal Task)
          → (steal q).0 ≡ r
          → Steals r (view q) (view (steal q).1)
          → r ≢ retry
          → ((u : Task) × ((steal q).0 ≡ success u)) ⊎ (((steal q).0 ≡ empty) × (view q ≡ []))
      go (success u) e s p = inl (u, e)
      go empty e s p = inr (e, s.0)
      go retry e s p = absurd (p refl)

  ring_finds :
      (left n my_index offset o : ℕ) (qs : List Queue) (q : Queue)
      → length qs ≡ n
      → my_index < n
      → offset + left ≡ n - 1
      → offset ≤ o
      → o < n - 1
      → get_elem? qs (target my_index n o) ≡ some q
      → view q ≢ []
      → (u : Task) × ((steal_ring D left my_index offset qs).0 ≡ some u)
  ring_finds zero n my_index offset o qs q len h e le lt g v = absurd (omega arith)
  ring_finds (suc left) n my_index offset o qs q len h e le lt g v =
      let i = target my_index n offset in
      let (p, at_i) =
        get_elem?-lt qs i (omega (arith, target_other my_index n offset h (omega arith))) in
      let here : get_elem? qs (target my_index (length qs) offset) ≡ some p =
        ap (λ m. get_elem? qs (target my_index m offset)) len ∙ at_i in
      elim (steal_cases p) [
        | inl (u, s) ↦ (u, ring_success left my_index offset qs p u here s)
        | inr (s, none_there) ↦
            let apart : o ≢ offset = λ same. v (
              ap view
                (later_some at_i (subst (λ x. get_elem? qs (target my_index n x) ≡ some q) same g))
              ∙ none_there) in
            let moved : i ≢ target my_index n o =
              λ same. apart (target_once my_index n o offset h lt (omega arith) (sym same)) in
            let (u, r) =
              ring_finds left n my_index (offset + 1) o (set qs i (steal p).1) q
                (length-set qs i (steal p).1 ∙ len) h (omega arith) (omega arith) lt
                (get_elem?-set_ne qs i (target my_index n o) (steal p).1 moved ∙ g) v in
            (
              u,
              ap (λ (r : Option Task × List Queue). r.0)
                    (ring_empty left my_index offset qs p here s)
                  ∙ subst⁻¹
                      (λ m.
                        (steal_ring D left my_index (offset + 1)
                          (set qs (target my_index m offset) (steal p).1)).0
                        ≡ some u)
                      len r,
            )
      ]
    where
      later_some : {p q : Queue} {x : Option Queue} → x ≡ some p → x ≡ some q → q ≡ p
      later_some a b = some-injective _ _ (sym b ∙ a)

  -- Where no steal has to be retried, `WorkerThread::steal_work` comes back with a task if any other
  -- worker has one.
  pub steal_others_finds :
      (my_index other : ℕ) (s : Shared Queue) (q : Queue)
      → my_index < length s.stealers
      → other ≢ my_index
      → get_elem? s.stealers other ≡ some q
      → view q ≢ []
      → (u : Task) × ((steal_others D my_index s).0 ≡ some u)
  unfolding steal_others
  steal_others_finds my_index other s q h ne g v =
      let n = length s.stealers in
      let (o, lt, e) =
        target_reaches my_index n other h (lt-of_get_elem? s.stealers other q g) ne in
      ring_finds (n - 1) n my_index 0 o s.stealers q refl h (omega arith) (omega arith) lt (rw e g)
        v
