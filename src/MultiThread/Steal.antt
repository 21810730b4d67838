-- ===== src/MultiThread/Steal.antt =====
-- The two loops that look for work in the queues of others.
pub mod Conserve
pub mod Ring
pub mod Lengths
use loony_rs_runtime.Base.{
  ℕ, zero, suc, ◌+◌, ◌-◌, ◌%◌, Option, none, some, List, [], ◌∷◌, length, get_elem?, set,
}
use loony_rs_runtime.MultiThread.Deque.{Deque, Steal, empty, retry, success}
use loony_rs_runtime.MultiThread.Shared.{Shared}

-- `Steal::success`
abbrev pub to_option : {A : Type 0} → Steal A → Option A
to_option empty = none
to_option retry = none
to_option (success a) = some a

-- `(start + offset) % num_workers` with `start = (my_index + 1) % num_workers`
unfoldable pub target : ℕ → ℕ → ℕ → ℕ
target my_index num_workers offset = ((my_index + 1) % num_workers + offset) % num_workers

module _ {Task : Type 0} (D : Deque Task) where
  open D use {Queue, steal}

  -- The loop of `MultiThread::steal_work`, over all the queues in order.
  unfoldable pub steal_first : List Queue → Option Task × List Queue
  steal_first [] = (none, [])
  steal_first (q ∷ qs) =
      let (r, q') = steal q in
      let (found, rest) = steal_first qs in
      elim r [
        | success t ↦ (some t, q' ∷ qs)
        | empty ↦ (found, q' ∷ rest)
        | retry ↦ (found, q' ∷ rest)
      ]

  -- `MultiThread::steal_work`
  unfoldable pub steal_work : Shared Queue → Option Task × Shared Queue
  unfolding steal_first
  steal_work s =
      let (found, qs) = steal_first s.stealers in
      let (r, q) = steal s.injector in
      elim found [
        | some t ↦ (some t, record s { stealers = qs })
        | none ↦ (to_option r, record s { stealers = qs; injector = q })
      ]

  -- The loop of `WorkerThread::steal_work`, with so many rounds left from `offset` on. An index out
  -- of range would panic; `none` of the queue stands for it, and it does not occur.
  unfoldable pub steal_ring : ℕ → ℕ → ℕ → List Queue → Option Task × List Queue
  unfolding target
  steal_ring zero my_index offset qs = (none, qs)
  steal_ring (suc left) my_index offset qs =
      let i = target my_index (length qs) offset in
      elim (get_elem? qs i) [
        | none ↦ (none, qs)
        | some q ↦
            let (r, q') = steal q in
            elim r [
              | success t ↦ (some t, set qs i q')
              | empty ↦ steal_ring left my_index (offset + 1) (set qs i q')
              | retry ↦ steal_ring left my_index (offset + 1) (set qs i q')
            ]
      ]

  -- `WorkerThread::steal_work`
  unfoldable pub steal_others : ℕ → Shared Queue → Option Task × Shared Queue
  unfolding steal_ring
  steal_others my_index s =
      let (found, qs) = steal_ring (length s.stealers - 1) my_index 0 s.stealers in
      (found, record s { stealers = qs })
