-- ===== src/Runtime/Built.antt =====
-- What a builder makes, and the workers that find the others.
use loony_rs_runtime.Base.{
  ℕ, ◌≤◌, ◌≡◌, refl, sym, ◌⊎◌, Bool-cases, ◌∙◌, arith, inl, inr, Option, none, List, length,
  length-replicate, if◌then◌else◌, ltb,
}
use loony_rs_runtime.MultiThread.Deque.{Deque}
use loony_rs_runtime.MultiThread.Shared.{Shared, new_shared, shutdown_workers}
use loony_rs_runtime.MultiThread.Steal.Conserve.{load}
use loony_rs_runtime.MultiThread.Worker.{round, stops}
use loony_rs_runtime.CurrentThread.{done}
use loony_rs_runtime.Runtime.{with_worker_threads, new_multi_thread, build, ok, multi_thread, drop}

module _ {Task E : Type 0} (D : Deque Task) where
  open D use {Queue}

  -- A multi-thread runtime has as many workers as were asked for, and one if none were asked for;
  -- there is a queue and an unparker for each, so that no count is taken modulo 0.
  pub built_workers :
      (left : List Task) (val : ℕ) (parallelism : Option ℕ)
      → (s : Shared Queue) × (build {E = E} D none left
            (with_worker_threads val (new_multi_thread parallelism))
          ≡ ok (multi_thread s))
        × (length s.stealers ≡ length s.unparkers)
        × (s.active ≡ length s.stealers)
        × (1 ≤ length s.stealers)
        × (val ≤ length s.stealers)
        × ((length s.stealers ≤ val) ⊎ (length s.stealers ≡ 1))
  unfolding build with_worker_threads new_multi_thread new_shared
  built_workers left val parallelism =
      let n = if ltb val 1 then 1 else val in
      let queues = length-replicate n (Deque.new D) in
      let unparkers = length-replicate n none in
      (
        new_shared D n,
        refl,
        queues ∙ sym unparkers,
        sym queues,
        ground (arith, queues),
        ground (arith, queues),
        elim (Bool-cases (ltb val 1)) [
          | inl b ↦ inr (queues ∙ ground arith)
          | inr b ↦ inl (ground (arith, queues))
        ],
      )

module _ {Task : Type 0} (D : Deque Task) (weight : Task → ℕ) where
  open D use {Queue}

  -- The drop of a multi-thread runtime leaves the tasks in its queues, and no worker takes one from
  -- there any more: each stops at the head of its loop.
  pub drop_leaves_tasks :
      (s : Shared Queue) (index : ℕ) (arrived : List Task) (own : Queue)
      → (s' : Shared Queue) × (drop D (multi_thread s) ≡ done (multi_thread s'))
        × (load D weight s' ≡ load D weight s)
        × (round D index arrived own s' ≡ (stops, own, s'))
  unfolding drop round
  drop_leaves_tasks s index arrived own = (shutdown_workers s, refl, refl, refl)
