-- ===== src/MultiThread/Steal/Conserve.antt =====
-- Stealing takes one task out of the queues, and loses none.
use loony_rs_runtime.Base.{
  ℕ, zero, suc, ◌+◌, ◌-◌, ◌≡◌, refl, arith, inl, inr, Option-cases, Option, none, some, List, [],
  ◌∷◌, length, get_elem?, set, total, total-append,
}
use loony_rs_runtime.MultiThread.Deque.{Deque, Steal, empty, retry, success, Steals}
use loony_rs_runtime.MultiThread.Shared.{
  Shared, spawn_task, notify_worker, count_stealers, approx_task_count,
}
use loony_rs_runtime.MultiThread.Steal.{
  steal_first, steal_work, steal_ring, steal_others, to_option, target,
}

module _ {Task : Type 0} (D : Deque Task) (weight : Task → ℕ) where
  open D use {Queue, view, steal, steal-Steals, view-push}

  -- The weight of the tasks in a queue, in several, and in all of them.
  abbrev pub queued : Queue → ℕ
  queued q = total weight (view q)

  abbrev pub load : Shared Queue → ℕ
  load s = queued s.injector + total queued s.stealers

  abbrev pub held : Option Task → ℕ
  held none = 0
  held (some t) = weight t

  total-Steals :
      (r : Steal Task) (before after : List Task)
      → Steals r before after
      → total weight before ≡ held (to_option r) + total weight after
  total-Steals empty before after h = rw (h.0, h.1) refl
  total-Steals retry before after h = rw h (omega arith)
  total-Steals (success t) before after h = rw h refl

  pub steal-queued : (q : Queue) → queued q ≡ held (to_option (steal q).0) + queued (steal q).1
  steal-queued q = total-Steals (steal q).0 (view q) (view (steal q).1) (steal-Steals q)

  pub steal_first-total :
      (qs : List Queue)
      → total queued qs ≡ held (steal_first D qs).0 + total queued (steal_first D qs).1
  unfolding steal_first
  steal_first-total [] = refl
  steal_first-total (q ∷ qs) = ground (arith, steal-queued q, steal_first-total qs)

  -- `MultiThread::steal_work` takes exactly the task that it returns out of the queues.
  pub steal_work-load :
      (s : Shared Queue) → load s ≡ held (steal_work D s).0 + load (steal_work D s).1
  unfolding steal_work
  steal_work-load s = ground (arith, steal-queued s.injector, steal_first-total s.stealers)

  pub total-set :
      (qs : List Queue) (i : ℕ) (q q' : Queue)
      → get_elem? qs i ≡ some q
      → total queued (set qs i q') + queued q ≡ total queued qs + queued q'
  total-set [] i q q' e = absurd (cc)
  total-set (p ∷ ps) zero q q' e = ground arith
  total-set (p ∷ ps) (suc i) q q' e = omega (arith, total-set ps i q q' e)

  steal_ring-total :
      (left my_index offset : ℕ) (qs : List Queue)
      → let r = steal_ring D left my_index offset qs in
        total queued qs ≡ held r.0 + total queued r.1
  unfolding steal_ring
  steal_ring-total zero my_index offset qs = omega arith
  steal_ring-total (suc left) my_index offset qs =
      let i = target my_index (length qs) offset in
      elim (Option-cases (get_elem? qs i)) [
        | inl e ↦ ground arith
        | inr (q, e) ↦ ground (
          arith,
          total-set qs i q (steal q).1 e,
          steal-queued q,
          steal_ring-total left my_index (offset + 1) (set qs i (steal q).1),
        )
      ]

  pub steal_others-load :
      (my_index : ℕ) (s : Shared Queue)
      → load s ≡ held (steal_others D my_index s).0 + load (steal_others D my_index s).1
  unfolding steal_others
  steal_others-load my_index s =
      omega (arith, steal_ring-total (length s.stealers - 1) my_index 0 s.stealers)

  -- `spawn` puts the task in, whatever it notifies.
  pub spawn_task-load : (t : Task) (s : Shared Queue) → load (spawn_task D t s) ≡ load s + weight t
  unfolding spawn_task notify_worker
  spawn_task-load t s = pushed s.unparkers
    where
      pushed :
          (us : List (Option ℕ))
          → load (spawn_task D t (record s { unparkers = us })) ≡ load s + weight t
      pushed [] =
          rw (view-push t s.injector)
            (omega (arith, total-append weight (view s.injector) (t ∷ [])))
      pushed (u ∷ us) =
          rw (view-push t s.injector)
            (omega (arith, total-append weight (view s.injector) (t ∷ [])))

module _ {Task : Type 0} (D : Deque Task) where
  open D use {Queue, view, steal, len, steal-Steals, len-view}

  abbrev pub one : Task → ℕ
  one t = 1

  counted :
      (n : ℕ) (r : Steal Task)
      → elim r [ success _ ↦ n + 1 | empty ↦ n | retry ↦ n ] ≡ n + held D one (to_option r)
  counted n empty = omega arith
  counted n retry = omega arith
  counted n (success t) = refl

  count_stealers-total :
      (qs : List Queue)
      → (count_stealers D qs).0 + total (queued D one) (count_stealers D qs).1
        ≡ total (queued D one) qs
  unfolding count_stealers
  count_stealers-total [] = refl
  count_stealers-total (q ∷ qs) = omega (
    arith,
    counted (count_stealers D qs).0 (steal q).0,
    steal-queued D one q,
    count_stealers-total qs,
  )

  -- The tasks that `approx_task_count` counts in the queues of the workers are gone after it.
  pub approx_task_count-load :
      (s : Shared Queue)
      → let (n, s') = approx_task_count D s in n + load D one s' ≡ len s.injector + load D one s
  unfolding approx_task_count
  approx_task_count-load s = omega (arith, count_stealers-total s.stealers)
