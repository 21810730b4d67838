-- ===== src/Runtime/Machine/Rounds.antt =====
-- A round of a worker that finds tasks in the injector only.
use loony_rs_runtime.Base.{
  ℕ, ◌≡◌, ◌≢◌, refl, ◌∙◌, arith, false, Option, none, some, List, [], ◌∷◌, total,
}
use loony_rs_runtime.MultiThread.Deque.{Deque, Steal, empty, retry, success, Steals, Pops}
use loony_rs_runtime.MultiThread.Shared.{Shared}
use loony_rs_runtime.MultiThread.Steal.{to_option, steal_others}
use loony_rs_runtime.MultiThread.Steal.Conserve.{one, queued, steal_others-load}
use loony_rs_runtime.MultiThread.Worker.{runs, sleeps, find_task, round, check_for_work, push_all}
use loony_rs_runtime.MultiThread.Worker.Lost.{pop_nothing}

module _ (D : Deque ℕ) where
  open D use {Queue, view, steal, pop, pop-Pops, steal-Steals}

  -- The queues of the workers are empty, the injector holds these tasks, and nothing is shut down.
  pub record Holds (ts : List ℕ) (own : Queue) (s : Shared Queue) : Type 0 where
    pub own_empty : view own ≡ []
    pub others_empty : total (queued D (one D)) s.stealers ≡ 0
    pub in_queue : view s.injector ≡ ts
    pub open_still : s.shutdown ≡ false

  steal_others-none :
      (index : ℕ) (s : Shared Queue)
      → total (queued D (one D)) s.stealers ≡ 0
      → ((steal_others D index s).0 ≡ none)
        × (total (queued D (one D)) (steal_others D index s).1.stealers ≡ 0)
  unfolding steal_others
  steal_others-none index s e = ground (arith, steal_others-load D (one D) index s)

  pop_empty : (q : Queue) → view q ≡ [] → view (pop q).1 ≡ []
  pop_empty q e = go (pop q).0 (pop-Pops q)
    where
      go : (r : Option ℕ) → Pops r (view q) (view (pop q).1) → view (pop q).1 ≡ []
      go none h = h.1
      go (some t) h = absurd (cc)

  steal_empty : (q : Queue) → view q ≡ [] → (to_option (steal q).0 ≡ none) × (view (steal q).1 ≡ [])
  steal_empty q e = go (steal q).0 (steal-Steals q)
    where
      go :
          (r : Steal ℕ)
          → Steals r (view q) (view (steal q).1)
          → (to_option r ≡ none) × (view (steal q).1 ≡ [])
      go empty h = (refl, h.1)
      go retry h = (refl, h ∙ e)
      go (success u) h = absurd (cc)

  module _ (prompt : (q : Queue) → (steal q).0 ≢ retry) where
    pub steal_oldest :
        (q : Queue) (t : ℕ) (ts : List ℕ)
        → view q ≡ t ∷ ts
        → ((steal q).0 ≡ success t) × (view (steal q).1 ≡ ts)
    steal_oldest q t ts e = go (steal q).0 (steal-Steals q) (prompt q)
      where
        go :
            (r : Steal ℕ)
            → Steals r (view q) (view (steal q).1)
            → r ≢ retry
            → (r ≡ success t) × (view (steal q).1 ≡ ts)
        go empty h p = absurd (cc)
        go retry h p = absurd (p refl)
        go (success u) h p = ground arith

    -- The worker runs the first task and leaves the others.
    pub round-runs :
        (index t : ℕ) (ts : List ℕ) (own : Queue) (s : Shared Queue)
        → Holds (t ∷ ts) own s
        → let (r, own', s') = round D index [] own s in (r ≡ runs t) × Holds ts own' s'
    unfolding round find_task steal_others
    round-runs index t ts own s v =
        let (nothing, still) = steal_others-none index s v.others_empty in
        let (found, rest) = steal_oldest s.injector t ts v.in_queue in
        let popped = pop_nothing D own v.own_empty in
        let empty_still = pop_empty own v.own_empty in ground arith

    -- A worker without work goes to sleep.
    pub round_sleeps :
        (index : ℕ) (own : Queue) (s : Shared Queue)
        → Holds [] own s
        → let (r, own', s') = round D index [] own s in (r ≡ sleeps) × Holds [] own' s'
    unfolding round find_task check_for_work push_all
    round_sleeps index own s v =
        let (nothing, still) = steal_others-none index s v.others_empty in
        let popped = pop_nothing D own v.own_empty in
        let own_still = pop_empty own v.own_empty in
        let popped' = pop_nothing D (pop own).1 own_still in
        let own_still' = pop_empty (pop own).1 own_still in
        let (none_left, none_after) = steal_empty s.injector v.in_queue in
        let (none_left', none_after') = steal_empty (steal s.injector).1 none_after in
        ground (arith, nothing, still)
