-- ===== src/MultiThread/Worker/Lost.antt =====
-- What becomes of the tasks that a worker takes out of the queues.
use loony_rs_runtime.Base.{
  ℕ, ◌+◌, ◌≡◌, ◌≢◌, refl, sym, ap, ◌∙◌, arith, Option, none, some, List, [], ◌∷◌, ◌++◌, total,
}
use mathlib.Core.List.{append-nil, append_assoc}
use loony_rs_runtime.MultiThread.Deque.{Deque, Steal, empty, retry, success, Steals, Pops}
use loony_rs_runtime.MultiThread.Shared.{Shared}
use loony_rs_runtime.MultiThread.Steal.{steal_others}
use loony_rs_runtime.MultiThread.Steal.Conserve.{
  queued, load, held, steal-queued, steal_others-load,
}
use loony_rs_runtime.MultiThread.Worker.{runs, drops, push_all, find_task, wake_round}

module _ {Task : Type 0} (D : Deque Task) where
  open D use {Queue, view, push, steal, pop, view-push, steal-Steals, pop-Pops}

  module _ (weight : Task → ℕ) where
    pub pop-queued :
        (q : Queue) → queued D weight q ≡ held D weight (pop q).0 + queued D weight (pop q).1
    pop-queued q = go (pop q).0 (view q) (view (pop q).1) (pop-Pops q)
      where
        go :
            (r : Option Task) (before after : List Task)
            → Pops r before after
            → total weight before ≡ held D weight r + total weight after
        go none before after h = rw (h.0, h.1) refl
        go (some t) before after h = rw h refl

    -- The search takes exactly the task that it finds out of the queues.
    pub find_task-load :
        (index : ℕ) (own : Queue) (s : Shared Queue)
        → let (found, own', s') = find_task D index own s in
          queued D weight own + load D weight s
          ≡ held D weight found + queued D weight own' + load D weight s'
    unfolding find_task
    find_task-load index own s = ground (
      arith,
      pop-queued own,
      steal_others-load D weight index s,
      steal-queued D weight (steal_others D index s).1.injector,
    )

  view-push_all :
      (ts : List Task) (s : Shared Queue) → view (push_all D ts s).injector ≡ view s.injector ++ ts
  unfolding push_all
  view-push_all [] s = sym (append-nil (view s.injector))
  view-push_all (t ∷ ts) s =
      view-push_all ts (record s { injector = push t s.injector })
      ∙ ap (λ xs. xs ++ ts) (view-push t s.injector)
      ∙ append_assoc (view s.injector) (t ∷ []) ts

  pub pop_nothing : (q : Queue) → view q ≡ [] → (pop q).0 ≡ none
  pop_nothing q e = go (pop q).0 (pop-Pops q)
    where
      go : (r : Option Task) → Pops r (view q) (view (pop q).1) → r ≡ none
      go none h = refl
      go (some t) h = absurd (cc)

  pub steal_head :
      (q : Queue) (t : Task) (ts : List Task)
      → view q ≡ t ∷ ts
      → (steal q).0 ≢ retry
      → (steal q).0 ≡ success t
  steal_head q t ts e prompt = go (steal q).0 (steal-Steals q) prompt
    where
      go : (r : Steal Task) → Steals r (view q) (view (steal q).1) → r ≢ retry → r ≡ success t
      go empty h p = absurd (cc h.0)
      go retry h p = absurd (p refl)
      go (success u) h p = cc

  -- A worker that was woken runs nothing before it sleeps, stops or goes back to its search.
  pub woken_runs_nothing :
      (arrived : List Task) (own : Queue) (s : Shared Queue) (t : Task)
      → (wake_round D arrived own s).0 ≢ runs t
  unfolding wake_round
  woken_runs_nothing arrived own s t e = ground arith

  -- A task that arrives while all queues that the worker checks are empty is dropped unrun by the
  -- worker that it wakes, unless the steal has to be retried.
  pub woken_drops_first :
      (t : Task) (ts : List Task) (own : Queue) (s : Shared Queue)
      → view own ≡ []
      → view s.injector ≡ []
      → (steal (push_all D (t ∷ ts) s).injector).0 ≢ retry
      → (wake_round D (t ∷ ts) own s).0 ≡ drops t
  unfolding wake_round
  woken_drops_first t ts own s none_own none_shared prompt =
      let found = view-push_all (t ∷ ts) s ∙ ap (λ xs. xs ++ t ∷ ts) none_shared in
      ground (
        arith,
        pop_nothing own none_own,
        steal_head (push_all D (t ∷ ts) s).injector t ts found prompt,
      )
