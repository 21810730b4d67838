-- ===== src/Handle/Process.antt =====
-- `process_some_tasks` against a queue that is a list.
use loony_rs_runtime.Base.{ℕ, zero, suc, ◌≡◌, ◌≢◌, refl, sym, ap, ◌∙◌, Option, List, [], ◌∷◌, ◌++◌}
use mathlib.Core.List.{append-nil, append_assoc}
use loony_rs_runtime.MultiThread.Deque.{Deque, Steal, empty, retry, success, Steals}
use loony_rs_runtime.MultiThread.Shared.{Shared, spawn_task, notify_worker}
use loony_rs_runtime.Handle.BlockOn.{spawn_all, process, process_some_tasks}

module _ {Task : Type 0} (D : Deque Task) where
  open D use {Queue, push}

  pub spawn_task-injector :
      (t : Task) (s : Shared Queue) → (spawn_task D t s).injector ≡ push t s.injector
  unfolding spawn_task notify_worker
  spawn_task-injector t s = pushed s.unparkers
    where
      pushed :
          (us : List (Option ℕ))
          → (spawn_task D t (record s { unparkers = us })).injector ≡ push t s.injector
      pushed [] = refl
      pushed (u ∷ us) = refl

module _ {Task : Type 0} (D : Deque Task) (spawns : Task → List Task) where
  open D use {Queue, view, steal, view-push, steal-Steals}

  -- So many tasks from the front, each followed by what it spawns at the back.
  abbrev pub fifo : ℕ → List Task → List Task × List Task
  fifo zero ts = ([], ts)
  fifo (suc n) [] = ([], [])
  fifo (suc n) (t ∷ ts) = let (ran, left) = fifo n (ts ++ spawns t) in (t ∷ ran, left)

  view-spawn_all :
      (ts : List Task) (s : Shared Queue)
      → view (spawn_all D spawns ts s).injector ≡ view s.injector ++ ts
  unfolding spawn_all
  view-spawn_all [] s = sym (append-nil (view s.injector))
  view-spawn_all (t ∷ ts) s =
      view-spawn_all ts (spawn_task D t s)
      ∙ ap (λ q. view q ++ ts) (spawn_task-injector D t s)
      ∙ ap (λ xs. xs ++ ts) (view-push t s.injector)
      ∙ append_assoc (view s.injector) (t ∷ []) ts

  module _ (prompt : (q : Queue) → (steal q).0 ≢ retry) where
    process_rounds :
        (n : ℕ) (s : Shared Queue)
        → let (ran, s') = process D spawns n s in (ran, view s'.injector) ≡ fifo n (view s.injector)
    unfolding process
    process_rounds zero s = refl
    process_rounds (suc n) s =
        go (steal s.injector).0 (view s.injector) refl (steal-Steals s.injector) (prompt s.injector)
          (process_rounds n)
      where
        left : Queue
        left = (steal s.injector).1

        go :
            (r : Steal Task) (before : List Task)
            → (steal s.injector).0 ≡ r
            → Steals r before (view left)
            → r ≢ retry
            → ((s' : Shared Queue)
                → let (ran, u) = process D spawns n s' in
                  (ran, view u.injector) ≡ fifo n (view s'.injector))
            → let (ran, u) = process D spawns (suc n) s in
              (ran, view u.injector) ≡ fifo (suc n) before
        go empty before e h p rest = rw (h.0, process, e) (ap (λ (v : List Task). ([], v)) h.1)
        go retry before e h p rest = absurd (p refl)
        go (success t) before e h p rest =
            rw (h, process, e)
              (ap (λ (r : List Task × List Task). (t ∷ r.0, r.1))
                (rest (spawn_all D spawns (spawns t) (record s { injector = left }))
                  ∙ ap (fifo n) (view-spawn_all (spawns t) (record s { injector = left }))))

    -- Where no steal has to be retried, `process_some_tasks` runs ten tasks of the injector in order,
    -- or all that there are if they are fewer, those that they spawn included, and leaves the rest.
    pub process_some_tasks_lem :
        (s : Shared Queue)
        → let (ran, s') = process_some_tasks D spawns s in
          (ran, view s'.injector) ≡ fifo 10 (view s.injector)
    unfolding process_some_tasks
    process_some_tasks_lem s = process_rounds 10 s
