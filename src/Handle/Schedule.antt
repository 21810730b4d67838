-- ===== src/Handle/Schedule.antt =====
-- The functions that `create_task` and `create_task_with_shared` of src/task/mod.safe.rs give to a task
-- to schedule it by.
use loony_rs_runtime.Base.{
  ℕ, ℕ_discrete, ◌==◌, ==_iff, ◌≡◌, refl, ap, ◌∙◌, arith, if◌then◌else◌, none, some, [], ◌∷◌, ◌++◌,
  update,
}
use mathlib.Core.Path.{subst}
use loony_rs_runtime.MultiThread.Deque.{Deque}
use loony_rs_runtime.MultiThread.Shared.{spawn_task}
use loony_rs_runtime.Context.{Context, current}
use loony_rs_runtime.Handle.{World, current_handle, handle_spawn_task}
use loony_rs_runtime.Handle.Process.{spawn_task-injector}

module _ {Task : Type 0} (D : Deque Task)
    (run : Task → World (Deque.Queue D) → World (Deque.Queue D)) where
  open D use {Queue, view, view-push}

  -- That of `create_task`, on a thread with the context `c`; `run` is `Task::run`.
  unfoldable pub schedule_current : Context → Task → World Queue → World Queue
  unfolding current_handle handle_spawn_task
  schedule_current c t w = elim (current_handle c) [
    | some h ↦ handle_spawn_task D h t w
    | none ↦ run t w
  ]

  -- That of `create_task_with_shared`, with the shared state `own`.
  unfoldable pub schedule_shared : ℕ → Task → World Queue → World Queue
  unfolding handle_spawn_task
  schedule_shared own t w = record w {
    shareds = update w.shareds own (spawn_task D t (w.shareds own));
  }

  -- A task of `create_task` that is woken on a thread of the runtime `here` goes to the back of the
  -- injector there, and no other injector changes: the scheduler that the task was made with plays
  -- no part.
  pub woken_goes_to_current :
      (c : Context) (t : Task) (w : World Queue) (here other : ℕ)
      → c.shared ≡ some here
      → view ((schedule_current c t w).shareds other).injector ≡ (
          if here == other
          then view (w.shareds other).injector ++ t ∷ []
          else view (w.shareds other).injector)
  unfolding schedule_current current_handle handle_spawn_task current
  woken_goes_to_current c t w here other e =
      let pushed =
        ap view (spawn_task-injector D t (w.shareds here))
        ∙ view-push t (w.shareds here).injector in
      elim (ℕ_discrete here other) [
        | yes same ↦
            subst
              (λ o. view ((schedule_current c t w).shareds o).injector ≡ (
                if here == o
                then view (w.shareds o).injector ++ t ∷ []
                else view (w.shareds o).injector))
              same (ground (arith, pushed, (==_iff here here).1 refl))
        | no apart ↦ ground (arith, ==_iff here other)
      ]
