-- ===== src/Handle/Lost.antt =====
-- What the tasks of a worker can still spawn on.
use loony_rs_runtime.Base.{ℕ, ◌≡◌, ap, ◌∙◌, none, some, List}
use loony_rs_runtime.MultiThread.Deque.{Deque}
use loony_rs_runtime.Context.{Context, Op, current}
use loony_rs_runtime.Context.Workers.{begin, clear, current_shared, current_worker, runs, runs_lem}
use loony_rs_runtime.Handle.{World, spawn, handle_spawn_task, current_handle}

module _ {Task : Type 0} (D : Deque Task) where
  open D use {Queue}

  -- A worker of the runtime `own` runs some tasks, and the function `spawn` puts a task in the injector of
  -- `own`. Then one of them shuts another multi-thread runtime down, and the worker runs further tasks: they
  -- have no current runtime, and `spawn` panics, although the worker is still one of `own`.
  pub worker_loses_context :
      (own index : ℕ) (c : Context) (before after : List (List Op)) (t : Task) (w : World Queue)
      → let c1 = runs before (begin own index c) in
        let c2 = runs after (clear c1) in
        (spawn D c1 t w ≡ some (handle_spawn_task D (record { shared = own; shutdown = none }) t w))
        × (spawn D c2 t w ≡ none)
        × (current_shared c2 ≡ none)
        × (current_worker c2 ≡ some index)
  unfolding spawn current_handle begin clear current current_shared current_worker
  worker_loses_context own index c before after t w =
      let kept = runs_lem before (begin own index c) in
      let lost = runs_lem after (clear (runs before (begin own index c))) ∙ ap clear kept in
      (
        ap (λ x. spawn D x t w) kept,
        ap (λ x. spawn D x t w) lost,
        ap current_shared lost,
        ap current_worker lost,
      )
