-- ===== src/Context/Workers.antt =====
-- The thread-locals of a worker: `WorkerThread::run` and the end of `MultiThread::shutdown` in
-- src/runtime/scheduler/multi_thread.rs.
use loony_rs_runtime.Base.{ℕ, ◌≡◌, refl, ◌∙◌, Option, none, some, List, [], ◌∷◌}
use loony_rs_runtime.Context.{Context, Op, acts, unwind}
use loony_rs_runtime.Context.Guards.{guards_restore}

-- What `run` sets before its loop, and what it clears after it.
unfoldable pub begin : ℕ → ℕ → Context → Context
begin shared index c = record { shared = some shared; worker = some index }

unfoldable pub finish : Context → Context
finish c = record { shared = none; worker = none }

-- What `MultiThread::shutdown` clears on the thread that calls it.
unfoldable pub clear : Context → Context
clear c = record c { shared = none }

unfoldable pub current_shared : Context → Option ℕ
current_shared c = c.shared

unfoldable pub current_worker : Context → Option ℕ
current_worker c = c.worker

-- The runs of some tasks, each with the guards that it makes and drops; those that it has not dropped
-- at its end are dropped then.
unfoldable pub runs : List (List Op) → Context → Context
runs [] c = c
runs (os ∷ tasks) c = runs tasks (unwind (acts os ([], c)).0 (acts os ([], c)).1)

pub runs_lem : (tasks : List (List Op)) (c : Context) → runs tasks c ≡ c
unfolding runs
runs_lem [] c = refl
runs_lem (os ∷ tasks) c = runs_lem tasks _ ∙ guards_restore os c
