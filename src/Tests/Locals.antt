-- ===== src/Tests/Locals.antt =====
-- The current-thread scheduler with its tasks at concrete inputs.
use loony_rs_runtime.Base.{
  All, ◌≢◌, Option, if◌then◌else◌, ◌==◌, ℕ, zero, suc, ◌≡◌, refl, arith, true, false, none, some,
  List, [], ◌∷◌, ◌++◌, replicate,
}
use loony_rs_runtime.Task.Header.{
  ready, pending, clone, wake_by_ref, Polled, Header, Event, frees_inside, U32,
}
use loony_rs_runtime.Task.Handle.{ok, create_task, poll_task}
use loony_rs_runtime.Task.Handle.Nested.{nested_twice, unfinished_polls}
use loony_rs_runtime.CurrentThread.{new, done, panicked}
use loony_rs_runtime.CurrentThread.Tasks.{
  Machine, MainWaker, returned, asleep, start, poll_main, block_on,
}
use loony_rs_runtime.CurrentThread.Tasks.Joined.{local_join_frees}
use loony_rs_runtime.CurrentThread.Tasks.Woken.{waits_once_frees, waits_twice_sleeps}
use loony_rs_runtime.CurrentThread.Fifo.{
  Call, spawn, spawn_here, run, turn_for, close, ran, went_on, calls, answers,
}
use loony_rs_runtime.CurrentThread.Fifo.Refines.{calls_refine, view}

abbrev forty_two : U32
forty_two = (42, omega arith)

-- It keeps its waker and waits, so often, and then it is ready with 42.
abbrev waits : ℕ → Polled ℕ U32
waits zero = record { next = 0; calls = []; result = ready forty_two }
waits (suc n) = record { next = n; calls = clone ∷ []; result = pending }

-- It wakes itself and waits, so often.
abbrev yields : ℕ → Polled ℕ ℕ
yields zero = record { next = 0; calls = []; result = ready 42 }
yields (suc n) = record { next = n; calls = wake_by_ref ∷ []; result = pending }

-- A scheduler with the tasks 1 and 2, and room for a task 7.
abbrev two_tasks : Machine ℕ U32
two_tasks = record { local = new (1 ∷ 2 ∷ []); tasks = λ n. create_task n; notified = false }

two_tasks-free : two_tasks.local.borrowed ≡ false
unfolding new
two_tasks-free = refl

two_tasks-parker : two_tasks.local.parker ≡ true
unfolding new
two_tasks-parker = refl

two_tasks-fresh : All (λ k. k ≢ 7) two_tasks.local.queue
unfolding new
two_tasks-fresh = (omega arith, (omega arith, tt))

local_join_frees_example :
    (m : Machine ℕ U32) × (block_on waits (poll_main 7) 2 [] (start 0) two_tasks
      ≡ done (returned (ok forty_two), m))
    × (es : List (Event MainWaker)) × ((m.tasks 7).events ≡ es ++ frees_inside ∷ [])
local_join_frees_example =
    local_join_frees 7 waits 0 [] 0 forty_two two_tasks two_tasks-free two_tasks-parker
      two_tasks-fresh refl

waits_once_frees_example :
    (m : Machine ℕ U32) × (block_on waits (poll_main 7) 3 (7 ∷ []) (start 1) two_tasks
      ≡ done (returned (ok forty_two), m))
    × (es : List (Event MainWaker)) × ((m.tasks 7).events ≡ es ++ frees_inside ∷ [])
waits_once_frees_example =
    waits_once_frees waits 7 0 [] 1 forty_two two_tasks two_tasks-free two_tasks-parker
      two_tasks-fresh refl refl refl

waits_twice_sleeps_example :
    (m : Machine ℕ U32) × (block_on waits (poll_main 7) 2 (replicate 5 7) (start 2) two_tasks
      ≡ done (asleep, m))
waits_twice_sleeps_example =
    waits_twice_sleeps waits 7 0 5 2 two_tasks two_tasks-free two_tasks-parker two_tasks-fresh refl
      refl refl

nested_twice_example :
    let h : Header ℕ (Option ℕ) MainWaker = create_task 3 in
    (poll_task yields 9 h ≡ poll_task yields 2 h)
    × (unfinished_polls (poll_task yields 2 h).events ≡ unfinished_polls h.events)
nested_twice_example = nested_twice yields 7 (create_task 3)

-- The task 9 spawns the task 1.
abbrev nine_spawns : ℕ → List ℕ
nine_spawns n = if n == 9 then 1 ∷ [] else []

abbrev some_calls : List (Call ℕ)
some_calls =
    spawn 4 ∷ spawn_here 5 ∷ turn_for (some 3) ∷ spawn 9 ∷ close ∷ spawn 6 ∷ turn_for none ∷ []

some_calls-seen :
    answers nine_spawns some_calls (view (new (1 ∷ [])))
    ≡ done (ran (1 ∷ 4 ∷ 5 ∷ []) ∷ went_on true ∷ ran (6 ∷ []) ∷ went_on false ∷ [])
unfolding answers new
some_calls-seen = refl

nine_panics : answers nine_spawns (spawn 9 ∷ run ∷ []) (view (new [])) ≡ panicked
unfolding answers new
nine_panics = refl

one_task-free : (new {Task = ℕ} (1 ∷ [])).borrowed ≡ false
unfolding new
one_task-free = refl

calls_refine_example :
    calls nine_spawns some_calls (new (1 ∷ []))
    ≡ answers nine_spawns some_calls (view (new (1 ∷ [])))
calls_refine_example = calls_refine nine_spawns some_calls (new (1 ∷ [])) one_task-free
