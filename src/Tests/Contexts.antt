-- ===== src/Tests/Contexts.antt =====
-- The context of a thread at concrete inputs.
use loony_rs_runtime.Base.{ℕ, ◌≡◌, false, some, none, List, [], ◌∷◌}
use loony_rs_runtime.Context.{Context, Op, enters, blocks, leaves}
use loony_rs_runtime.Context.Workers.{begin, clear, current_shared, current_worker, runs}
use loony_rs_runtime.Handle.{World, spawn, handle_spawn_task}
use loony_rs_runtime.Handle.Lost.{worker_loses_context}
use loony_rs_runtime.MultiThread.Shared.{new_shared}
use loony_rs_runtime.Tests.Workers.{lists}

-- A worker thread of the runtime 1.
abbrev worker_thread : Context
worker_thread = record { shared = some 1; worker = some 0 }

-- It enters the runtime 2, blocks on 3, and returns from that.
abbrev visits : List Op
visits = enters 2 ∷ blocks 3 ∷ leaves ∷ []

abbrev world : World (List ℕ)
world = record { shareds = λ s. new_shared lists 1; flags = λ f. false }

worker_loses_context_example :
    let c1 = runs (visits ∷ []) (begin 4 1 worker_thread) in
    let c2 = runs (visits ∷ visits ∷ []) (clear c1) in
    (spawn lists c1 9 world
      ≡ some (handle_spawn_task lists (record { shared = 4; shutdown = none }) 9 world))
    × (spawn lists c2 9 world ≡ none)
    × (current_shared c2 ≡ none)
    × (current_worker c2 ≡ some 1)
worker_loses_context_example =
    worker_loses_context lists 4 1 worker_thread (visits ∷ []) (visits ∷ visits ∷ []) 9 world
