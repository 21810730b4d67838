-- ===== src/Tests/Machines.antt =====
-- A worker and its tasks at concrete inputs, with lists for the queues.
use loony_rs_runtime.Base.{arith, ℕ, if◌then◌else◌, ◌==◌, ◌++◌, zero, suc, ◌≡◌, refl, List, [], ◌∷◌}
use loony_rs_runtime.Task.Header.{ready, pending, wake_by_ref, Polled, Header, Usize}
use loony_rs_runtime.Task.Raw
use loony_rs_runtime.Task.Raw.Once.{schedules}
use loony_rs_runtime.Task.Join.{Joined}
use loony_rs_runtime.Task.Join
use loony_rs_runtime.MultiThread.Shared.{new_shared}
use loony_rs_runtime.Runtime.Machine.{Machine, spawn, rounds}
use loony_rs_runtime.Runtime.Machine.Rounds.{Holds}
use loony_rs_runtime.Runtime.Machine.Queued.{Has}
use loony_rs_runtime.Runtime.Machine.Joined.{spawned_polls}
use loony_rs_runtime.Runtime.Machine.Fair.{RanOnce, woken_by, fair_rounds}
use loony_rs_runtime.Runtime.Machine.Spawned.{Job}
use loony_rs_runtime.Runtime.Machine.Awaited.{overflows, block_on_handle}
use loony_rs_runtime.Runtime.Machine.Helped.{yield_overflows}
use loony_rs_runtime.Tests.Workers.{lists, prompt}

-- It wakes itself and yields, so often, and then it is ready with 42.
abbrev yields : ℕ → Polled ℕ ℕ
yields zero = record { next = 0; calls = []; result = ready 42 }
yields (suc n) = record { next = n; calls = wake_by_ref ∷ []; result = pending }

abbrev idle : Machine (List ℕ) ℕ ℕ ℕ
idle = record { shared = new_shared lists 3; own = []; tasks = λ n. Raw.create_raw_task 9 }

idle-Holds : Holds lists [] idle.own idle.shared
unfolding new_shared
idle-Holds = record { own_empty = refl; others_empty = refl; in_queue = refl; open_still = refl }

spawned_polls_example :
    let h : Header ℕ ℕ ℕ = Raw.poll yields 1 (Raw.create_raw_task 5) in
    (rounds lists yields 4 0 (spawn lists 7 5 idle)).tasks 7
    ≡ elim (schedules h.events) [ zero ↦ h | suc _ ↦ Raw.poll yields 1 h ]
spawned_polls_example = spawned_polls lists yields prompt 2 0 7 5 idle idle-Holds

-- The tasks 3, 7 and 5 are queued: the second is ready, the others wake themselves.
abbrev three_queued : Machine (List ℕ) ℕ ℕ ℕ
three_queued = record {
  shared = record (new_shared lists 2) { injector = 3 ∷ 7 ∷ 5 ∷ [] };
  own = [];
  tasks = λ n. Raw.create_raw_task (if n == 7 then 0 else 4);
}

three_queued-Holds : Holds lists (3 ∷ 7 ∷ 5 ∷ []) three_queued.own three_queued.shared
unfolding new_shared
three_queued-Holds = record {
  own_empty = refl;
  others_empty = refl;
  in_queue = refl;
  open_still = refl;
}

fair_rounds_example :
    let m = rounds lists yields 2 0 three_queued in
    RanOnce lists yields three_queued m (3 ∷ 7 ∷ [])
    × Has lists yields (5 ∷ [] ++ woken_by lists yields three_queued (3 ∷ 7 ∷ [])) m
fair_rounds_example =
    fair_rounds lists yields prompt (3 ∷ 7 ∷ []) (5 ∷ []) 0 three_queued
      ((omega arith, tt), (tt, tt)) three_queued-Holds

abbrev forty_two : Usize
forty_two = (42, omega arith)

-- It wakes itself and yields, so often, and then it is ready with a `usize`.
abbrev yields_usize : ℕ → Polled ℕ Usize
yields_usize zero = record { next = 0; calls = []; result = ready forty_two }
yields_usize (suc n) = record { next = n; calls = wake_by_ref ∷ []; result = pending }

abbrev idle_usize : Machine (List ℕ) ℕ Usize ℕ
idle_usize = record { shared = idle.shared; own = []; tasks = λ n. Raw.create_raw_task 9 }

abbrev two_jobs : List (Job ℕ Usize)
two_jobs = (7, 0, forty_two) ∷ (8, 0, forty_two) ∷ []

yield_overflows_example : block_on_handle lists yields 5 100 7 3 (spawn lists 7 4 idle) ≡ overflows
yield_overflows_example = yield_overflows lists yields prompt 3 99 7 4 3 idle idle-Holds refl refl

-- Every task is complete, and yields three times more if it is polled.
abbrev all_complete : Machine (List ℕ) ℕ ℕ ℕ
all_complete = record idle { tasks = λ n. record (Raw.create_raw_task 3) { state = 65539 } }
