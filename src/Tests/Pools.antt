-- ===== src/Tests/Pools.antt =====
-- A pool of two workers at concrete runs, with lists for the queues.
use loony_rs_runtime.Base.{ℕ, ◌+◌, ◌*◌, ◌≤◌, ◌<◌, ◌≡◌, ◌≢◌, ◌⊎◌, refl, arith, false, List, [], ◌∷◌}
use loony_rs_runtime.MultiThread.Steal.Conserve.{load, one}
use loony_rs_runtime.MultiThread.Pool.{
  System, Pc, head, waiting, stopped, Stage, notified, Work, enter, leave, pops, steals, asks,
  Other, work, other, push_task, notify_nobody, store, notify_all, Reach, begin, later, Run, here,
  works,
}
use loony_rs_runtime.MultiThread.Pool.Tasks.{pool_tasks}
use loony_rs_runtime.MultiThread.Pool.Places.{weights, asleep}
use loony_rs_runtime.MultiThread.Pool.Active.{active_counts}
use loony_rs_runtime.MultiThread.Pool.Wakes.{pool_wakes}
use loony_rs_runtime.MultiThread.Pool.Stops.{pool_stops}
use loony_rs_runtime.Tests.Workers.{lists, prompt}
use loony_rs_runtime.MultiThread.Pool
use loony_rs_runtime.MultiThread.Shared
use loony_rs_runtime.MultiThread.Steal

-- Tasks 5 and 6 are pushed while nobody waits.
loaded :
    (s : System ℕ (List ℕ)) × Reach lists 2 s
    × (s.notifying ≡ 0)
    × (s.shared.injector ≡ 5 ∷ 6 ∷ [])
    × (s.shared.shutdown ≡ false)
unfolding Pool.start Shared.new_shared Shared.notify_worker
loaded = (
  _,
  later
      (later (later (later begin (other (push_task 5))) (other (push_task 6)))
        (other (notify_nobody 1 refl refl (λ i. ground arith))))
      (other (notify_nobody 0 refl refl (λ i. ground arith))),
  refl,
  refl,
  refl,
)

pool_wakes_example : (i : ℕ) × (loaded.0.pc i ≢ waiting) × (loaded.0.pc i ≢ stopped)
pool_wakes_example =
    pool_wakes lists 2 prompt (omega arith) loaded.1 loaded.4 loaded.2
      (λ e. absurd (cc (e, loaded.3)))

-- Worker 1 then finds nothing in the queues of the workers, and runs task 5 of the injector.
ran_one :
    (s : System ℕ (List ℕ)) × Reach lists 2 s × (s.ran ≡ 5 ∷ []) × (s.shared.injector ≡ 6 ∷ [])
unfolding Pool.start Shared.new_shared Shared.notify_worker Pool.searched Steal.steal_others
    Steal.steal_ring Steal.target loaded
ran_one = (
  _,
  later
      (later (later (later loaded.1 (work 1 (enter refl refl))) (work 1 (pops [] refl refl)))
        (work 1 (steals refl)))
      (work 1 (asks refl)),
  refl,
  refl,
)

pool_tasks_example : 2 ≡ 1 + 0 + load lists (one lists) ran_one.0.shared
unfolding loaded ran_one
pool_tasks_example = pool_tasks lists (one lists) ran_one.1

-- The shutdown comes before either worker has looked for work, and worker 0 ends.
shut :
    (s : System ℕ (List ℕ)) × Reach lists 2 s
    × (s.stage ≡ notified)
    × (t : System ℕ (List ℕ)) × Run lists s 1 t
unfolding Pool.start Pool.wake_up Shared.new_shared Shared.notify_all_workers
shut = (
  _,
  later (later begin (other (store refl))) (other (notify_all refl refl)),
  refl,
  _,
  works 0 here (leave refl refl),
)

pool_stops_example :
    (1 ≤ 7 * 2)
    × (((i : ℕ) → i < 2 → shut.3.pc i ≡ stopped)
        ⊎ ((i : ℕ) × (u : System ℕ (List ℕ)) × Work lists shut.3 i u))
pool_stops_example = pool_stops lists 2 shut.1 shut.2 shut.4

active_counts_example : ran_one.0.shared.active + weights asleep ran_one.0.pc 2 ≡ 2
active_counts_example = active_counts lists 2 (omega arith) ran_one.1
