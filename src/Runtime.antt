-- ===== src/Runtime.antt =====
-- `Builder` of src/runtime/builder.rs and `Runtime` of src/runtime/mod.rs, over the two schedulers.
pub mod Built
pub mod Returns
pub mod Machine
use loony_rs_runtime.Base.{
  ℕ, zero, suc, ◌-◌, Bool, true, false, if◌then◌else◌, ltb, Option, none, some, List, [],
}
use loony_rs_runtime.MultiThread.Deque.{Deque}
use loony_rs_runtime.MultiThread.Shared
use loony_rs_runtime.MultiThread.BlockOn
use loony_rs_runtime.MultiThread.Shared.{Shared, new_shared, shutdown_workers}
use loony_rs_runtime.CurrentThread
use loony_rs_runtime.CurrentThread.{Outcome, done, unfinished, bind, Local}

pub data RuntimeFlavor : Type 0 where
  current_thread multi_thread : RuntimeFlavor

pub record Builder : Type 0 where
  pub worker_threads : ℕ
  pub flavor : RuntimeFlavor

-- `parallelism` is what `available_parallelism` answers, with `none` for its error.
unfoldable pub new_multi_thread : Option ℕ → Builder
new_multi_thread parallelism = record {
  worker_threads = elim parallelism [ none ↦ 1 | some n ↦ n ];
  flavor = multi_thread;
}

unfoldable pub new_current_thread : Builder
new_current_thread = record { worker_threads = 1; flavor = current_thread }

-- `Builder::worker_threads`
unfoldable pub with_worker_threads : ℕ → Builder → Builder
with_worker_threads val b = record b { worker_threads = if ltb val 1 then 1 else val }

pub data Result (E A : Type 0) : Type 0 where
  ok : A → Result E A
  err : E → Result E A

-- The state that a runtime is over.
pub data RuntimeKind (Task Queue : Type 0) : Type 0 where
  current_thread : Local Task → RuntimeKind Task Queue
  multi_thread : Shared Queue → RuntimeKind Task Queue

module _ {Task E : Type 0} (D : Deque Task) where
  open D use {Queue}

  -- `Builder::build`, on a thread with the tasks `left` in its queue. `failed` is the error of the
  -- first worker thread that does not start, if there is one.
  unfoldable pub build : Option E → List Task → Builder → Result E (RuntimeKind Task Queue)
  unfolding new_shared CurrentThread.new
  build failed left b = elim b.flavor [
    | multi_thread ↦ elim failed [
      | some e ↦ err e
      | none ↦ ok (multi_thread (new_shared D b.worker_threads))
    ]
    | current_thread ↦ ok (current_thread (CurrentThread.new left))
  ]

  -- `Runtime::new`
  unfoldable pub runtime_new : Option E → List Task → Option ℕ → Result E (RuntimeKind Task Queue)
  unfolding build new_multi_thread
  runtime_new failed left parallelism = build failed left (new_multi_thread parallelism)

module _ {Task : Type 0} (D : Deque Task) where
  open D use {Queue}

  -- `Runtime::spawn` of a future whose task is `t`.
  unfoldable pub spawn : Task → RuntimeKind Task Queue → Outcome (RuntimeKind Task Queue)
  unfolding Shared.spawn_task CurrentThread.spawn_task
  spawn t (current_thread rt) =
      bind (CurrentThread.spawn_task t rt) (λ rt'. done (current_thread rt'))
  spawn t (multi_thread rt) = done (multi_thread (Shared.spawn_task D t rt))

  -- `Drop for Runtime`
  unfoldable pub drop : RuntimeKind Task Queue → Outcome (RuntimeKind Task Queue)
  unfolding shutdown_workers CurrentThread.shutdown
  drop (current_thread rt) = bind (CurrentThread.shutdown rt) (λ rt'. done (current_thread rt'))
  drop (multi_thread rt) = done (multi_thread (shutdown_workers rt))

  -- `Runtime::block_on`, for so many polls; `spawns` is what a run of a task spawns, and a poll of the
  -- future answers what it spawns, what it has become and its output.
  module _ {F T : Type 0} (spawns : Task → List Task)
      (poll_future : F → List Task × F × Option T) where
    unfoldable pub block_on : ℕ → F → RuntimeKind Task Queue → Outcome (T × RuntimeKind Task Queue)
    unfolding CurrentThread.block_on BlockOn.block_on
    block_on polls f (current_thread rt) =
        bind (CurrentThread.block_on spawns poll_future polls f rt)
          (λ r. done (r.0, current_thread (r.1)))
    block_on polls f (multi_thread rt) = elim (BlockOn.block_on D spawns poll_future polls f rt) [
      | none ↦ unfinished
      | some (t, waited, rt') ↦ done (t, multi_thread rt')
    ]
