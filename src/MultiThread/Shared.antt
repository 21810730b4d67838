-- ===== src/MultiThread/Shared.antt =====
-- `Shared`: the state that the workers, the handles and the scheduler share, and what is done to it.
pub mod Notify
pub mod Reads
use loony_rs_runtime.Base.{
  ℕ, zero, suc, ◌+◌, ◌-◌, ◌%◌, ◌^◌, ◌==◌, Bool, true, false, if◌then◌else◌, Option, none, some,
  List, [], ◌∷◌, ◌++◌, length, get_elem?, replicate,
}
use loony_rs_runtime.MultiThread.Deque.{Deque, Steal, empty, retry, success}

-- An `Arc<ThreadUnpark>` is the thread that it holds. `last_notified` is the static of that name in
-- `notify_worker`. The log counts the calls of `notify_one` and `notify_all` on the condition
-- variable, and lists the threads that were unparked, oldest first.
pub record Shared (Queue : Type 0) : Type 0 where
  pub injector : Queue
  pub stealers : List Queue
  pub unparkers : List (Option ℕ)
  pub active : ℕ
  pub shutdown : Bool
  pub last_notified : ℕ
  pub notified_one : ℕ
  pub notified_all : ℕ
  pub unparked : List ℕ

-- `ThreadUnpark::unpark`
unfoldable pub unpark : Option ℕ → List ℕ → List ℕ
unpark none log = log
unpark (some t) log = log ++ t ∷ []

-- `ThreadUnpark::park`, by the thread `me`: the only place that sets the thread.
unfoldable pub park : ℕ → Option ℕ → Option ℕ
park me old = some me

unfoldable pub unpark_all : List (Option ℕ) → List ℕ → List ℕ
unfolding unpark
unpark_all [] log = log
unpark_all (u ∷ us) log = unpark_all us (unpark u log)

module _ {Queue : Type 0} where
  unfoldable pub notify_worker : Shared Queue → Shared Queue
  unfolding unpark
  notify_worker s =
      let rung = record s { notified_one = s.notified_one + 1 } in
      elim s.unparkers [
        | [] ↦ rung
        | u ∷ us ↦ record rung {
          last_notified = (s.last_notified + 1) % 2 ^ 64;
          unparked = elim (get_elem? (u ∷ us) (s.last_notified % length (u ∷ us))) [
            | none ↦ s.unparked
            | some v ↦ unpark v s.unparked
          ];
        }
      ]

  unfoldable pub notify_all_workers : Shared Queue → Shared Queue
  unfolding unpark_all
  notify_all_workers s = record s {
    notified_all = s.notified_all + 1;
    unparked = unpark_all s.unparkers s.unparked;
  }

  -- `MultiThread::notify_worker`
  unfoldable pub notify_first : Shared Queue → Shared Queue
  unfolding unpark
  notify_first s = elim s.unparkers [
    | [] ↦ s
    | u ∷ us ↦ record s { unparked = unpark u s.unparked }
  ]

  -- `MultiThread::shutdown` as far as it is about the shared state; the workers are joined after it.
  unfoldable pub shutdown_workers : Shared Queue → Shared Queue
  unfolding notify_all_workers
  shutdown_workers s = notify_all_workers (record s { shutdown = true })

module _ {Task : Type 0} (D : Deque Task) where
  open D use {Queue, new, push, steal, len}

  -- `MultiThread::new`, before the threads start.
  unfoldable pub new_shared : ℕ → Shared Queue
  new_shared num_threads = record {
    injector = new;
    stealers = replicate num_threads new;
    unparkers = replicate num_threads none;
    active = num_threads;
    shutdown = false;
    last_notified = 0;
    notified_one = 0;
    notified_all = 0;
    unparked = [];
  }

  -- The pushing half of `MultiThread::spawn`, and `Handle::spawn_task`.
  unfoldable pub spawn_task : Task → Shared Queue → Shared Queue
  unfolding notify_worker
  spawn_task t s = notify_worker (record s { injector = push t s.injector })

  -- The loop of `approx_task_count`: one steal from each queue, and the tasks are not put back.
  unfoldable pub count_stealers : List Queue → ℕ × List Queue
  count_stealers [] = (0, [])
  count_stealers (q ∷ qs) =
      let (n, rest) = count_stealers qs in
      let (r, q') = steal q in (elim r [ success _ ↦ n + 1 | empty ↦ n | retry ↦ n ], q' ∷ rest)

  unfoldable pub approx_task_count : Shared Queue → ℕ × Shared Queue
  unfolding count_stealers
  approx_task_count s =
      let (n, qs) = count_stealers s.stealers in (len s.injector + n, record s { stealers = qs })
