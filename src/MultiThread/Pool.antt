-- ===== src/MultiThread/Pool.antt =====
-- All the workers of src/runtime/scheduler/multi_thread.rs at once, with the threads that spawn, those
-- that block and help, and the one that shuts down: `WorkerThread::run`, `MultiThread::spawn`,
-- `Shared::notify_worker` and `MultiThread::shutdown`. A step is an access to a queue, the flag or the
-- condition variable.
pub mod Places
pub mod Tasks
pub mod Awake
pub mod Wakes
pub mod Mutex
pub mod Shutdown
pub mod Stops
pub mod Active
use loony_rs_runtime.Base.{
  ℕ, suc, ◌+◌, ◌-◌, ◌^◌, ◌%◌, ◌≡◌, ◌≢◌, ltb, Bool, true, false, if◌then◌else◌, Option, none, some,
  List, [], ◌∷◌, get_elem?, set, update,
}
use loony_rs_runtime.MultiThread.Deque.{Deque}
use loony_rs_runtime.MultiThread.Shared.{Shared, new_shared, notify_worker, notify_all_workers}
use loony_rs_runtime.MultiThread.Steal.{to_option, steal_others, steal_work}
use loony_rs_runtime.MultiThread.Worker.{check_for_work}

-- Where a worker stands in `run`: at the test of the outer loop, at each of its three searches, before
-- the mutex, at the check for work and the test of the inner loop, which hold the mutex, in the wait,
-- past it but without the mutex, and at the end. A thread that does not exist is `stopped`.
pub data Pc : Type 0 where
  head popping stealing asking locking checking testing waiting woken stopped : Pc

-- How far `shutdown` is: before the store, before `notify_all`, and past it.
pub data Stage : Type 0 where
  running stored notified : Stage

-- `holder` has the mutex, and `notifying` threads have pushed and not yet notified. The lists log what
-- was pushed, what was run, and what was taken and dropped.
pub record System (Task Queue : Type 0) : Type 0 where
  pub shared : Shared Queue
  pub holder : Option ℕ
  pub pc : ℕ → Pc
  pub notifying : ℕ
  pub stage : Stage
  pub pushed : List Task
  pub ran : List Task
  pub dropped : List Task

-- `notify_all` on the condition variable.
unfoldable pub wake_up : Pc → Pc
wake_up waiting = woken
wake_up head = head
wake_up popping = popping
wake_up stealing = stealing
wake_up asking = asking
wake_up locking = locking
wake_up checking = checking
wake_up testing = testing
wake_up woken = woken
wake_up stopped = stopped

module _ {Task : Type 0} (D : Deque Task) where
  open D use {Queue, push, steal, pop}

  -- A search that found a task runs it and goes back to the head of the loop.
  unfoldable pub searched :
      ℕ → Pc → Option Task → Shared Queue → System Task Queue → System Task Queue
  searched i next (some t) sh s = record s { shared = sh; ran = t ∷ s.ran; pc = update s.pc i head }
  searched i next none sh s = record s { shared = sh; pc = update s.pc i next }

  -- A check that found a task drops it, and the worker leaves the mutex.
  unfoldable pub checked : ℕ → Option Task → Shared Queue → System Task Queue → System Task Queue
  checked i (some t) sh s = record s {
    shared = record sh { active = (sh.active + 1) % 2 ^ 64 };
    holder = none;
    dropped = t ∷ s.dropped;
    pc = update s.pc i head;
  }
  checked i none sh s = record s { shared = sh; pc = update s.pc i testing }

  -- A thread that blocks on a future runs a task that it has taken.
  unfoldable pub helped : Option Task × Shared Queue → System Task Queue → System Task Queue
  helped (some t, sh) s = record s { shared = sh; ran = t ∷ s.ran }
  helped (none, sh) s = record s { shared = sh }

  abbrev pub put : ℕ → Queue → Shared Queue → Shared Queue
  put i q sh = record sh { stealers = set sh.stealers i q }

  unfoldable pub after_check :
      ℕ → Option Task × Queue × Shared Queue → System Task Queue → System Task Queue
  unfolding checked
  after_check i (found, q, sh) s = checked i found (put i q sh) s

  -- The steps of a worker `i`.
  pub data Work (s : System Task Queue) (i : ℕ) : System Task Queue → Type 0 where
    enter :
        s.pc i ≡ head
        → s.shared.shutdown ≡ false
        → Work s i (record s { pc = update s.pc i popping })
    leave :
        s.pc i ≡ head
        → s.shared.shutdown ≡ true
        → Work s i (record s { pc = update s.pc i stopped })
    pops :
        (q : Queue)
        → s.pc i ≡ popping
        → get_elem? s.shared.stealers i ≡ some q
        → Work s i (searched i stealing (pop q).0 (put i (pop q).1 s.shared) s)
    steals :
        s.pc i ≡ stealing
        → Work s i (searched i asking (steal_others D i s.shared).0 (steal_others D i s.shared).1 s)
    asks :
        s.pc i ≡ asking
        → Work s i (
            searched i locking
              (to_option (steal s.shared.injector).0)
              (record s.shared { injector = (steal s.shared.injector).1 })
              s)
    lock :
        s.pc i ≡ locking
        → s.holder ≡ none
        → Work s i (record s {
          shared = record s.shared { active = (s.shared.active + 2 ^ 64 - 1) % 2 ^ 64 };
          holder = some i;
          pc = update s.pc i checking;
        })
    checks :
        (q : Queue)
        → s.pc i ≡ checking
        → get_elem? s.shared.stealers i ≡ some q
        → Work s i (after_check i (check_for_work D q s.shared) s)
    wait :
        s.pc i ≡ testing
        → s.shared.shutdown ≡ false
        → Work s i (record s { holder = none; pc = update s.pc i waiting })
    quit :
        s.pc i ≡ testing
        → s.shared.shutdown ≡ true
        → Work s i (record s {
          shared = record s.shared { active = (s.shared.active + 1) % 2 ^ 64 };
          holder = none;
          pc = update s.pc i head;
        })
    relock :
        s.pc i ≡ woken
        → s.holder ≡ none
        → Work s i (record s { holder = some i; pc = update s.pc i checking })

  -- The steps of the others, and the end of a wait for no reason.
  pub data Other (s : System Task Queue) : System Task Queue → Type 0 where
    help : Other s (helped (steal_work D s.shared) s)
    help_process : Other s (
        helped
          (
            to_option (steal s.shared.injector).0,
            record s.shared { injector = (steal s.shared.injector).1 },
          )
          s)
    spurious : (i : ℕ) → s.pc i ≡ waiting → Other s (record s { pc = update s.pc i woken })
    push_task :
        (t : Task)
        → Other s (record s {
          shared = record s.shared { injector = push t s.shared.injector };
          notifying = suc s.notifying;
          pushed = t ∷ s.pushed;
        })
    notify_waiting :
        (i n : ℕ)
        → s.holder ≡ none
        → s.notifying ≡ suc n
        → s.pc i ≡ waiting
        → Other s
            (record s { shared = notify_worker s.shared; notifying = n; pc = update s.pc i woken })
    notify_nobody :
        (n : ℕ)
        → s.holder ≡ none
        → s.notifying ≡ suc n
        → ((i : ℕ) → s.pc i ≢ waiting)
        → Other s (record s { shared = notify_worker s.shared; notifying = n })
    store :
        s.stage ≡ running
        → Other s (record s { shared = record s.shared { shutdown = true }; stage = stored })
    notify_all :
        s.stage ≡ stored
        → s.holder ≡ none
        → Other s (record s {
          shared = notify_all_workers s.shared;
          stage = notified;
          pc = λ i. wake_up (s.pc i);
        })

  pub data Step (s : System Task Queue) : System Task Queue → Type 0 where
    work : (i : ℕ) {t : System Task Queue} → Work s i t → Step s t
    other : {t : System Task Queue} → Other s t → Step s t

  -- `MultiThread::new`, once its threads run.
  unfoldable pub start : ℕ → System Task Queue
  start workers = record {
    shared = new_shared D workers;
    holder = none;
    pc = λ i. if ltb i workers then head else stopped;
    notifying = 0;
    stage = running;
    pushed = [];
    ran = [];
    dropped = [];
  }

  pub data Reach (workers : ℕ) : System Task Queue → Type 0 where
    begin : Reach workers (start workers)
    later : {s t : System Task Queue} → Reach workers s → Step s t → Reach workers t

  -- Any further steps, of which so many are those of workers.
  pub data Run (s : System Task Queue) : ℕ → System Task Queue → Type 0 where
    here : Run s 0 s
    works : {k : ℕ} {t u : System Task Queue} (i : ℕ) → Run s k t → Work t i u → Run s (suc k) u
    others : {k : ℕ} {t u : System Task Queue} → Run s k t → Other t u → Run s k u
