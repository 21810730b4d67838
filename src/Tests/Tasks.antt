-- ===== src/Tests/Tasks.antt =====
-- Tasks at concrete inputs. The future yields a number of times, and then it is ready with 42.
use loony_rs_runtime.Base.{
  ℕ, zero, suc, ◌/◌, ◌%◌, ◌≤◌, ◌≡◌, ◌⊎◌, refl, arith, true, false, Option, some, none, [], ◌∷◌,
}
use loony_rs_runtime.Task.State.{TaskState, from_bits, is_running}
use loony_rs_runtime.Task.Header.{ready, pending, clone, wake_by_ref, Polled, pointer, Header}
use loony_rs_runtime.Task.Wake
use loony_rs_runtime.Task.Wake.Race.{
  System, stopped, Reach, begin, later, load, exchange, retry, give_up,
}
use loony_rs_runtime.Task.Wake.Arithmetic.{attempt_lem}
use loony_rs_runtime.Task.Wake.Race.Safety.{race_schedules_once, race_stops_taken}
use loony_rs_runtime.Task.Raw.{create_raw_task}
use loony_rs_runtime.Task.Raw.Ops.{waker_call, run, abort, join, steps}
use loony_rs_runtime.Task.Raw.Once.{schedules, scheduled_once}
use loony_rs_runtime.Task.Join
use loony_rs_runtime.Task.Join.{Joined, ok, err}
use loony_rs_runtime.Task.Join.Laws.{answer, join_answers}
use loony_rs_runtime.Task.Handle
use loony_rs_runtime.Task.Handle.{Answer, create_task, poll_task, garbage, panicked}
use loony_rs_runtime.Task.Handle.Laws.{woken_then_garbage}

abbrev yields : ℕ → Polled ℕ ℕ
yields zero = record { next = 0; calls = []; result = ready 42 }
yields (suc k) = record { next = k; calls = wake_by_ref ∷ []; result = pending }

-- It neither wakes its task nor gets ready.
abbrev sleeps : ℕ → Polled ℕ ℕ
sleeps k = record { next = k; calls = []; result = pending }

abbrev fresh : ℕ → Header ℕ ℕ ℕ
fresh k = record {
  state = 0x1_0000;
  scheduler = true;
  future = k;
  output = pointer;
  join_waker = none;
  events = [];
}

abbrev two_waiters : TaskState
two_waiters = from_bits 0x2_0009

scheduled_once_example :
    let h =
      steps {W = ℕ} yields
        (run ∷ waker_call clone ∷ join 7 ∷ run ∷ run ∷ abort ∷ run ∷ [])
        (create_raw_task 3) in
    (schedules h.events ≤ 1) × (is_running (from_bits h.state) ≡ false)
scheduled_once_example =
    scheduled_once yields 3 (run ∷ waker_call clone ∷ join 7 ∷ run ∷ run ∷ abort ∷ run ∷ [])

join_answers_example : Join.poll 1 7 (fresh 3) ≡ some (answer 7 (fresh 3))
join_answers_example = join_answers 0 7 (fresh 3)

abbrev idle_handle : Header ℕ (Option ℕ) ℕ
idle_handle = record {
  state = 0;
  scheduler = false;
  future = 0;
  output = pointer;
  join_waker = none;
  events = [];
}

woken_then_garbage_example :
    (Handle.poll 7 (Wake.wake_by_ref (poll_task {W = ℕ} sleeps 1) (create_task 3))).0
    ≡ ready Answer.garbage
woken_then_garbage_example = woken_then_garbage sleeps 0 7 3 refl refl

-- Threads 0 and 1 load the word, thread 0 wins, and thread 1 looks again and stops.
raced : (s : System) × Reach 0x1_0000 s × (s.pc 1 ≡ stopped)
raced = (
  _,
  later
      (later
        (later
          (later (later begin (load 0 0x1_0001 refl (attempt_lem 0x1_0000)))
            (load 1 0x1_0001 refl (attempt_lem 0x1_0000)))
          (exchange 0 0x1_0000 0x1_0001 refl refl))
        (retry 1 0x1_0000 0x1_0001 refl))
      (give_up 1 refl (attempt_lem 0x1_0001)),
  refl,
)

race_schedules_once_example : raced.0.schedules ≤ 1
race_schedules_once_example = race_schedules_once (omega arith) refl raced.1

race_stops_taken_example :
    (raced.0.schedules ≡ 1) ⊎ (raced.0.word % 4 ≡ 3) ⊎ (raced.0.word / 4 % 2 ≡ 1)
race_stops_taken_example = race_stops_taken (omega arith) refl raced.1 1 raced.2
