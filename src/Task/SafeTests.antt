-- ===== src/Task/SafeTests.antt =====
-- The tests of src/task/mod.safe.rs, each as the list of its assertions in their order.
use loony_rs_runtime.Base.{
  ℕ, ◌+◌, ◌==◌, ◌≡◌, refl, Bool, true, false, not, Option, none, some, List, [], ◌∷◌,
}
use loony_rs_runtime.Task.State.{is_idle, is_complete, is_aborted, with_refcount, refcount}
use loony_rs_runtime.Task.Header.{ready, pending, Polled, Header, value}
use loony_rs_runtime.Task.Raw.{create_raw_task}
use loony_rs_runtime.Task.Raw
use loony_rs_runtime.Task.Access.{state, run}
use loony_rs_runtime.Task.Join.{Joined, ok, err, aborted, abort}
use loony_rs_runtime.Task.Join
use loony_rs_runtime.Task.Yield.{YieldNow, yield_now, poll_yield, block_on}

-- The future of the first two tests: whether it has executed, and 42.
unfoldable forty_two : Bool → Polled Bool ℕ
forty_two executed = record { next = true; calls = []; result = ready 42 }

-- A task of that future. Nothing awaits the handle before `block_on`, whose waker is `tt`.
abbrev TestTask : Type 0
TestTask = Header Bool ℕ (Unit {0})

-- The join handle as a future.
unfoldable poll_handle : TestTask → Polled TestTask (Joined ℕ)
unfolding Join.poll
poll_handle h = elim (Join.poll 1 tt h) [
  | some (result, h') ↦ record { next = h'; calls = []; result = result }
  | none ↦ record { next = h; calls = []; result = pending }
]

-- `assert_eq!(result.unwrap(), 42)` and `assert!(matches!(result, Err(JoinError::Aborted)))`
unfoldable is_forty_two : Option (Joined ℕ) → Bool
is_forty_two (some (ok (value n))) = n == 42
is_forty_two _ = false

unfoldable is_aborted_error : Option (Joined ℕ) → Bool
is_aborted_error (some (err aborted)) = true
is_aborted_error _ = false

unfoldable test_task_creation : List Bool
unfolding create_raw_task run state forty_two poll_handle is_forty_two block_on
test_task_creation =
    let task : TestTask = create_raw_task false in
    let ran = run forty_two 1 task in
    is_idle (state task) ∷ is_complete (state ran) ∷ is_forty_two (block_on poll_handle 1 ran) ∷ []

unfoldable test_task_abort : List Bool
unfolding create_raw_task run state forty_two poll_handle is_aborted_error block_on abort
test_task_abort =
    let task : TestTask = create_raw_task false in
    let ran = run forty_two 1 (abort task) in
    is_aborted (state ran) ∷ not ran.future ∷ is_aborted_error (block_on poll_handle 1 ran) ∷ []

-- Where the body of the third test is: before its first line, or at one of its two yields.
data Place : Type 0 where
  start : Place
  first second : YieldNow → Place

-- The body with the variable `count`, which it hands out at its end.
unfoldable poll_second : ℕ → YieldNow → Polled (ℕ × Place) ℕ
poll_second count y =
    let p = poll_yield y in
    elim p.result [
      | pending ↦ record { next = (count, second p.next); calls = p.calls; result = pending }
      | ready _ ↦ record {
        next = (count + 1, second p.next);
        calls = p.calls;
        result = ready (count + 1);
      }
    ]

unfoldable poll_first : ℕ → YieldNow → Polled (ℕ × Place) ℕ
unfolding poll_second
poll_first count y =
    let p = poll_yield y in
    elim p.result [
      | pending ↦ record { next = (count, first p.next); calls = p.calls; result = pending }
      | ready _ ↦ poll_second (count + 1) yield_now
    ]

unfoldable counting : ℕ × Place → Polled (ℕ × Place) ℕ
unfolding poll_first
counting (count, start) = poll_first (count + 1) yield_now
counting (count, first y) = poll_first count y
counting (count, second y) = poll_second count y

unfoldable test_yield_now : List Bool
unfolding counting block_on poll_yield yield_now
test_yield_now = elim (block_on counting 3 (0, start)) [
  | some count ↦ (count == 3) ∷ []
  | none ↦ false ∷ []
]

-- All assertions hold but one: the future of the aborted task was executed.
tests_lem :
    (test_task_creation ≡ true ∷ true ∷ true ∷ [])
    × (test_task_abort ≡ true ∷ false ∷ true ∷ [])
    × (test_yield_now ≡ true ∷ [])
unfolding test_task_creation test_task_abort test_yield_now is_idle is_complete with_refcount
    Raw.poll refcount is_aborted
tests_lem = (refl, refl, refl)
