-- ===== src/Task/Access.antt =====
-- The methods of `Task` in src/task/raw.rs on the word of a task, its run, and the function that the task
-- is scheduled by.
use loony_rs_runtime.Base.{
  ℕ, ◌^◌, ◌<◌, ◌==◌, ◌≡◌, ◌↔◌, refl, arith, Bool, true, false, Bool-cases, inl, inr, if◌then◌else◌,
}
use loony_rs_runtime.Task.State
use loony_rs_runtime.Task.State.{TaskState, idle, scheduled, from_bits, with_refcount}
use loony_rs_runtime.Task.State.Fields.{state_lem, refcount_lem, flags_lem}
use loony_rs_runtime.Task.Header.{Polled, Header, schedule, emit}
use loony_rs_runtime.Task.Wake
use loony_rs_runtime.Task.Raw

module _ {F T W : Type 0} where
  -- `Task::state`
  unfoldable pub state : Header F T W → TaskState
  state h = from_bits h.state

  unfoldable pub set_state : TaskState → Header F T W → Header F T W
  set_state s h = record h { state = s.bits }

  -- `Task::transition_state`: whether the exchange succeeds, and the task after it.
  unfoldable pub transition_state : TaskState → TaskState → Header F T W → Bool × Header F T W
  transition_state from to h =
      if h.state == from.bits then (true, record h { state = to.bits }) else (false, h)

  -- `schedule_fn`: a call of the scheduler's closure, if the pointer is set.
  unfoldable pub schedule_fn : Header F T W → Header F T W
  unfolding emit
  schedule_fn h = if h.scheduler then emit schedule h else h

-- `Task::run`, with fuel for the runs inside.
unfoldable pub run : {F T W : Type 0} → (F → Polled F T) → ℕ → Header F T W → Header F T W
run poll_future fuel h = Raw.poll poll_future fuel h

module _ {F T W : Type 0} where
  -- `Task::schedule` runs the task where there is no scheduler, and else calls it.
  schedule_task_lem :
      (poll_future : F → Polled F T) (fuel : ℕ) (h : Header F T W)
      → Wake.schedule_task (run poll_future fuel) h
        ≡ (if h.scheduler then schedule_fn h else run poll_future fuel h)
  unfolding Wake.schedule_task schedule_fn
  schedule_task_lem poll_future fuel h = elim (Bool-cases h.scheduler) [
    | inl on ↦ rw on refl
    | inr off ↦ rw off refl
  ]

  -- A transition from one of the four bare states succeeds exactly on a task in that state that has no
  -- flag and no waker, so never on a task that somebody may still wake; and then the word is the new one.
  pub transition_state_iff :
      (from to : TaskState) (h : Header F T W)
      → from.bits < 4
      → h.state < 2 ^ 32
      → ((transition_state from to h).0 ≡ true) ↔ (
          (State.state (state h) ≡ from.bits)
          × (State.flags (state h) ≡ 0)
          × (State.refcount (state h) ≡ 0))
  unfolding transition_state state
  transition_state_iff from to h bare fits = ground (
    arith,
    state_lem (from_bits h.state),
    flags_lem (from_bits h.state),
    refcount_lem (from_bits h.state),
  )

  -- A task that is set to a bare state has lost its flags and its count of wakers.
  pub set_state_forgets :
      (s : TaskState) (h : Header F T W)
      → s.bits < 4
      → (State.flags (state (set_state s h)) ≡ 0) × (State.refcount (state (set_state s h)) ≡ 0)
  unfolding set_state state
  set_state_forgets s h bare = ground (arith, flags_lem s, refcount_lem s)
