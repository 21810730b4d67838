-- ===== src/Task/Raw/Once.antt =====
-- How often a task is handed to its scheduler.
use loony_rs_runtime.Base.{
  ℕ, suc, ◌+◌, ◌%◌, ◌≤◌, ◌≡◌, ◌≢◌, refl, arith, Bool, true, false, List, [], ◌∷◌, ◌++◌, inl, inr,
  Option-cases, bit_or, if◌then◌else◌,
}
use loony_rs_runtime.Bits.{bit_or_three, bit_or_four, bit_or_eight}
use loony_rs_runtime.Task.State.{from_bits, with_refcount, is_running, aborted, complete}
use loony_rs_runtime.Task.State.Fields.{is_running_lem}
use loony_rs_runtime.Task.Header.{
  Poll, ready, pending, value, Polled, WakerCall, clone, wake, wake_by_ref, drop, Header, Event,
  schedule, woke, deallocate, frees_inside, out_of_fuel, abort_task, set_join_waker, release,
  clone_waker, drop_waker, wake_join,
}
use loony_rs_runtime.Task.Wake
use loony_rs_runtime.Task.Wake.Arithmetic.{attempt_lem}
use loony_rs_runtime.Task.Raw.{call, calls, finish, poll, create_raw_task}
use loony_rs_runtime.Task.Raw.Ops.{Op, waker_call, run, abort, join, step, steps}

-- The number of calls of the scheduler's function.
abbrev pub schedules : {W : Type 0} → List (Event W) → ℕ
schedules [] = 0
schedules (schedule ∷ es) = suc (schedules es)
schedules (woke w ∷ es) = schedules es
schedules (deallocate ∷ es) = schedules es
schedules (frees_inside ∷ es) = schedules es
schedules (out_of_fuel ∷ es) = schedules es

pub schedules-append :
    {W : Type 0} (es fs : List (Event W)) → schedules (es ++ fs) ≡ schedules es + schedules fs
schedules-append [] fs = omega arith
schedules-append (schedule ∷ es) fs = omega (arith, schedules-append es fs)
schedules-append (woke w ∷ es) fs = schedules-append es fs
schedules-append (deallocate ∷ es) fs = schedules-append es fs
schedules-append (frees_inside ∷ es) fs = schedules-append es fs
schedules-append (out_of_fuel ∷ es) fs = schedules-append es fs

module _ {F T W : Type 0} where
  pub record Inv (h : Header F T W) : Type 0 where
    pub has_scheduler : h.scheduler ≡ true
    pub once : schedules h.events ≤ 1
    pub idle_first : h.state % 4 ≡ 0 → schedules h.events ≡ 0
    pub never_running : h.state % 4 ≢ 2

  create-Inv : (f : F) → Inv (create_raw_task f)
  unfolding create_raw_task with_refcount
  create-Inv f = record {
    has_scheduler = refl;
    once = omega arith;
    idle_first = λ _. refl;
    never_running = omega arith;
  }

  if-Inv : (b : Bool) {g h : Header F T W} → Inv g → Inv h → Inv (if b then g else h)
  if-Inv true u v = u
  if-Inv false u v = v

  clone_waker-Inv : {h : Header F T W} → Inv h → Inv (clone_waker h)
  unfolding clone_waker
  clone_waker-Inv v = ground arith

  release-Inv : {h : Header F T W} → Inv h → Inv (release h)
  unfolding release
  release-Inv v = ground arith

  drop_waker-Inv : {h : Header F T W} → Inv h → Inv (drop_waker h)
  unfolding drop_waker
  drop_waker-Inv {h} v = ground (arith, schedules-append h.events (deallocate ∷ []))

  wake_join-Inv : {h : Header F T W} → Inv h → Inv (wake_join h)
  unfolding wake_join
  wake_join-Inv {h} v = elim (Option-cases h.join_waker) [
    | inl e ↦ ground arith
    | inr (w, e) ↦ ground (arith, schedules-append h.events (woke w ∷ []))
  ]

  set_join_waker-Inv : {h : Header F T W} (w : W) → Inv h → Inv (set_join_waker h w).0
  unfolding set_join_waker
  set_join_waker-Inv {h} w v = ground (arith, bit_or_eight h.state)

  abort_task-Inv : {h : Header F T W} → Inv h → Inv (abort_task h)
  unfolding abort_task
  abort_task-Inv {h} v = if-Inv _ (wake_join-Inv flagged) flagged
    where
      flagged : Inv (record h { state = bit_or h.state aborted.bits })
      flagged = ground (arith, bit_or_four h.state)

  finish-Inv : {h : Header F T W} (r : Poll T) → Inv h → Inv (finish h r)
  unfolding finish
  finish-Inv pending v = release-Inv v
  finish-Inv {h} (ready t) v = release-Inv (if-Inv _ (wake_join-Inv done) done)
    where
      done : Inv (record h { output = value t; state = bit_or h.state complete.bits })
      done = ground (arith, bit_or_three h.state)

  module _ (runs : Header F T W → Header F T W) where
    wake_by_ref-Inv : {h : Header F T W} → Inv h → Inv (Wake.wake_by_ref runs h)
    unfolding Wake.wake_by_ref
    wake_by_ref-Inv {h} v =
        ground (arith, attempt_lem h.state, schedules-append h.events (schedule ∷ []))

    call-Inv : (c : WakerCall) {h : Header F T W} → Inv h → Inv (call runs c h)
    unfolding call
    call-Inv clone v = clone_waker-Inv v
    call-Inv wake v = wake_by_ref-Inv v
    call-Inv wake_by_ref v = wake_by_ref-Inv v
    call-Inv drop v = drop_waker-Inv v

    calls-Inv : (cs : List WakerCall) {h : Header F T W} → Inv h → Inv (calls runs cs h)
    unfolding calls
    calls-Inv [] v = v
    calls-Inv (c ∷ cs) v = calls-Inv cs (call-Inv c v)

  module _ (poll_future : F → Polled F T) where
    poll-Inv : (fuel : ℕ) {h : Header F T W} → Inv h → Inv (poll poll_future (suc fuel) h)
    unfolding poll
    poll-Inv fuel {h} v = drop_waker-Inv (finish-Inv p.result (calls-Inv _ p.calls next_Inv))
      where
        p : Polled F T
        p = poll_future h.future

        next_Inv : Inv (record h { future = p.next })
        next_Inv = ground arith

    step-Inv : (o : Op W) {h : Header F T W} → Inv h → Inv (step poll_future o h)
    unfolding step
    step-Inv (waker_call c) v = call-Inv (poll poll_future 1) c v
    step-Inv run v = poll-Inv 0 v
    step-Inv abort v = abort_task-Inv v
    step-Inv (join w) v = set_join_waker-Inv w v

    steps-Inv : (os : List (Op W)) {h : Header F T W} → Inv h → Inv (steps poll_future os h)
    unfolding steps
    steps-Inv [] v = v
    steps-Inv (o ∷ os) v = steps-Inv os (step-Inv o v)

    -- Whatever happens to a task, it is handed to its scheduler at most once, and its state is
    -- never `RUNNING`.
    pub scheduled_once :
        (f : F) (os : List (Op W))
        → let h = steps poll_future os (create_raw_task f) in
          (schedules h.events ≤ 1) × (is_running (from_bits h.state) ≡ false)
    scheduled_once f os =
        let v = steps-Inv os (create-Inv f) in
        (
          v.once,
          ground (
            arith,
            v.never_running,
            is_running_lem (from_bits (steps poll_future os (create_raw_task f)).state),
          ),
        )
