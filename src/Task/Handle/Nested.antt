-- ===== src/Task/Handle/Nested.antt =====
-- How deep the polls of a task of src/task/mod.rs run inside each other: its waker, called while its
-- future is polled, polls the same future again.
use loony_rs_runtime.Base.{
  ℕ, suc, ◌+◌, ◌%◌, ◌≡◌, ◌≢◌, refl, ap, ◌∙◌, arith, inl, inr, Option, List, [], ◌∷◌, ◌++◌,
  Option-cases,
}
use loony_rs_runtime.Task.Header.{
  Poll, ready, pending, WakerCall, clone, wake, wake_by_ref, drop, Polled, Header, Event, schedule,
  woke, deallocate, frees_inside, out_of_fuel, clone_waker, drop_waker,
}
use loony_rs_runtime.Task.Raw.{call, calls}
use loony_rs_runtime.Task.Wake
use loony_rs_runtime.Task.Wake.Arithmetic.{attempt_lem}
use loony_rs_runtime.Task.Handle.{poll_task, finish_task}
use loony_rs_runtime.Task.Raw.Keeps.{absorbed_wake, busy-Keeps}

-- The number of polls for which the fuel did not suffice.
abbrev pub unfinished_polls : {W : Type 0} → List (Event W) → ℕ
unfinished_polls [] = 0
unfinished_polls (out_of_fuel ∷ es) = suc (unfinished_polls es)
unfinished_polls (woke w ∷ es) = unfinished_polls es
unfinished_polls (schedule ∷ es) = unfinished_polls es
unfinished_polls (deallocate ∷ es) = unfinished_polls es
unfinished_polls (frees_inside ∷ es) = unfinished_polls es

unfinished_polls-append :
    {W : Type 0} (es fs : List (Event W))
    → unfinished_polls (es ++ fs) ≡ unfinished_polls es + unfinished_polls fs
unfinished_polls-append [] fs = omega arith
unfinished_polls-append (out_of_fuel ∷ es) fs = omega (arith, unfinished_polls-append es fs)
unfinished_polls-append (woke w ∷ es) fs = unfinished_polls-append es fs
unfinished_polls-append (schedule ∷ es) fs = unfinished_polls-append es fs
unfinished_polls-append (deallocate ∷ es) fs = unfinished_polls-append es fs
unfinished_polls-append (frees_inside ∷ es) fs = unfinished_polls-append es fs

module _ {F T W : Type 0} where
  -- Two functions that run an idle task alike once it was marked as scheduled.
  abbrev Alike : (run run' : Header F (Option T) W → Header F (Option T) W) → Type 0
  Alike run run' = (h : Header F (Option T) W) → h.state % 4 ≡ 1 → run h ≡ run' h

  wakes-Alike :
      (run run' : Header F (Option T) W → Header F (Option T) W)
      → Alike run run'
      → (h : Header F (Option T) W) → Wake.wake_by_ref run h ≡ Wake.wake_by_ref run' h
  unfolding Wake.wake_by_ref
  wakes-Alike run run' alike h =
      ground (arith, attempt_lem h.state, alike (record h { state = h.state + 1 }))

  calls-Alike :
      (run run' : Header F (Option T) W → Header F (Option T) W)
      → Alike run run'
      → (cs : List WakerCall) (h : Header F (Option T) W) → calls run cs h ≡ calls run' cs h
  unfolding calls call
  calls-Alike run run' alike [] h = refl
  calls-Alike run run' alike (clone ∷ cs) h = calls-Alike run run' alike cs (clone_waker h)
  calls-Alike run run' alike (drop ∷ cs) h = calls-Alike run run' alike cs (drop_waker h)
  calls-Alike run run' alike (wake ∷ cs) h =
      calls-Alike run run' alike cs (Wake.wake_by_ref run h)
      ∙ ap (calls run' cs) (wakes-Alike run run' alike h)
  calls-Alike run run' alike (wake_by_ref ∷ cs) h =
      calls-Alike run run' alike cs (Wake.wake_by_ref run h)
      ∙ ap (calls run' cs) (wakes-Alike run run' alike h)

  -- For a task that is not idle it does not matter what a wake runs.
  busy_calls :
      (run run' : Header F (Option T) W → Header F (Option T) W) (cs : List WakerCall)
      (h : Header F (Option T) W)
      → h.state % 4 ≢ 0
      → calls run cs h ≡ calls run' cs h
  unfolding calls call
  busy_calls run run' [] h s = refl
  busy_calls run run' (clone ∷ cs) h s =
      busy_calls run run' cs (clone_waker h)
        (omega (arith, s, (busy-Keeps run (clone ∷ []) h s).low))
  busy_calls run run' (drop ∷ cs) h s =
      busy_calls run run' cs (drop_waker h) (omega (arith, s, (busy-Keeps run (drop ∷ []) h s).low))
  busy_calls run run' (wake ∷ cs) h s =
      rw (absorbed_wake run h s, absorbed_wake run' h s) (busy_calls run run' cs h s)
  busy_calls run run' (wake_by_ref ∷ cs) h s =
      rw (absorbed_wake run h s, absorbed_wake run' h s) (busy_calls run run' cs h s)

  -- What keeps the number of polls that lacked fuel, at headers marked as scheduled and at all.
  abbrev Covers : (Header F (Option T) W → Header F (Option T) W) → Header F (Option T) W → Type 0
  Covers act h = unfinished_polls (act h).events ≡ unfinished_polls h.events

  drop_waker-Covers : (h : Header F (Option T) W) → Covers drop_waker h
  unfolding drop_waker
  drop_waker-Covers h = ground (arith, unfinished_polls-append h.events (deallocate ∷ []))

  finish-Covers : (r : Poll T) (h : Header F (Option T) W) → Covers (λ g. finish_task g r) h
  unfolding finish_task
  finish-Covers pending h = refl
  finish-Covers (ready t) h = elim (Option-cases h.join_waker) [
    | inl e ↦ rw e refl
    | inr (w, e) ↦ rw e (unfinished_polls-append h.events (woke w ∷ []) ∙ omega arith)
  ]

  module _ (run : Header F (Option T) W → Header F (Option T) W)
      (covers : (h : Header F (Option T) W) → h.state % 4 ≡ 1 → Covers run h) where
    wake-Covers : (h : Header F (Option T) W) → Covers (Wake.wake_by_ref run) h
    unfolding Wake.wake_by_ref
    wake-Covers h = ground (
      arith,
      attempt_lem h.state,
      covers (record h { state = h.state + 1 }),
      unfinished_polls-append h.events (schedule ∷ []),
    )

    calls-Covers : (cs : List WakerCall) (h : Header F (Option T) W) → Covers (calls run cs) h
    unfolding calls call clone_waker
    calls-Covers [] h = refl
    calls-Covers (clone ∷ cs) h = calls-Covers cs (clone_waker h)
    calls-Covers (drop ∷ cs) h = calls-Covers cs (drop_waker h) ∙ drop_waker-Covers h
    calls-Covers (wake ∷ cs) h = calls-Covers cs (Wake.wake_by_ref run h) ∙ wake-Covers h
    calls-Covers (wake_by_ref ∷ cs) h = calls-Covers cs (Wake.wake_by_ref run h) ∙ wake-Covers h

module _ {F T W : Type 0} (poll_future : F → Polled F T) where
  -- What a poll does once the calls of the future are known.
  poll-Covers :
      (fuel : ℕ) (h : Header F (Option T) W)
      → ((cs : List WakerCall) (g : Header F (Option T) W)
          → g.state ≡ h.state
          → Covers (calls (poll_task poll_future fuel) cs) g)
      → Covers (poll_task poll_future (suc fuel)) h
  unfolding poll_task
  poll-Covers fuel h covers =
      let p = poll_future h.future in
      let h1 = record h { future = p.next } in
      let g = calls (poll_task poll_future fuel) p.calls h1 in
      drop_waker-Covers (finish_task g p.result) ∙ finish-Covers p.result g ∙ covers p.calls h1 refl

  -- A poll of a task that is not idle runs no other poll.
  busy_poll :
      (fuel : ℕ) (h : Header F (Option T) W)
      → h.state % 4 ≢ 0
      → (poll_task poll_future (suc fuel) h ≡ poll_task poll_future 1 h)
        × Covers (poll_task poll_future 1) h
  unfolding poll_task
  busy_poll fuel h s =
      let p = poll_future h.future in
      let h1 = record h { future = p.next } in
      (
        ap (λ g. drop_waker (finish_task g p.result))
            (busy_calls (poll_task poll_future fuel) (poll_task poll_future 0) p.calls h1 s),
        poll-Covers 0 h (λ cs g e.
            ap (λ (x : Header F (Option T) W). unfinished_polls x.events)
              (busy_calls (poll_task poll_future 0) (λ x. x) cs g (rw e s))
            ∙ calls-Covers (λ x. x) (λ x m. refl) cs g),
      )

  -- Two polls of fuel are enough for a task of mod.rs in any state, whatever its future does with its
  -- waker: more fuel gives the same header, and no poll is logged as one without fuel.
  pub nested_twice :
      (fuel : ℕ) (h : Header F (Option T) W)
      → (poll_task poll_future (suc (suc fuel)) h ≡ poll_task poll_future 2 h)
        × (unfinished_polls (poll_task poll_future 2 h).events ≡ unfinished_polls h.events)
  unfolding poll_task
  nested_twice fuel h =
      let p = poll_future h.future in
      (
        ap (λ g. drop_waker (finish_task g p.result))
            (calls-Alike (poll_task poll_future (suc fuel)) (poll_task poll_future 1)
              (λ g e. (busy_poll fuel g (omega (arith, e))).0) p.calls
              (record h { future = p.next })),
        poll-Covers 1 h (λ cs g e.
            calls-Covers (poll_task poll_future 1) (λ x m. (busy_poll 0 x (omega (arith, m))).1) cs
              g),
      )
