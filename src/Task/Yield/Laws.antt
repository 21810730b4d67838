-- ===== src/Task/Yield/Laws.antt =====
-- Futures that yield, under the three ways of polling them.
use loony_rs_runtime.Base.{ℕ, zero, suc, ◌≡◌, refl, arith, true, none, some, List, [], ◌∷◌}
use loony_rs_runtime.Task.State
use loony_rs_runtime.Task.Header.{ready, pending, WakerCall, Polled, schedule, pointer}
use loony_rs_runtime.Task.Raw
use loony_rs_runtime.Task.Wake
use loony_rs_runtime.Task.Yield.{YieldNow, yield_now, poll_yield, block_on}
use loony_rs_runtime.MultiThread.Deque.{Deque}
use loony_rs_runtime.MultiThread.Shared.{Shared}
use loony_rs_runtime.Context.{Context}
use loony_rs_runtime.Handle.BlockOn
use loony_rs_runtime.Handle.BlockOn.{Outcome, done, deadlocked, process_some_tasks}

-- An async body that awaits `yield_now` so many times and then returns: what is left, and the
-- `YieldNow` that it waits for. One poll goes on to the next `yield_now` if the first is ready.
abbrev pub poll_body : ℕ × YieldNow → Polled (ℕ × YieldNow) (Unit {0})
poll_body (zero, y) = record { next = (zero, y); calls = []; result = ready tt }
poll_body (suc n, y) =
    let p = poll_yield y in
    elim p.result [
      | pending ↦ record { next = (suc n, p.next); calls = p.calls; result = pending }
      | ready _ ↦ elim n [
        | zero ↦ record { next = (zero, yield_now); calls = p.calls; result = ready tt }
        | suc m ↦
            let q = poll_yield yield_now in
            record { next = (suc m, q.next); calls = q.calls; result = q.result }
      ]
    ]

-- The body with one `YieldNow` passed.
returns_yielded : (n : ℕ) → block_on poll_body (suc n) (suc n, record { yielded = true }) ≡ some tt
unfolding block_on poll_yield yield_now
returns_yielded zero = refl
returns_yielded (suc n) = returns_yielded n

-- `block_on` returns from a body with `n` yields after `n + 1` polls.
pub yields_return : (n : ℕ) → block_on poll_body (suc n) (n, yield_now) ≡ some tt
unfolding block_on poll_yield yield_now
yields_return zero = refl
yields_return (suc n) = returns_yielded n

-- A task of raw.rs whose body yields at least twice is run once for its creation and once for its
-- wake, and then it is pending and nobody has scheduled it again.
pub second_yield_starves :
    (n fuel : ℕ)
    → let run = Raw.poll {W = ℕ} poll_body (suc fuel) in
      let h = run (run (Raw.create_raw_task (suc (suc n), yield_now))) in
      (h.events ≡ schedule ∷ [])
      × (h.output ≡ pointer)
      × (h.future ≡ (suc n, record { yielded = true }))
unfolding Raw.poll Raw.create_raw_task poll_yield yield_now State.refcount Wake.wake_by_ref
    Wake.attempt State.is_complete State.with_refcount State.is_aborted State.is_scheduled
    State.is_running State.with_flag
second_yield_starves n fuel = (refl, refl, refl)

module _ {Task : Type 0} (D : Deque Task) (spawns : Task → List Task) where
  open D use {Queue}

  -- `Handle::block_on` of `yield_now` returns on a thread outside every runtime, and deadlocks on a
  -- thread that is in one, be it the handle's or another.
  pub block_on-yield_now :
      (between : ℕ → List WakerCall) (polls own : ℕ) (c : Context) (s : Shared Queue)
      → BlockOn.block_on D spawns poll_yield between (suc (suc polls)) own c yield_now s
        ≡ elim c.shared [
          | none ↦ done (tt, (process_some_tasks D spawns s).1)
          | some _ ↦ deadlocked
        ]
  unfolding BlockOn.block_on poll_yield yield_now
  block_on-yield_now between polls own c s = ground arith
