-- ===== src/Task/Raw/Keeps.antt =====
-- What clones, drops and absorbed wakes leave of a header.
use loony_rs_runtime.Base.{
  ℕ, suc, ◌+◌, ◌%◌, ◌≡◌, ◌≢◌, arith, Bool, true, false, List, [], ◌∷◌, ◌++◌,
}
use loony_rs_runtime.Task.Header.{
  WakerCall, clone, wake, wake_by_ref, drop, Header, Event, schedule, woke, deallocate,
  frees_inside, out_of_fuel, clone_waker, drop_waker,
}
use loony_rs_runtime.Task.Raw.{call, calls}
use loony_rs_runtime.Task.Wake
use loony_rs_runtime.Task.Wake.Arithmetic.{attempt_lem}
use loony_rs_runtime.Task.Raw.Once.{schedules, schedules-append}

-- The number of wakes of the handle's waker.
abbrev pub wokes : {W : Type 0} → List (Event W) → ℕ
wokes [] = 0
wokes (woke w ∷ es) = suc (wokes es)
wokes (schedule ∷ es) = wokes es
wokes (deallocate ∷ es) = wokes es
wokes (frees_inside ∷ es) = wokes es
wokes (out_of_fuel ∷ es) = wokes es

pub wokes-append : {W : Type 0} (es fs : List (Event W)) → wokes (es ++ fs) ≡ wokes es + wokes fs
wokes-append [] fs = omega arith
wokes-append (woke w ∷ es) fs = omega (arith, wokes-append es fs)
wokes-append (schedule ∷ es) fs = wokes-append es fs
wokes-append (deallocate ∷ es) fs = wokes-append es fs
wokes-append (frees_inside ∷ es) fs = wokes-append es fs
wokes-append (out_of_fuel ∷ es) fs = wokes-append es fs

-- No call of these wakes the task.
abbrev pub silent : List WakerCall → Bool
silent [] = true
silent (clone ∷ cs) = silent cs
silent (drop ∷ cs) = silent cs
silent (wake ∷ cs) = false
silent (wake_by_ref ∷ cs) = false

module _ {F T W : Type 0} where
  -- What clones, drops and absorbed wakes leave alone: all but the count of the wakers.
  pub record Keeps (h g : Header F T W) : Type 0 where
    pub low : g.state % 65536 ≡ h.state % 65536
    pub same_scheduler : g.scheduler ≡ h.scheduler
    pub same_future : g.future ≡ h.future
    pub same_output : g.output ≡ h.output
    pub same_join_waker : g.join_waker ≡ h.join_waker
    pub same_wokes : wokes g.events ≡ wokes h.events
    pub same_schedules : schedules g.events ≡ schedules h.events

  pub Keeps-trans : {h g k : Header F T W} → Keeps h g → Keeps g k → Keeps h k
  Keeps-trans u v = ground arith

  clone_waker-Keeps : (h : Header F T W) → Keeps h (clone_waker h)
  unfolding clone_waker
  clone_waker-Keeps h = ground arith

  pub drop_waker-Keeps : (h : Header F T W) → Keeps h (drop_waker h)
  unfolding drop_waker
  drop_waker-Keeps h =
      ground (
        arith,
        wokes-append h.events (deallocate ∷ []),
        schedules-append h.events (deallocate ∷ []),
      )

  module _ (run : Header F T W → Header F T W) where
    pub silent-Keeps :
        (cs : List WakerCall) (h : Header F T W) → silent cs ≡ true → Keeps h (calls run cs h)
    unfolding calls call
    silent-Keeps [] h s = ground arith
    silent-Keeps (clone ∷ cs) h s =
        Keeps-trans (clone_waker-Keeps h) (silent-Keeps cs (clone_waker h) s)
    silent-Keeps (drop ∷ cs) h s =
        Keeps-trans (drop_waker-Keeps h) (silent-Keeps cs (drop_waker h) s)
    silent-Keeps (wake ∷ cs) h s = absurd (cc)
    silent-Keeps (wake_by_ref ∷ cs) h s = absurd (cc)

    -- A wake of a task that is not idle does nothing.
    pub absorbed_wake : (h : Header F T W) → h.state % 4 ≢ 0 → Wake.wake_by_ref run h ≡ h
    unfolding Wake.wake_by_ref
    absorbed_wake h busy = ground (arith, attempt_lem h.state)

    -- One of an idle task without a scheduler runs it in place.
    pub wake_runs :
        (h : Header F T W)
        → h.scheduler ≡ false
        → h.state % 8 ≡ 0
        → Wake.wake_by_ref run h ≡ run (record h { state = h.state + 1 })
    unfolding Wake.wake_by_ref
    wake_runs h own idle = ground (arith, attempt_lem h.state)

    -- Whatever a future does with the waker of a task that is not idle.
    pub busy-Keeps :
        (cs : List WakerCall) (h : Header F T W) → h.state % 4 ≢ 0 → Keeps h (calls run cs h)
    unfolding calls call
    busy-Keeps [] h s = ground arith
    busy-Keeps (clone ∷ cs) h s =
        let u = clone_waker-Keeps h in
        Keeps-trans u (busy-Keeps cs (clone_waker h) (omega (arith, s, u.low)))
    busy-Keeps (drop ∷ cs) h s =
        let u = drop_waker-Keeps h in
        Keeps-trans u (busy-Keeps cs (drop_waker h) (omega (arith, s, u.low)))
    busy-Keeps (wake ∷ cs) h s = rw (absorbed_wake h s) (busy-Keeps cs h s)
    busy-Keeps (wake_by_ref ∷ cs) h s = rw (absorbed_wake h s) (busy-Keeps cs h s)
