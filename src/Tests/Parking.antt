-- ===== src/Tests/Parking.antt =====
-- Parking threads at concrete inputs.
use loony_rs_runtime.Base.{ℕ, ◌≡◌, ◌≢◌, ◌⊎◌, refl, arith, true}
use loony_rs_runtime.Park.ThreadPark.{
  System, new, Pc, locking, panicked, Reach, here, later, timed_out, enter, mark, lock, wait,
  expire, relock, Patient,
}
use loony_rs_runtime.Park.ThreadPark.Token.{unreachable_arm}
use loony_rs_runtime.Park.ThreadParker
use loony_rs_runtime.Park.ThreadParker.Lost.{parker_forgets}
use loony_rs_runtime.Park.ThreadPark.Lost.{IsStuck, lost_wakeup}

abbrev at : ℕ → Pc → System
at w p = record { state = w; pc = p; notifiers = 0 }

-- A park that times out.
abbrev timed : Reach new (at 1 Pc.swapping)
timed =
    later
      (timed_out
        (later
          (later (later (later here (enter refl)) (mark 0 refl (omega arith) refl)) (lock refl))
          (wait refl))
        (expire refl))
      (relock refl)

unreachable_arm_example : (Pc.swapping ≢ panicked) × ((◌≡◌ {A = ℕ} 1 1) ⊎ (◌≡◌ {A = ℕ} 1 2))
unreachable_arm_example = unreachable_arm timed

lost_wakeup_example : (t : System) × Patient (at 1 locking) t × IsStuck t
lost_wakeup_example = lost_wakeup (at 1 locking) refl refl refl

-- `ThreadParker` parks with a duration and times out.
late :
    ThreadParker.Reach
      (record ThreadParker.new { state = 1; pc = ThreadParker.Pc.storing; timed = true })
late =
    ThreadParker.parks
      (ThreadParker.parks
        (ThreadParker.parks
          (ThreadParker.parks
            (ThreadParker.parks
              (ThreadParker.parks
                (ThreadParker.parks ThreadParker.begin (ThreadParker.enter true refl))
                (ThreadParker.mark 0 refl (λ e. cc) refl))
              (ThreadParker.lock refl))
            (ThreadParker.wait refl))
          (ThreadParker.times_out refl refl))
        (ThreadParker.relock_late refl))
      (ThreadParker.still_parked refl refl)

abbrev marked : ThreadParker.System
marked = record ThreadParker.new { state = 1; pc = ThreadParker.Pc.locking }

parker_forgets_example :
    (t : ThreadParker.System) × ThreadParker.Patient marked t
    × ((u : ThreadParker.System)
        → ThreadParker.Patient t u
        → (u.pc ≡ ThreadParker.Pc.waiting) × (u.state ≡ 2))
parker_forgets_example = parker_forgets marked refl refl refl
