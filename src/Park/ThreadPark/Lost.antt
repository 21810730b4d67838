-- ===== src/Park/ThreadPark/Lost.antt =====
-- `unpark` and a thread that is about to wait.
use loony_rs_runtime.Base.{◌≡◌, inl, refl, arith}
use loony_rs_runtime.Park.ThreadPark.{
  empty, parked, notified, outside, locking, waiting, System, Step, enter, take_token, token_gone,
  mark, not_empty, lock, wait, relock, leave, unreachable, unpark_parked, unpark, notify,
  notify_nobody, Patient, here, later,
}

-- A thread in the wait is woken by `unpark`, and leaves with the word empty.
pub waiting_is_woken :
    (s : System)
    → s.pc ≡ waiting
    → s.state ≡ parked
    → Patient s (record s { state = empty; pc = outside })
waiting_is_woken s p e =
    later (later (later (later here (unpark_parked e)) (notify s.notifiers refl p)) (relock refl))
      (leave refl (inl refl))

-- The thread waits although it was unparked, and nobody is left to notify it.
pub record IsStuck (s : System) : Type 0 where
  pub waits : s.pc ≡ waiting
  pub unparked : s.state ≡ notified
  pub nobody : s.notifiers ≡ 0

Step-IsStuck : {s t : System} → Step s t → IsStuck s → IsStuck t
Step-IsStuck (enter p) v = ground arith
Step-IsStuck (take_token seen p q e) v = ground arith
Step-IsStuck (token_gone seen p q e) v = ground arith
Step-IsStuck (mark seen p q e) v = ground arith
Step-IsStuck (not_empty seen p q e) v = ground arith
Step-IsStuck (lock p) v = ground arith
Step-IsStuck (wait p) v = ground arith
Step-IsStuck (relock p) v = ground arith
Step-IsStuck (leave p e) v = ground arith
Step-IsStuck (unreachable p e e') v = ground arith
Step-IsStuck (unpark_parked e) v = ground arith
Step-IsStuck (unpark e) v = ground arith
Step-IsStuck (notify n e p) v = ground arith
Step-IsStuck (notify_nobody n e p p' p'') v = ground arith

-- Such a thread waits on, however often it is unparked, as long as its wait does not end by itself.
pub Patient-IsStuck : {s t : System} → IsStuck s → Patient s t → IsStuck t
Patient-IsStuck v here = v
Patient-IsStuck v (later r st) = Step-IsStuck st (Patient-IsStuck v r)

-- A wake-up is lost if `unpark` runs between the mark and the lock of `park_timeout`.
pub lost_wakeup :
    (s : System)
    → s.pc ≡ locking
    → s.state ≡ parked
    → s.notifiers ≡ 0
    → (t : System) × Patient s t × IsStuck t
lost_wakeup s p e none_left = (
  record s { state = notified; pc = waiting },
  later
      (later
        (later (later here (unpark_parked e))
          (notify_nobody s.notifiers refl (ground arith) (ground arith) (ground arith)))
        (lock p))
      (wait refl),
  record { waits = refl; unparked = refl; nobody = none_left },
)
