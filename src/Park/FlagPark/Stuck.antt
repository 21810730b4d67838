-- ===== src/Park/FlagPark/Stuck.antt =====
-- A thread that `SleepPark` has parked.
use loony_rs_runtime.Base.{◌≡◌, arith, false}
use loony_rs_runtime.Park.FlagPark.{
  sleep_park, blocked, System, Call, park, park_timeout, unpark, unpark_again, own, Step, take,
  block, wake, try_take, nap, nap_ends, unpark_caller, unpark_creator, Patient, here, called, later,
}

-- In `thread::park`, with no token.
pub record IsBlocked (s : System) : Type 0 where
  pub waits : s.pc ≡ blocked
  pub tokenless : s.token ≡ false

Call-IsBlocked : {s t : System} → Call sleep_park s t → IsBlocked s → IsBlocked t
Call-IsBlocked (park p) v = ground arith
Call-IsBlocked (park_timeout k p) v = ground arith
Call-IsBlocked (unpark f) v = ground arith
Call-IsBlocked (unpark_again f) v = v
Call-IsBlocked (own p f) v = ground arith

Step-IsBlocked : {s t : System} → Step sleep_park s t → IsBlocked s → IsBlocked t
Step-IsBlocked (take p f) v = ground arith
Step-IsBlocked (block p f) v = ground arith
Step-IsBlocked (wake p f) v = ground arith
Step-IsBlocked (try_take p f) v = ground arith
Step-IsBlocked (nap p f) v = ground arith
Step-IsBlocked (nap_ends p f) v = ground arith
Step-IsBlocked (unpark_caller n k e) v = ground arith
Step-IsBlocked (unpark_creator n k e) v = absurd (cc)

-- A thread that waits in `SleepPark::park` waits on however often other threads unpark it, as long
-- as `thread::park` does not return for no reason.
pub Patient-IsBlocked : {s t : System} → IsBlocked s → Patient sleep_park s t → IsBlocked t
Patient-IsBlocked v here = v
Patient-IsBlocked v (called r c) = Call-IsBlocked c (Patient-IsBlocked v r)
Patient-IsBlocked v (later r st) = Step-IsBlocked st (Patient-IsBlocked v r)
