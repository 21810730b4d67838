-- ===== src/Park/ThreadParker/Arms.antt =====
-- How `ThreadParker` leaves `park_timeout`.
use loony_rs_runtime.Base.{ℕ, ◌≡◌, ◌≢◌, ◌⊎◌, refl, arith, inl}
use loony_rs_runtime.Park.ThreadParker.{
  empty, parked, notified, Pc, outside, looping, panicked, System, Park, enter, take_token,
  token_gone, mark, not_empty, lock, wait, spurious, times_out, relock, relock_late, still_parked,
  not_parked, store, leave, unreachable, Unpark, unpark_parked, unpark, notify, notify_nobody,
  Reach, begin, parks, unparks,
}

-- What the word can be in each place.
abbrev Fits : Pc → ℕ → Type 0
Fits outside w = (w ≡ empty) ⊎ (w ≡ notified)
Fits (looping seen) w = (w ≡ empty) ⊎ (w ≡ notified)
Fits panicked w = ⊥
Fits _ w = (w ≡ parked) ⊎ (w ≡ notified)

Park-Fits : {s t : System} → Park s t → Fits s.pc s.state → Fits t.pc t.state
Park-Fits (enter b p) f = ground arith
Park-Fits (take_token seen p q e) f = ground arith
Park-Fits (token_gone seen p q e) f = ground arith
Park-Fits (mark seen p q e) f = ground arith
Park-Fits (not_empty seen p q e) f = ground arith
Park-Fits (lock p) f = ground arith
Park-Fits (wait p) f = ground arith
Park-Fits (spurious p) f = ground arith
Park-Fits (times_out p e) f = ground arith
Park-Fits (relock p) f = ground arith
Park-Fits (relock_late p) f = ground arith
Park-Fits (still_parked p e) f = ground arith
Park-Fits (not_parked p e) f = ground arith
Park-Fits (store p) f = ground arith
Park-Fits (leave p e) f = ground arith
Park-Fits (unreachable p e e') f = ground arith

Unpark-Fits : {s t : System} → Unpark s t → Fits s.pc s.state → Fits t.pc t.state
Unpark-Fits (unpark_parked e) f = ground arith
Unpark-Fits (unpark e) f = ground arith
Unpark-Fits (notify n e p) f = ground arith
Unpark-Fits (notify_nobody n e p p') f = ground arith

Reach-Fits : {s : System} → Reach s → Fits s.pc s.state
Reach-Fits begin = inl refl
Reach-Fits (parks r st) = Park-Fits st (Reach-Fits r)
Reach-Fits (unparks r st) = Unpark-Fits st (Reach-Fits r)

-- With one parking thread, whose waits may time out or end for no reason, the `unreachable!` arm is
-- not reached, and the word is `PARKED` or `NOTIFIED` from the mark to the return, and `EMPTY` or
-- `NOTIFIED` elsewhere.
pub parker_arms : {s : System} → Reach s → (s.pc ≢ panicked) × Fits s.pc s.state
parker_arms r = let f = Reach-Fits r in (ground arith, f)
