-- ===== src/Park/ThreadPark/Token.antt =====
-- The state word with one parking thread.
use loony_rs_runtime.Base.{ℕ, ◌≡◌, ◌≢◌, ◌⊎◌, inl, inr, refl, arith, ℕ_discrete}
use loony_rs_runtime.Park.ThreadPark.{
  empty, parked, notified, Pc, outside, looping, panicked, System, new, Step, enter, take_token,
  token_gone, mark, not_empty, lock, wait, relock, leave, unreachable, unpark_parked, unpark,
  notify, notify_nobody, Expire, expire, Reach, here, later, timed_out, Patient,
}

-- What the word may hold, by the place of the parking thread.
abbrev pub Fits : Pc → ℕ → Type 0
Fits outside w = (w ≡ empty) ⊎ (w ≡ notified)
Fits (looping seen) w = (w ≡ empty) ⊎ (w ≡ notified)
Fits panicked w = ⊥
Fits _ w = (w ≡ parked) ⊎ (w ≡ notified)

Step-Fits : {s t : System} → Step s t → Fits s.pc s.state → Fits t.pc t.state
Step-Fits (enter p) f = ground arith
Step-Fits (take_token seen p q e) f = ground arith
Step-Fits (token_gone seen p q e) f = ground arith
Step-Fits (mark seen p q e) f = ground arith
Step-Fits (not_empty seen p q e) f = ground arith
Step-Fits (lock p) f = ground arith
Step-Fits (wait p) f = ground arith
Step-Fits (relock p) f = ground arith
Step-Fits (leave p e) f = ground arith
Step-Fits (unreachable p e e') f = ground arith
Step-Fits (unpark_parked e) f = ground arith
Step-Fits (unpark e) f = ground arith
Step-Fits (notify n e p) f = ground arith
Step-Fits (notify_nobody n e p p' p'') f = ground arith

Expire-Fits : {s t : System} → Expire s t → Fits s.pc s.state → Fits t.pc t.state
Expire-Fits (expire p) f = ground arith

Reach-Fits : {s : System} → Reach new s → Fits s.pc s.state
Reach-Fits here = inl refl
Reach-Fits (later r st) = Step-Fits st (Reach-Fits r)
Reach-Fits (timed_out r x) = Expire-Fits x (Reach-Fits r)

-- With one parking thread the word is `PARKED` or `NOTIFIED` from the mark to the last exchange, and
-- `EMPTY` or `NOTIFIED` elsewhere, so the `unreachable!` arm is not reached.
pub unreachable_arm : {s : System} → Reach new s → (s.pc ≢ panicked) × Fits s.pc s.state
unreachable_arm r = let f = Reach-Fits r in (ground arith, f)

-- A token is there, and the thread is outside or in its loop.
abbrev pub HasToken : System → Type 0
HasToken s = (s.state ≡ notified) × ((s.pc ≡ outside) ⊎ ((seen : ℕ) × (s.pc ≡ looping seen)))

abbrev pub returned : System → System
returned s = record s { state = empty; pc = outside }

-- Whatever step comes next, the token stays, or the parking thread takes it and returns.
pub token_stays : {s t : System} → Step s t → HasToken s → HasToken t ⊎ (t ≡ returned s)
token_stays (enter p) h = inl (h.0, inr (_, refl))
token_stays (take_token seen p q e) h = inr refl
token_stays (token_gone seen p q e) h = inl (h.0, inr (_, refl))
token_stays (mark seen p q e) h = absurd (ground arith)
token_stays (not_empty seen p q e) h = inl (h.0, inr (_, refl))
token_stays (lock p) h = absurd (ground arith)
token_stays (wait p) h = absurd (ground arith)
token_stays (relock p) h = absurd (ground arith)
token_stays (leave p e) h = absurd (ground arith)
token_stays (unreachable p e e') h = absurd (ground arith)
token_stays (unpark_parked e) h = absurd (ground arith)
token_stays (unpark e) h = inl (refl, h.1)
token_stays (notify n e p) h = absurd (ground arith)
token_stays (notify_nobody n e p p' p'') h = inl h

take_seen :
    (s : System) (seen : ℕ) → s.state ≡ notified → s.pc ≡ looping seen → Patient s (returned s)
take_seen s seen e p = elim (ℕ_discrete seen notified) [
  | yes q ↦ later here (take_token seen p q e)
  | no q ↦ later (later here (not_empty seen p q (ground arith))) (take_token s.state refl e e)
]

-- An `unpark` before `park_timeout` keeps it from waiting: the thread's own steps lead it to its
-- return.
pub token_returns : (s : System) → HasToken s → Patient s (returned s)
token_returns s (e, inl p) = later (later here (enter p)) (take_token s.state refl e e)
token_returns s (e, inr (seen, p)) = take_seen s seen e p
