-- ===== src/Park/ThreadParker/Lost.antt =====
-- `ThreadParker::unpark` and a thread that is about to wait.
use loony_rs_runtime.Base.{◌≡◌, ◌≢◌, refl, arith}
use loony_rs_runtime.Park.ThreadParker.{
  parked, notified, locking, waiting, roused, elapsed, System, Park, enter, take_token, token_gone,
  mark, not_empty, lock, wait, spurious, times_out, relock, relock_late, still_parked, not_parked,
  store, leave, unreachable, Unpark, unpark_parked, unpark, notify, notify_nobody, Patient, here,
  parks_on, unparks_on,
}

-- The thread waits although it was unparked, and nobody is left to notify it.
pub record IsForgotten (s : System) : Type 0 where
  pub waits : s.pc ≡ waiting
  pub unparked : s.state ≡ notified
  pub nobody : s.notifiers ≡ 0

Park-IsForgotten :
    {s t : System}
    → Park s t
    → t.pc ≢ elapsed
    → (s.pc ≡ waiting → t.pc ≢ roused)
    → IsForgotten s
    → IsForgotten t
Park-IsForgotten (enter b p) d n v = ground arith
Park-IsForgotten (take_token seen p q e) d n v = ground arith
Park-IsForgotten (token_gone seen p q e) d n v = ground arith
Park-IsForgotten (mark seen p q e) d n v = ground arith
Park-IsForgotten (not_empty seen p q e) d n v = ground arith
Park-IsForgotten (lock p) d n v = ground arith
Park-IsForgotten (wait p) d n v = ground arith
Park-IsForgotten (spurious p) d n v = absurd (n p refl)
Park-IsForgotten (times_out p e) d n v = absurd (d refl)
Park-IsForgotten (relock p) d n v = ground arith
Park-IsForgotten (relock_late p) d n v = ground arith
Park-IsForgotten (still_parked p e) d n v = ground arith
Park-IsForgotten (not_parked p e) d n v = ground arith
Park-IsForgotten (store p) d n v = ground arith
Park-IsForgotten (leave p e) d n v = ground arith
Park-IsForgotten (unreachable p e e') d n v = ground arith

Unpark-IsForgotten : {s t : System} → Unpark s t → IsForgotten s → IsForgotten t
Unpark-IsForgotten (unpark_parked e) v = ground arith
Unpark-IsForgotten (unpark e) v = ground arith
Unpark-IsForgotten (notify n e p) v = ground arith
Unpark-IsForgotten (notify_nobody n e p p') v = ground arith

Patient-IsForgotten : {s t : System} → IsForgotten s → Patient s t → IsForgotten t
Patient-IsForgotten v here = v
Patient-IsForgotten v (parks_on r st d n) = Park-IsForgotten st d n (Patient-IsForgotten v r)
Patient-IsForgotten v (unparks_on r st) = Unpark-IsForgotten st (Patient-IsForgotten v r)

-- If `unpark` runs between the mark and the lock, with nobody else about to notify, the thread can
-- come to wait with the word `NOTIFIED`, and then it waits on however often it is unparked, unless its
-- wait times out or ends for no reason.
pub parker_forgets :
    (s : System)
    → s.pc ≡ locking
    → s.state ≡ parked
    → s.notifiers ≡ 0
    → (t : System) × Patient s t
      × ((u : System) → Patient t u → (u.pc ≡ waiting) × (u.state ≡ notified))
parker_forgets s p e none_left =
    let stuck : IsForgotten (record s { state = notified; pc = waiting }) = record {
      waits = refl;
      unparked = refl;
      nobody = none_left;
    } in
    (
      record s { state = notified; pc = waiting },
      parks_on
          (parks_on
            (unparks_on (unparks_on here (unpark_parked e))
              (notify_nobody s.notifiers refl (ground arith) (ground arith)))
            (lock p) (λ q. absurd (cc)) (λ q. absurd (ground arith)))
          (wait refl) (λ q. absurd (cc)) (λ q. absurd (cc)),
      λ u r. let v = Patient-IsForgotten stuck r in (v.waits, v.unparked),
    )
