-- ===== src/Park/FlagPark/Woken.antt =====
-- A thread that `BlockOnParker` has parked.
use loony_rs_runtime.Base.{ℕ, suc, ◌≡◌, refl, arith, ◌⊎◌, inl, inr, true, false}
use loony_rs_runtime.Park.FlagPark.{
  block_on_parker, outside, blocked, System, new, Call, park, park_timeout, unpark, unpark_again,
  own, Step, take, block, wake, try_take, nap, nap_ends, unpark_caller, unpark_creator, Expire,
  spurious, elapsed, Reach, Settle, here, called, later, expired,
}

-- With the flag set, the token of a thread in `thread::park` is there or on its way.
abbrev Inv : System → Type 0
Inv s = s.pc ≡ blocked → s.flag ≡ true → (s.token ≡ true) ⊎ ((n : ℕ) × (s.unparkers ≡ suc n))

Call-Inv : {s t : System} → Call block_on_parker s t → Inv s → Inv t
Call-Inv (park p) v = λ q f. ground arith
Call-Inv (park_timeout k p) v = absurd (cc)
Call-Inv (unpark f) v = λ q g. inr (_, refl)
Call-Inv (unpark_again f) v = v
Call-Inv (own p f) v = λ q g. inl refl

Step-Inv : {s t : System} → Step block_on_parker s t → Inv s → Inv t
Step-Inv (take p f) v = λ q g. ground arith
Step-Inv (block p f) v = λ q g. ground arith
Step-Inv (wake p f) v = λ q g. ground arith
Step-Inv (try_take p f) v = λ q g. ground arith
Step-Inv (nap p f) v = λ q g. ground arith
Step-Inv (nap_ends p f) v = λ q g. ground arith
Step-Inv (unpark_caller n k e) v = absurd (cc)
Step-Inv (unpark_creator n k e) v = λ q g. inl refl

Expire-Inv : {s t : System} → Expire s t → Inv s → Inv t
Expire-Inv (spurious p) v = λ q g. ground arith
Expire-Inv (elapsed p) v = λ q g. ground arith

Reach-Inv : {s : System} → Reach block_on_parker new s → Inv s
Reach-Inv here = λ q g. ground arith
Reach-Inv (called r c) = Call-Inv c (Reach-Inv r)
Reach-Inv (later r st) = Step-Inv st (Reach-Inv r)
Reach-Inv (expired r x) = Expire-Inv x (Reach-Inv r)

-- Wherever a thread waits in `BlockOnParker::park` with the flag set, what is under way leads it to
-- return with the flag clear, without a further call of `unpark` and without a spurious wake-up.
pub unpark_wakes :
    {s : System}
    → Reach block_on_parker new s
    → s.pc ≡ blocked
    → s.flag ≡ true
    → (t : System) × Settle block_on_parker s t × (t.pc ≡ outside) × (t.flag ≡ false)
unpark_wakes {s} r p f = elim (Reach-Inv r p f) [
  | inl token ↦ (_, later (later here (wake p token)) (take refl f), refl, refl)
  | inr (n, e) ↦ (
    _,
    later (later (later here (unpark_creator n refl e)) (wake p refl)) (take refl f),
    refl,
    refl,
  )
]
