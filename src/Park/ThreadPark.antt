-- ===== src/Park/ThreadPark.antt =====
-- `ThreadPark` of src/runtime/park.rs, an atomic access at a time: one thread that parks, and any
-- number of others that unpark it.
pub mod Token
pub mod Lost
use loony_rs_runtime.Base.{ℕ, zero, suc, ◌≡◌, ◌≢◌, ◌⊎◌}

abbrev pub empty : ℕ
empty = 0

abbrev pub parked : ℕ
parked = 1

abbrev pub notified : ℕ
notified = 2

-- Where the parking thread stands: not in `park_timeout`; in its loop, having seen `seen`; before
-- `mutex.lock`; with the lock, before the wait; in the wait; out of the wait, before it has the lock
-- again; before the last exchange; and in the `unreachable!` arm.
pub data Pc : Type 0 where
  outside : Pc
  looping : (seen : ℕ) → Pc
  locking holding waiting roused swapping panicked : Pc

-- `notifiers` counts the threads in `unpark` that saw `PARKED` and have not called `notify_one` yet.
pub record System : Type 0 where
  pub state : ℕ
  pub pc : Pc
  pub notifiers : ℕ

abbrev pub new : System
new = record { state = empty; pc = outside; notifiers = 0 }

pub data Step (s : System) : System → Type 0 where
  -- `park_timeout`
  enter : s.pc ≡ outside → Step s (record s { pc = looping s.state })
  take_token :
      (seen : ℕ)
      → s.pc ≡ looping seen
      → seen ≡ notified
      → s.state ≡ notified
      → Step s (record s { state = empty; pc = outside })
  token_gone :
      (seen : ℕ)
      → s.pc ≡ looping seen
      → seen ≡ notified
      → s.state ≢ notified
      → Step s (record s { pc = looping s.state })
  mark :
      (seen : ℕ)
      → s.pc ≡ looping seen
      → seen ≢ notified
      → s.state ≡ empty
      → Step s (record s { state = parked; pc = locking })
  not_empty :
      (seen : ℕ)
      → s.pc ≡ looping seen
      → seen ≢ notified
      → s.state ≢ empty
      → Step s (record s { pc = looping s.state })
  lock : s.pc ≡ locking → Step s (record s { pc = holding })
  wait : s.pc ≡ holding → Step s (record s { pc = waiting })
  relock : s.pc ≡ roused → Step s (record s { pc = swapping })
  leave :
      s.pc ≡ swapping
      → (s.state ≡ notified) ⊎ (s.state ≡ parked)
      → Step s (record s { state = empty; pc = outside })
  unreachable :
      s.pc ≡ swapping
      → s.state ≢ notified
      → s.state ≢ parked
      → Step s (record s { state = empty; pc = panicked })
  -- `unpark`: the exchange, and the notification under the lock.
  unpark_parked :
      s.state ≡ parked → Step s (record s { state = notified; notifiers = suc s.notifiers })
  unpark : s.state ≢ parked → Step s (record s { state = notified })
  notify :
      (n : ℕ)
      → s.notifiers ≡ suc n
      → s.pc ≡ waiting
      → Step s (record s { pc = roused; notifiers = n })
  notify_nobody :
      (n : ℕ)
      → s.notifiers ≡ suc n
      → s.pc ≢ waiting
      → s.pc ≢ holding
      → s.pc ≢ swapping
      → Step s (record s { notifiers = n })

-- The wait ends with no notification: its duration is over, or it wakes for no reason.
pub data Expire (s : System) : System → Type 0 where
  expire : s.pc ≡ waiting → Expire s (record s { pc = roused })

pub data Reach (s : System) : System → Type 0 where
  here : Reach s s
  later : {t u : System} → Reach s t → Step t u → Reach s u
  timed_out : {t u : System} → Reach s t → Expire t u → Reach s u

-- The same with no wait that ends by itself.
pub data Patient (s : System) : System → Type 0 where
  here : Patient s s
  later : {t u : System} → Patient s t → Step t u → Patient s u
