-- ===== src/Park/ThreadParker.antt =====
-- `ThreadParker` of src/runtime/scheduler/current_thread.rs, an atomic access at a time: one thread
-- that parks, and any number of others that unpark it. Unlike `ThreadPark` it parks with or without a
-- duration, looks at the word after a wait that timed out, and gives the mutex back before that.
pub mod Arms
pub mod Lost
use loony_rs_runtime.Base.{ℕ, suc, ◌≡◌, ◌≢◌, ◌⊎◌, Bool, true, false}

abbrev pub empty : ℕ
empty = 0

abbrev pub parked : ℕ
parked = 1

abbrev pub notified : ℕ
notified = 2

-- Where the parking thread stands: not in `park_timeout`; in its loop, having seen `seen`; before
-- `mutex.lock`; with the lock, before the wait; in the wait; out of the wait by a notification or for
-- no reason, or by a timeout, before it has the lock again; before the load after a timeout; before
-- the store, having loaded `PARKED`; before the last exchange; and in the `unreachable!` arm.
pub data Pc : Type 0 where
  outside : Pc
  looping : (seen : ℕ) → Pc
  locking holding waiting roused elapsed testing storing swapping panicked : Pc

-- `timed` tells whether the call has a duration. `notifiers` counts the threads in `unpark` that saw
-- `PARKED` and have not called `notify_one` yet.
pub record System : Type 0 where
  pub state : ℕ
  pub pc : Pc
  pub timed : Bool
  pub notifiers : ℕ

-- `ThreadParker::new`
abbrev pub new : System
new = record { state = empty; pc = outside; timed = false; notifiers = 0 }

-- `park` and `park_timeout`
pub data Park (s : System) : System → Type 0 where
  enter : (b : Bool) → s.pc ≡ outside → Park s (record s { pc = looping s.state; timed = b })
  take_token :
      (seen : ℕ)
      → s.pc ≡ looping seen
      → seen ≡ notified
      → s.state ≡ notified
      → Park s (record s { state = empty; pc = outside })
  token_gone :
      (seen : ℕ)
      → s.pc ≡ looping seen
      → seen ≡ notified
      → s.state ≢ notified
      → Park s (record s { pc = looping s.state })
  mark :
      (seen : ℕ)
      → s.pc ≡ looping seen
      → seen ≢ notified
      → s.state ≡ empty
      → Park s (record s { state = parked; pc = locking })
  not_empty :
      (seen : ℕ)
      → s.pc ≡ looping seen
      → seen ≢ notified
      → s.state ≢ empty
      → Park s (record s { pc = looping s.state })
  lock : s.pc ≡ locking → Park s (record s { pc = holding })
  wait : s.pc ≡ holding → Park s (record s { pc = waiting })
  spurious : s.pc ≡ waiting → Park s (record s { pc = roused })
  times_out : s.pc ≡ waiting → s.timed ≡ true → Park s (record s { pc = elapsed })
  relock : s.pc ≡ roused → Park s (record s { pc = swapping })
  relock_late : s.pc ≡ elapsed → Park s (record s { pc = testing })
  still_parked : s.pc ≡ testing → s.state ≡ parked → Park s (record s { pc = storing })
  not_parked : s.pc ≡ testing → s.state ≢ parked → Park s (record s { pc = swapping })
  store : s.pc ≡ storing → Park s (record s { state = empty; pc = outside })
  leave :
      s.pc ≡ swapping
      → (s.state ≡ notified) ⊎ (s.state ≡ parked)
      → Park s (record s { state = empty; pc = outside })
  unreachable :
      s.pc ≡ swapping
      → s.state ≢ notified
      → s.state ≢ parked
      → Park s (record s { state = empty; pc = panicked })

-- `unpark`: the exchange, and the notification under the lock.
pub data Unpark (s : System) : System → Type 0 where
  unpark_parked :
      s.state ≡ parked → Unpark s (record s { state = notified; notifiers = suc s.notifiers })
  unpark : s.state ≢ parked → Unpark s (record s { state = notified })
  notify :
      (n : ℕ)
      → s.notifiers ≡ suc n
      → s.pc ≡ waiting
      → Unpark s (record s { pc = roused; notifiers = n })
  notify_nobody :
      (n : ℕ)
      → s.notifiers ≡ suc n
      → s.pc ≢ waiting
      → s.pc ≢ holding
      → Unpark s (record s { notifiers = n })

pub data Reach : System → Type 0 where
  begin : Reach new
  parks : {s t : System} → Reach s → Park s t → Reach t
  unparks : {s t : System} → Reach s → Unpark s t → Reach t

-- Steps of any thread, with no wait that ends by itself.
pub data Patient (s : System) : System → Type 0 where
  here : Patient s s
  parks_on :
      {t u : System}
      → Patient s t
      → Park t u
      → u.pc ≢ elapsed
      → (t.pc ≡ waiting → u.pc ≢ roused)
      → Patient s u
  unparks_on : {t u : System} → Patient s t → Unpark t u → Patient s u
