-- ===== src/Timer/Sleeping.antt =====
-- How long `Parker` parks, and what a `Sleep` future registers.
use loony_rs_runtime.Base.{
  ℕ, ◌+◌, ◌-◌, ◌≤◌, ◌<◌, ◌≡◌, refl, ap, ◌∙◌, arith, inl, inr, Bool-cases, leb, ltb, sym, true,
  false, some, none, List, [], ◌∷◌, ◌++◌, Option, Bool, if◌then◌else◌,
}
use mathlib.Core.List.{append-nil}
use loony_rs_runtime.Timer.{
  TimerEntry, park_timeout, park_call, Sleep, TimeDriverInner, sleep, poll_sleep,
}

-- No longer than the caller asked for.
abbrev pub Within : Option ℕ → ℕ → Type 0
Within none t = Unit
Within (some limit) t = t ≤ limit

-- With a timer ahead, `Parker::park_timeout` parks with a duration that ends by its deadline, and by
-- the timeout that it was given.
pub parks_until_deadline :
    (deadline now : ℕ) (timeout : Option ℕ)
    → now < deadline
    → (t : ℕ) × (park_call (some deadline) now timeout ≡ park_timeout t)
      × (now + t ≤ deadline)
      × Within timeout t
unfolding park_call
parks_until_deadline deadline now none h = (deadline - now, ground arith, omega arith, tt)
parks_until_deadline deadline now (some limit) h = elim (Bool-cases (ltb (deadline - now) limit)) [
  | inl b ↦ (deadline - now, ground arith, omega arith, ground arith)
  | inr b ↦ (limit, ground arith, ground arith, ground arith)
]

-- A timer that is due already is passed over: the thread parks as if there were no timers, for the
-- whole timeout, or for good.
pub due_timer_ignored :
    (deadline now : ℕ) (timeout : Option ℕ)
    → deadline ≤ now
    → park_call (some deadline) now timeout ≡ park_call none now timeout
unfolding park_call
due_timer_ignored deadline now none h = ground arith
due_timer_ignored deadline now (some limit) h = ground arith

module _ {W : Type 0} where
  -- Polls at given instants with given wakers.
  abbrev pub polls : List (ℕ × W) → Sleep × TimeDriverInner W → Sleep × TimeDriverInner W
  polls [] s = s
  polls ((now, w) ∷ ps) s = let r = poll_sleep now w s in polls ps (r.1, r.2)

  -- The waker of the first poll before the deadline.
  abbrev pub first_early : ℕ → List (ℕ × W) → Option W
  first_early deadline [] = none
  first_early deadline ((now, w) ∷ ps) =
      if leb deadline now then first_early deadline ps else some w

  abbrev pub entries : ℕ → Option W → List (TimerEntry W)
  entries deadline none = []
  entries deadline (some w) = record { deadline = deadline; waker = w } ∷ []

  late :
      (now : ℕ) (w : W) (s : Sleep) (inner : TimeDriverInner W)
      → leb s.deadline now ≡ true
      → poll_sleep now w (s, inner) ≡ (true, s, inner)
  unfolding poll_sleep
  late now w s inner h = ground arith

  early :
      (now : ℕ) (w : W) (s : Sleep) (inner : TimeDriverInner W)
      → leb s.deadline now ≡ false
      → s.registered ≡ false
      → ((poll_sleep now w (s, inner)).1 ≡ record s { registered = true })
        × ((poll_sleep now w (s, inner)).2.timers ≡ inner.timers ++ entries s.deadline (some w))
  unfolding poll_sleep
  early now w s inner h k = ground arith

  registered_stays :
      (ps : List (ℕ × W)) (s : Sleep) (inner : TimeDriverInner W)
      → s.registered ≡ true
      → (polls ps (s, inner)).1 ≡ inner
  unfolding poll_sleep
  registered_stays [] s inner h = refl
  registered_stays ((now, w) ∷ ps) s inner h =
      ap (λ (r : Bool × Sleep × TimeDriverInner W). (polls ps (r.1, r.2)).1)
        {x = poll_sleep now w (s, inner)} {y = (leb s.deadline now, s, inner)} (ground arith)
      ∙ registered_stays ps s inner h

  registers_once :
      (ps : List (ℕ × W)) (s : Sleep) (inner : TimeDriverInner W)
      → s.registered ≡ false
      → (polls ps (s, inner)).1.timers
        ≡ inner.timers ++ entries s.deadline (first_early s.deadline ps)
  registers_once [] s inner k = sym (append-nil inner.timers)
  registers_once ((now, w) ∷ ps) s inner k = elim (Bool-cases (leb s.deadline now)) [
    | inl b ↦ rw b (
        ap (λ (r : Bool × Sleep × TimeDriverInner W). (polls ps (r.1, r.2)).1.timers)
          (late now w s inner b)
        ∙ registers_once ps s inner k)
    | inr b ↦ rw b (
        ap (λ (x : TimeDriverInner W). x.timers)
          (registered_stays ps (poll_sleep now w (s, inner)).1 (poll_sleep now w (s, inner)).2
            (ap (λ (x : Sleep). x.registered) (early now w s inner b k).0))
        ∙ (early now w s inner b k).1)
  ]

  -- However often a `Sleep` is polled, it leaves one entry with the driver: that of its first poll
  -- before the deadline, with the waker of that poll. Wakers of later polls are not kept.
  pub sleep_registers_once :
      (ps : List (ℕ × W)) (start duration : ℕ) (inner : TimeDriverInner W)
      → (polls ps (sleep start duration, inner)).1.timers
        ≡ inner.timers ++ entries (start + duration) (first_early (start + duration) ps)
  unfolding sleep
  sleep_registers_once ps start duration inner =
      registers_once ps (record { deadline = start + duration; registered = false }) inner refl
