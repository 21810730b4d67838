-- ===== src/Timer/Parker/Waits.antt =====
-- How long a `Parker` waits, and which timers are due when it has waited.
use loony_rs_runtime.Base.{
  ℕ, suc, ◌+◌, ◌-◌, ◌<◌, ◌≤◌, ◌≡◌, ◌⊎◌, ◌∙◌, refl, arith, inl, inr, Option, Bool-cases, ltb, none,
  some, List, ◌∷◌,
}
use loony_rs_runtime.Timer.{
  TimerEntry, BinaryHeap, process, ParkCall, park, park_timeout, park_call, next_deadline,
}
use loony_rs_runtime.Timer.Order.{pop_of_peek}
use loony_rs_runtime.Timer.Firing.{process_fires}
use loony_rs_runtime.Timer.Parker.{Parker, asked}
use loony_rs_runtime.Io.{Mio, Slab}

-- A wait without a timer.
abbrev pub whole : Option ℕ → ParkCall
whole none = park
whole (some t) = park_timeout t

-- Not above the timeout, if there is one.
abbrev pub Within : Option ℕ → ℕ → Type 0
Within none d = Unit
Within (some t) d = d ≤ t

module _ {W : Type 0} (B : BinaryHeap W) where
  open B use {Heap, len, peek, len-pop}

  process_first :
      (fuel now : ℕ) (h : Heap) (e : TimerEntry W)
      → peek h ≡ some e
      → e.deadline ≤ now
      → len h ≤ fuel
      → (es : List (TimerEntry W)) × (g : Heap) × (process B (suc fuel) now h ≡ some (e ∷ es, g))
  unfolding process
  process_first fuel now h e q due enough =
      let (k, r) = pop_of_peek B h e q in
      elim (Bool-cases (ltb now e.deadline)) [
        | inl wait ↦ absurd (ground arith)
        | inr over ↦
            let (es, g, ran, rest) = process_fires B fuel now k (omega (arith, len-pop h k e r)) in
            (es, g, ground arith)
      ]

park_call_ahead :
    (deadline now : ℕ) (timeout : Option ℕ)
    → now < deadline
    → (d : ℕ) × (park_call (some deadline) now timeout ≡ park_timeout d)
      × Within timeout d
      × ((d ≡ deadline - now) ⊎ ((timeout ≡ some d) × (d ≤ deadline - now)))
unfolding park_call
park_call_ahead deadline now none lt = (deadline - now, ground arith, tt, inl refl)
park_call_ahead deadline now (some t) lt = elim (Bool-cases (ltb (deadline - now) t)) [
  | inl shorter ↦ (deadline - now, ground arith, ground arith, inl refl)
  | inr longer ↦ (t, ground arith, omega arith, inr (refl, ground arith))
]

park_call_passed :
    (deadline now : ℕ) (timeout : Option ℕ)
    → deadline ≤ now
    → park_call (some deadline) now timeout ≡ whole timeout
unfolding park_call
park_call_passed deadline now none le = ground arith
park_call_passed deadline now (some t) le = ground arith

module _ {W : Type 0} (M : Mio) (S : Slab W) (B : BinaryHeap W) where
  open B use {Heap, len, peek}

  asked_lem :
      (now : ℕ) (timeout : Option ℕ) (p : Parker M S B) (h : Heap) (e : TimerEntry W)
      → p.time_driver ≡ some h
      → peek h ≡ some e
      → asked M S B now timeout p ≡ park_call (some e.deadline) now timeout
  unfolding asked next_deadline
  asked_lem now timeout p h e driver first = rw (driver, first) refl

  -- A parker whose time driver holds a timer, with fuel for the timers in `process`. Either the earliest
  -- deadline is ahead: then the wait is within the timeout and not longer than until the deadline, and
  -- unless the timeout cuts it off, `process` fires that timer when it is over. Or the deadline has passed:
  -- then the parker waits for the whole timeout, or without a limit, although `process` would fire the
  -- timer at once.
  pub parker_waits :
      (fuel now : ℕ) (timeout : Option ℕ) (p : Parker M S B) (h : Heap) (e : TimerEntry W)
      → p.time_driver ≡ some h
      → peek h ≡ some e
      → len h ≤ fuel
      → ((d : ℕ) × (asked M S B now timeout p ≡ park_timeout d)
          × Within timeout d
          × (now < e.deadline)
          × (now + d ≤ e.deadline)
          × ((timeout ≡ some d)
              ⊎ ((es : List (TimerEntry W)) × (g : Heap) × (process B (suc fuel) (now + d) h
                    ≡ some (e ∷ es, g)))))
        ⊎ ((e.deadline ≤ now)
            × (asked M S B now timeout p ≡ whole timeout)
            × ((es : List (TimerEntry W)) × (g : Heap) × (process B (suc fuel) now h
                  ≡ some (e ∷ es, g))))
  parker_waits fuel now timeout p h e driver first enough =
      let asks = asked_lem now timeout p h e driver first in
      elim (Bool-cases (ltb now e.deadline)) [
        | inl lt ↦
            let ahead : now < e.deadline = ground arith in
            let (d, call, within, which) = park_call_ahead e.deadline now timeout ahead in
            inl (
              d,
              asks ∙ call,
              within,
              ahead,
              ground (arith, which),
              elim which [
                | inl full ↦
                    inr (process_first B fuel (now + d) h e first (omega (arith, full)) enough)
                | inr cut ↦ inl cut.0
              ],
            )
        | inr ge ↦
            let passed : e.deadline ≤ now = ground arith in
            inr (
              passed,
              asks ∙ park_call_passed e.deadline now timeout passed,
              process_first B fuel now h e first passed enough,
            )
      ]
