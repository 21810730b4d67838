-- ===== src/Timer.antt =====
-- The timers of src/runtime/park.rs (`TimerEntry`, `TimeDriver`, `Parker`) and of src/time/mod.rs
-- (`Sleep`). An `Instant` and a `Duration` are numbers.
pub mod Order
pub mod Firing
pub mod Sleeping
pub mod Parker
pub mod Driver
use loony_rs_runtime.Base.{
  ℕ, zero, suc, ◌+◌, ◌-◌, ◌<◌, ◌≤◌, ltb, leb, ◌≡◌, Bool, true, false, if◌then◌else◌, Option, none,
  some, List, [], ◌∷◌, ◌++◌,
}
use Prim.Native.Nat.{compare, Ordering}
use mathlib.Core.List.{Mem, Perm}
use mathlib.Core.Option

pub record TimerEntry (W : Type 0) : Type 0 where
  pub deadline : ℕ
  pub waker : W

-- `Ord for TimerEntry`, the reverse of the order of the deadlines.
unfoldable pub cmp : {W : Type 0} → TimerEntry W → TimerEntry W → Ordering
cmp self other = compare other.deadline self.deadline

-- `PartialEq for TimerEntry`
unfoldable pub eq : {W : Type 0} → TimerEntry W → TimerEntry W → Bool
eq self other = elim (compare self.deadline other.deadline) [ Ordering.eq ↦ true | _ ↦ false ]

-- `std::collections::BinaryHeap` of entries: `pop` takes an item that no other exceeds, and `peek`
-- shows the one that `pop` would take.
pub record BinaryHeap (W : Type 0) : Type 1 where
  pub Heap : Type 0
  pub items : Heap → List (TimerEntry W)
  pub len : Heap → ℕ
  pub new : Heap
  pub push : TimerEntry W → Heap → Heap
  pub peek : Heap → Option (TimerEntry W)
  pub pop : Heap → Option (TimerEntry W × Heap)
  pub items-new : items new ≡ []
  pub items-push : (e : TimerEntry W) (h : Heap) → Perm (items (push e h)) (e ∷ items h)
  pub peek-pop : (h : Heap) → peek h ≡ Option.map (λ r. r.0) (pop h)
  pub pop_empty : (h : Heap) → pop h ≡ none → items h ≡ []
  pub items-pop :
      (h g : Heap) (e : TimerEntry W) → pop h ≡ some (e, g) → Perm (items h) (e ∷ items g)
  pub len-pop : (h g : Heap) (e : TimerEntry W) → pop h ≡ some (e, g) → len h ≡ suc (len g)
  pub pop_greatest :
      (h g : Heap) (e x : TimerEntry W)
      → pop h ≡ some (e, g)
      → Mem x (items h)
      → (cmp x e ≡ Ordering.gt → ⊥)

module _ {W : Type 0} (B : BinaryHeap W) where
  open B use {Heap, push, peek, pop}

  -- `TimeDriver::schedule`
  unfoldable pub schedule : ℕ → W → Heap → Heap
  schedule deadline waker timers = push (record { deadline = deadline; waker = waker }) timers

  unfoldable pub next_deadline : Heap → Option ℕ
  next_deadline timers = Option.map (λ e. e.deadline) (peek timers)

  -- `TimeDriver::process` at the instant `now`: the entries whose wakers it wakes, in order, and the
  -- timers left. `none` is fuel that ran out, or `unwrap` on an empty heap.
  unfoldable pub process : ℕ → ℕ → Heap → Option (List (TimerEntry W) × Heap)
  process zero now timers = none
  process (suc fuel) now timers = elim (peek timers) [
    | none ↦ some ([], timers)
    | some entry ↦ if ltb now entry.deadline then some ([], timers) else elim (pop timers) [
      | none ↦ none
      | some (e, rest) ↦ Option.map (λ r. (e ∷ r.0, r.1)) (process fuel now rest)
    ]
  ]

-- The call that `Parker::park_timeout` makes on its parker.
pub data ParkCall : Type 0 where
  park : ParkCall
  park_timeout : ℕ → ParkCall

-- `Parker::park_timeout`: `next` is what `next_deadline` of the time driver says, if there is one.
unfoldable pub park_call : Option ℕ → ℕ → Option ℕ → ParkCall
park_call next now timeout =
    let otherwise : ParkCall = elim timeout [ none ↦ park | some t ↦ park_timeout t ] in
    elim next [
      | none ↦ otherwise
      | some deadline ↦
          if ltb now deadline
          then elim timeout [
            | none ↦ park_timeout (deadline - now)
            | some t ↦ if ltb (deadline - now) t then park_timeout (deadline - now) else otherwise
          ]
          else otherwise
    ]

-- src/time/mod.rs: a `Sleep` future; the driver it shares is a list of entries in the order in which
-- they were pushed, and the waker of the driver's thread.
pub record Sleep : Type 0 where
  pub deadline : ℕ
  pub registered : Bool

pub record TimeDriverInner (W : Type 0) : Type 0 where
  pub timers : List (TimerEntry W)
  pub waker : Option W
  pub woken : List W

unfoldable pub sleep : ℕ → ℕ → Sleep
sleep now duration = record { deadline = now + duration; registered = false }

-- `Sleep::poll` at `now` with the waker `w`: `true` is `Ready`. `woken` lists the wakers woken.
unfoldable pub poll_sleep :
    {W : Type 0} → ℕ → W → Sleep × TimeDriverInner W → Bool × Sleep × TimeDriverInner W
poll_sleep now w (s, inner) =
    if leb s.deadline now then (true, s, inner) else if s.registered then (false, s, inner) else (
      false,
      record s { registered = true },
      record {
        timers = inner.timers ++ record { deadline = s.deadline; waker = w } ∷ [];
        waker = none;
        woken = elim inner.waker [ none ↦ inner.woken | some v ↦ inner.woken ++ v ∷ [] ];
      },
    )
