-- ===== src/MultiThread/Pool/Places.antt =====
-- The places of a worker in `run`.
use loony_rs_runtime.Base.{
  ℕ, ℕ_discrete, zero, suc, ◌+◌, ◌*◌, ◌<◌, ◌≤◌, ◌≡◌, ◌≢◌, ◌⊎◌, inl, inr, ap, ◌∙◌, arith, Bool, true,
  false, refl, update,
}
use native.Mathlib.Nat.{mul-suc}
use loony_rs_runtime.MultiThread.Pool.{
  Pc, head, popping, stealing, asking, locking, checking, testing, waiting, woken, stopped, wake_up,
}

-- Whether a worker in that place has the mutex, and whether it comes back to a search by itself.
abbrev pub holds : Pc → Bool
holds head = false
holds popping = false
holds stealing = false
holds asking = false
holds locking = false
holds checking = true
holds testing = true
holds waiting = false
holds woken = false
holds stopped = false

abbrev pub awake : Pc → Bool
awake head = true
awake popping = true
awake stealing = true
awake asking = true
awake locking = true
awake checking = true
awake testing = true
awake waiting = false
awake woken = true
awake stopped = false

pub awake_lem : (p : Pc) → p ≢ waiting → p ≢ stopped → awake p ≡ true
awake_lem p w e = ground arith

pub wake_up_lem :
    (p : Pc)
    → (holds (wake_up p) ≡ holds p)
      × (wake_up p ≡ stopped → p ≡ stopped)
      × (awake p ≡ true → awake (wake_up p) ≡ true)
      × (p ≡ stopped → wake_up p ≡ stopped)
      × (wake_up p ≢ waiting)
unfolding wake_up
wake_up_lem p = ground arith

-- How many steps a worker takes at most until it ends, once the shutdown flag is set.
abbrev pub rank : Pc → ℕ
rank head = 1
rank popping = 7
rank stealing = 6
rank asking = 5
rank locking = 4
rank checking = 3
rank testing = 2
rank waiting = 0
rank woken = 4
rank stopped = 0

-- What the places of the first workers weigh together.
abbrev pub weights : (Pc → ℕ) → (ℕ → Pc) → ℕ → ℕ
weights weight pc zero = 0
weights weight pc (suc n) = weight (pc n) + weights weight pc n

abbrev pub ranks : (ℕ → Pc) → ℕ → ℕ
ranks pc n = weights rank pc n

weights_bound :
    (weight : Pc → ℕ) (k : ℕ)
    → ((p : Pc) → weight p ≤ k)
    → (pc : ℕ → Pc) (n : ℕ) → weights weight pc n ≤ k * n
weights_bound weight k most pc zero = omega arith
weights_bound weight k most pc (suc n) =
    omega (arith, most (pc n), weights_bound weight k most pc n, mul-suc k n)

pub ranks_bound : (pc : ℕ → Pc) (n : ℕ) → ranks pc n ≤ 7 * n
ranks_bound = weights_bound rank 7 (λ p. ground arith)

weights-past :
    (weight : Pc → ℕ) (pc : ℕ → Pc) (i n : ℕ) (p : Pc)
    → n ≤ i
    → weights weight (update pc i p) n ≡ weights weight pc n
weights-past weight pc i zero p h = omega arith
weights-past weight pc i (suc n) p h = ground (arith, weights-past weight pc i n p)

pub weights-update :
    (weight : Pc → ℕ) (pc : ℕ → Pc) (i n : ℕ) (p : Pc)
    → i < n
    → weights weight (update pc i p) n + weight (pc i) ≡ weights weight pc n + weight p
weights-update weight pc i zero p h = absurd (omega arith)
weights-update weight pc i (suc n) p h = elim (ℕ_discrete i n) [
  | yes same ↦ ground (arith, weights-past weight pc i n p)
  | no apart ↦ ground (arith, weights-update weight pc i n p)
]

pub ranks-update :
    (pc : ℕ → Pc) (i n : ℕ) (p : Pc)
    → i < n
    → ranks (update pc i p) n + rank (pc i) ≡ ranks pc n + rank p
ranks-update = weights-update rank

-- Whether a worker in that place has taken itself off the count of the active ones.
abbrev pub asleep : Pc → ℕ
asleep head = 0
asleep popping = 0
asleep stealing = 0
asleep asking = 0
asleep locking = 0
asleep checking = 1
asleep testing = 1
asleep waiting = 1
asleep woken = 1
asleep stopped = 0

pub asleep_bound : (pc : ℕ → Pc) (n : ℕ) → weights asleep pc n ≤ n
asleep_bound pc n = omega (arith, weights_bound asleep 1 (λ p. ground arith) pc n)

asleep-wake : (p : Pc) → asleep (wake_up p) ≡ asleep p
unfolding wake_up
asleep-wake p = ground arith

pub asleep-wake_up :
    (pc : ℕ → Pc) (n : ℕ) → weights asleep (λ i. wake_up (pc i)) n ≡ weights asleep pc n
asleep-wake_up pc zero = refl
asleep-wake_up pc (suc n) = omega (arith, asleep-wake (pc n), asleep-wake_up pc n)

-- Either all of the first workers have ended, or one has not.
pub all_stopped :
    (pc : ℕ → Pc) (n : ℕ) → ((i : ℕ) → i < n → pc i ≡ stopped) ⊎ ((i : ℕ) × (pc i ≢ stopped))
all_stopped pc zero = inl (λ i h. absurd (omega arith))
all_stopped pc (suc n) = elim (all_stopped pc n) [
  | inr other ↦ inr other
  | inl before ↦ elim (is_stopped (pc n)) [
    | inl e ↦ inl (λ i h. elim (ℕ_discrete i n) [
      | yes same ↦ ap pc same ∙ e
      | no apart ↦ before i (omega (arith, h, apart))
    ])
    | inr e ↦ inr (n, e)
  ]
]
  where
    is_stopped : (p : Pc) → (p ≡ stopped) ⊎ (p ≢ stopped)
    is_stopped p = ground arith
