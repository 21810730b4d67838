-- ===== src/Task/State/Updates.antt =====
-- What the updates of the state word change, and what they leave alone.
use loony_rs_runtime.Base.{
  ℕ, ◌+◌, ◌*◌, ◌/◌, ◌%◌, ◌^◌, ◌<◌, bit_and, bit_or, ◌≡◌, ◌⊎◌, inl, inr, arith, true, false,
}
use loony_rs_runtime.Bits.{
  bit_and_four, bit_and_eight, bit_and_cut, bit_and_ones, bit_and_zero, bit_and_not_four,
  bit_and_not_eight, bit_and_not_high, bit_or_four, bit_or_eight, bit_or_middle,
}
use loony_rs_runtime.Task.State.{
  TaskState, usize, state, flags, refcount, is_aborted, has_join_interest, aborted, join_interest,
  with_refcount, with_flag, without_flag,
}
use loony_rs_runtime.Task.State.Fields.{field_laws, state_lem, flags_lem, refcount_lem}

shifted : (n : ℕ) → bit_and (usize (n * 2 ^ 16)) 0xffff_0000 ≡ n % 2 ^ 16 * 2 ^ 16
shifted n = omega (
  arith,
  bit_and_cut 16 (usize (n * 2 ^ 16)) 0xffff_0000,
  bit_and_ones 16 (usize (n * 2 ^ 16) / 2 ^ 16),
  bit_and_zero (usize (n * 2 ^ 16) % 2 ^ 16),
)

pub with_refcount_bits :
    (s : TaskState) (n : ℕ)
    → s.bits < 2 ^ 64
    → (with_refcount s n).bits ≡ s.bits / 2 ^ 32 * 2 ^ 32 + s.bits % 2 ^ 16 + n % 2 ^ 16 * 2 ^ 16
unfolding with_refcount
with_refcount_bits s n h =
    rw (shifted n, bit_and_not_high s.bits h)
      (bit_or_middle (s.bits / 2 ^ 32 * 2 ^ 32 + s.bits % 2 ^ 16) (n % 2 ^ 16) (omega arith)
        (omega arith))

-- `with_refcount` stores the count modulo 2^16 and keeps the state and the flags.
pub refcount-with_refcount :
    (s : TaskState) (n : ℕ)
    → s.bits < 2 ^ 64
    → (refcount (with_refcount s n) ≡ n % 2 ^ 16)
      × (state (with_refcount s n) ≡ state s)
      × (flags (with_refcount s n) ≡ flags s)
refcount-with_refcount s n h = omega (
  arith,
  with_refcount_bits s n h,
  refcount_lem (with_refcount s n),
  state_lem (with_refcount s n),
  flags_lem (with_refcount s n),
  state_lem s,
  flags_lem s,
)

-- `with_flag` sets the flag that it is given, and keeps the other flag, the state and the count.
pub with_flag_lem :
    (s : TaskState)
    → (is_aborted (with_flag s aborted) ≡ true)
      × (has_join_interest (with_flag s aborted) ≡ has_join_interest s)
      × (has_join_interest (with_flag s join_interest) ≡ true)
      × (is_aborted (with_flag s join_interest) ≡ is_aborted s)
      × (state (with_flag s aborted) ≡ state s)
      × (state (with_flag s join_interest) ≡ state s)
      × (refcount (with_flag s aborted) ≡ refcount s)
      × (refcount (with_flag s join_interest) ≡ refcount s)
unfolding with_flag
with_flag_lem s = simp (field_laws, bit_or_four, bit_or_eight) (ground arith)

-- `without_flag` clears the flag that it is given, and keeps the other flag, the state and the
-- count.
pub without_flag_lem :
    (s : TaskState)
    → s.bits < 2 ^ 64
    → (is_aborted (without_flag s aborted) ≡ false)
      × (has_join_interest (without_flag s aborted) ≡ has_join_interest s)
      × (has_join_interest (without_flag s join_interest) ≡ false)
      × (is_aborted (without_flag s join_interest) ≡ is_aborted s)
      × (state (without_flag s aborted) ≡ state s)
      × (state (without_flag s join_interest) ≡ state s)
      × (refcount (without_flag s aborted) ≡ refcount s)
      × (refcount (without_flag s join_interest) ≡ refcount s)
unfolding without_flag
without_flag_lem s h =
    simp (field_laws, bit_and_not_four s.bits h, bit_and_not_eight s.bits h) (ground arith)

-- On a word that lacks a flag, clearing the flag after setting it gives the word back.
pub without_flag-with_flag :
    (s flag : TaskState)
    → (flag ≡ aborted) ⊎ (flag ≡ join_interest)
    → s.bits < 2 ^ 64
    → bit_and s.bits flag.bits ≡ 0
    → without_flag (with_flag s flag) flag ≡ s
unfolding without_flag with_flag
without_flag-with_flag s flag (inl e) h clear = rw e (
    ground (
      arith,
      bit_and_four s.bits,
      bit_or_four s.bits,
      bit_and_not_four (bit_or s.bits 4) (omega (arith, bit_or_four s.bits)),
    ))
without_flag-with_flag s flag (inr e) h clear = rw e (
    ground (
      arith,
      bit_and_eight s.bits,
      bit_or_eight s.bits,
      bit_and_not_eight (bit_or s.bits 8) (omega (arith, bit_or_eight s.bits)),
    ))
