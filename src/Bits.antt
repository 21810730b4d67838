-- ===== src/Bits.antt =====
-- `&` and `|` of machine words as arithmetic. The native operations compute at numerals only; here
-- they are taken apart at any bit position, and the masks of `src/task/raw.rs` are read off.
mod Digit
use Digit.{bit_and_digit, bit_or_digit}
use Prim.Native.Nat.{min, max, bit_or-bitwise}
use mathlib.Core.Path.{ap₂}
use native.Mathlib.Nat.{pow-suc, one-le-pow}
use loony_rs_runtime.Base.{
  ℕ, zero, suc, ◌+◌, ◌-◌, ◌*◌, ◌/◌, ◌%◌, ◌^◌, ◌<◌, bit_and, bit_or, ◌≡◌, ◌∙◌, refl, ap, arith,
}

double-mul : (q k : ℕ) → q * 2 ^ suc k ≡ 2 * (q * 2 ^ k)
double-mul q k = omega (arith, ap (λ (t : ℕ). q * t) (pow-suc 2 k))

halve :
    (q k r : ℕ) → ((q * 2 ^ suc k + r) / 2 ≡ q * 2 ^ k + r / 2) × ((q * 2 ^ suc k + r) % 2 ≡ r % 2)
halve q k r = omega (arith, double-mul q k)

-- An operation that works digit by digit treats the bits above position `k` and those below apart.
module _ (op f : ℕ → ℕ → ℕ)
    (digit : (x y : ℕ) → op x y ≡ 2 * op (x / 2) (y / 2) + f (x % 2) (y % 2))
    (empty : op 0 0 ≡ 0) where
  split :
      (k q r c d : ℕ)
      → r < 2 ^ k
      → d < 2 ^ k
      → op (q * 2 ^ k + r) (c * 2 ^ k + d) ≡ op q c * 2 ^ k + op r d
  split zero q r c d hr hd = ground (arith, empty)
  split (suc k) q r c d hr hd =
      rw
        (
          digit (q * 2 ^ suc k + r) (c * 2 ^ suc k + d),
          (halve q k r).0,
          (halve q k r).1,
          (halve c k d).0,
          (halve c k d).1,
        )
        (omega (
          arith,
          split k q (r / 2) c (d / 2) (omega (arith, pow-suc 2 k)) (omega (arith, pow-suc 2 k)),
          digit r d,
          double-mul (op q c) k,
        ))

  -- The same for whole words.
  cut : (k x y : ℕ) → op x y ≡ op (x / 2 ^ k) (y / 2 ^ k) * 2 ^ k + op (x % 2 ^ k) (y % 2 ^ k)
  cut k x y =
      ap₂ op (parts x) (parts y)
      ∙ split k (x / 2 ^ k) (x % 2 ^ k) (y / 2 ^ k) (y % 2 ^ k) (small x) (small y)
    where
      parts : (w : ℕ) → w ≡ w / 2 ^ k * 2 ^ k + w % 2 ^ k
      parts w = grind (arith, one-le-pow k 2)

      small : (w : ℕ) → w % 2 ^ k < 2 ^ k
      small w = grind (arith, one-le-pow k 2)

pub bit_and_cut :
    (k x y : ℕ)
    → bit_and x y ≡ bit_and (x / 2 ^ k) (y / 2 ^ k) * 2 ^ k + bit_and (x % 2 ^ k) (y % 2 ^ k)
bit_and_cut = cut bit_and min bit_and_digit refl

pub bit_or_cut :
    (k x y : ℕ)
    → bit_or x y ≡ bit_or (x / 2 ^ k) (y / 2 ^ k) * 2 ^ k + bit_or (x % 2 ^ k) (y % 2 ^ k)
bit_or_cut = cut bit_or max bit_or_digit refl

and_zero_below : (n x : ℕ) → x < n → bit_and x 0 ≡ 0
and_zero_below zero x h = absurd (omega arith)
and_zero_below (suc n) zero h = refl
and_zero_below (suc n) (suc x) h =
    omega (arith, bit_and_digit (suc x) 0, and_zero_below n (suc x / 2) (omega arith))

or_zero_below : (n x : ℕ) → x < n → bit_or x 0 ≡ x
or_zero_below zero x h = absurd (omega arith)
or_zero_below (suc n) zero h = refl
or_zero_below (suc n) (suc x) h =
    omega (arith, bit_or_digit (suc x) 0, or_zero_below n (suc x / 2) (omega arith))

pub bit_and_zero : (x : ℕ) → bit_and x 0 ≡ 0
bit_and_zero x = and_zero_below (suc x) x (omega arith)

pub bit_or_zero : (x : ℕ) → bit_or x 0 ≡ x
bit_or_zero x = or_zero_below (suc x) x (omega arith)

pub zero-bit_or : (x : ℕ) → bit_or 0 x ≡ x
zero-bit_or x = bit_or-bitwise 0 x

ones_below : (k r : ℕ) → r < 2 ^ k → bit_and r (2 ^ k - 1) ≡ r
ones_below zero r h = omega (arith, bit_and_zero r)
ones_below (suc k) r h = ground (
  arith,
  bit_and_digit r (2 ^ suc k - 1),
  pow-suc 2 k,
  one-le-pow k 2,
  ones_below k (r / 2) (omega (arith, pow-suc 2 k)),
)

-- A mask of `k` ones keeps the low `k` bits.
pub bit_and_ones : (k x : ℕ) → bit_and x (2 ^ k - 1) ≡ x % 2 ^ k
bit_and_ones k x = ground (
  arith,
  one-le-pow k 2,
  split bit_and min bit_and_digit refl k (x / 2 ^ k) (x % 2 ^ k) 0 (2 ^ k - 1),
  bit_and_zero (x / 2 ^ k),
  ones_below k (x % 2 ^ k),
)

-- `STATE_MASK`, and the same bits seen as `COMPLETE`.
pub bit_and_three : (x : ℕ) → bit_and x 3 ≡ x % 4
bit_and_three x = bit_and_ones 2 x

pub bit_and_four : (x : ℕ) → bit_and x 4 ≡ x / 4 % 2 * 4
bit_and_four x = omega (arith, bit_and_cut 2 x 4, bit_and_ones 1 (x / 4), bit_and_zero (x % 4))

pub bit_and_eight : (x : ℕ) → bit_and x 8 ≡ x / 8 % 2 * 8
bit_and_eight x = omega (arith, bit_and_cut 3 x 8, bit_and_ones 1 (x / 8), bit_and_zero (x % 8))

-- The low bits of a word set to ones, for a mask of one or two of them.
pub bit_or_one : (x : ℕ) → bit_or x 1 ≡ x / 2 * 2 + 1
bit_or_one x = omega (arith, bit_or_digit x 1, bit_or_zero (x / 2))

pub bit_or_three : (x : ℕ) → bit_or x 3 ≡ x / 4 * 4 + 3
bit_or_three x = omega (arith, bit_or_digit x 3, bit_or_one (x / 2))

pub bit_or_four : (x : ℕ) → bit_or x 4 ≡ x / 8 * 8 + 4 + x % 4
bit_or_four x = omega (arith, bit_or_cut 2 x 4, bit_or_one (x / 4), bit_or_zero (x % 4))

pub bit_or_eight : (x : ℕ) → bit_or x 8 ≡ x / 16 * 16 + 8 + x % 8
bit_or_eight x = omega (arith, bit_or_cut 3 x 8, bit_or_one (x / 8), bit_or_zero (x % 8))

-- The complements of the masks, in a word of 64 bits.
pub bit_and_not_three : (x : ℕ) → x < 2 ^ 64 → bit_and x (2 ^ 64 - 4) ≡ x / 4 * 4
bit_and_not_three x h =
    omega (arith, bit_and_cut 2 x (2 ^ 64 - 4), bit_and_ones 62 (x / 4), bit_and_zero (x % 4))

pub bit_and_not_four : (x : ℕ) → x < 2 ^ 64 → bit_and x (2 ^ 64 - 5) ≡ x / 8 * 8 + x % 4
bit_and_not_four x h =
    omega (arith, bit_and_cut 3 x (2 ^ 64 - 5), bit_and_ones 61 (x / 8), bit_and_ones 2 (x % 8))

pub bit_and_not_eight : (x : ℕ) → x < 2 ^ 64 → bit_and x (2 ^ 64 - 9) ≡ x / 16 * 16 + x % 8
bit_and_not_eight x h =
    omega (arith, bit_and_cut 4 x (2 ^ 64 - 9), bit_and_ones 60 (x / 16), bit_and_ones 3 (x % 16))

pub bit_and_not_high :
    (x : ℕ) → x < 2 ^ 64 → bit_and x (2 ^ 64 - 1 - 0xffff_0000) ≡ x / 2 ^ 32 * 2 ^ 32 + x % 2 ^ 16
bit_and_not_high x h = omega (
  arith,
  bit_and_cut 32 x (2 ^ 64 - 1 - 0xffff_0000),
  bit_and_ones 32 (x / 2 ^ 32),
  bit_and_ones 16 (x % 2 ^ 32),
)

-- Bits 16 to 31 put into a word where they are clear.
pub bit_or_middle :
    (x y : ℕ) → x / 2 ^ 16 % 2 ^ 16 ≡ 0 → y < 2 ^ 16 → bit_or x (y * 2 ^ 16) ≡ x + y * 2 ^ 16
bit_or_middle x y clear small = ground (
  arith,
  bit_or_cut 16 x (y * 2 ^ 16),
  bit_or_cut 16 (x / 2 ^ 16) y,
  bit_or_zero (x % 2 ^ 16),
  bit_or_zero (x / 2 ^ 16 / 2 ^ 16),
  zero-bit_or y,
)
