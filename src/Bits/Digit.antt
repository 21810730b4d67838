-- ===== src/Bits/Digit.antt =====
-- The native `&` and `|` stand for a recursion on binary digits with fuel. Here is what it says of
-- the lowest digit, with the fuel gone.
use Prim.Native.Nat.{min, max, digits, bit_and-bitwise, bit_or-bitwise}
use loony_rs_runtime.Base.{ℕ, zero, suc, ◌+◌, ◌*◌, ◌/◌, ◌%◌, ◌≤◌, bit_and, bit_or, ◌≡◌, refl, arith}

-- Any two amounts of fuel that reach the first operand give the same digits.
fuel_irrelevant :
    (z : ℕ → ℕ) (f : ℕ → ℕ → ℕ) (s t x y : ℕ) → x ≤ s → x ≤ t → digits z f s x y ≡ digits z f t x y
fuel_irrelevant z f zero zero x y hs ht = refl
fuel_irrelevant z f zero (suc t) zero y hs ht = refl
fuel_irrelevant z f (suc s) zero zero y hs ht = refl
fuel_irrelevant z f (suc s) (suc t) zero y hs ht = refl
fuel_irrelevant z f zero t (suc x) y hs ht = absurd (omega arith)
fuel_irrelevant z f (suc s) zero (suc x) y hs ht = absurd (omega arith)
fuel_irrelevant z f (suc s) (suc t) (suc x) y hs ht =
    rw (fuel_irrelevant z f s t (suc x / 2) (y / 2) (omega arith) (omega arith))

pub bit_and_digit : (x y : ℕ) → bit_and x y ≡ 2 * bit_and (x / 2) (y / 2) + min (x % 2) (y % 2)
bit_and_digit zero y = omega (arith, bit_and-bitwise 0 y, bit_and-bitwise 0 (y / 2))
bit_and_digit (suc x) y = omega (
  arith,
  bit_and-bitwise (suc x) y,
  bit_and-bitwise (suc x / 2) (y / 2),
  fuel_irrelevant (λ _. 0) min x (suc x / 2) (suc x / 2) (y / 2) (omega arith) (omega arith),
)

pub bit_or_digit : (x y : ℕ) → bit_or x y ≡ 2 * bit_or (x / 2) (y / 2) + max (x % 2) (y % 2)
bit_or_digit zero y = omega (arith, bit_or-bitwise 0 y, bit_or-bitwise 0 (y / 2))
bit_or_digit (suc x) y = omega (
  arith,
  bit_or-bitwise (suc x) y,
  bit_or-bitwise (suc x / 2) (y / 2),
  fuel_irrelevant (λ d. d) max x (suc x / 2) (suc x / 2) (y / 2) (omega arith) (omega arith),
)
