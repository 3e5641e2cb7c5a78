-- ===== src/Common/Bits/Wide.antt =====
-- `|` of disjoint fields and `&` with a mask of ones at any width.
use Prim.Native.Nat.{
  ℕ, zero, suc, ◌+◌, ◌-◌, ◌*◌, ◌/◌, ◌%◌, ◌^◌, ◌<◌, ◌≤◌, min, max, bit_and, bit_or, digits,
  bit_and-bitwise, bit_or-bitwise,
}
use mathlib.Core.Path.{◌≡◌, refl, ap}
use native.Mathlib.Nat.{pow-suc, one-le-pow}
use native.Mathlib.Omega.{arith}

module _ (zero_case : ℕ → ℕ) (digit : ℕ → ℕ → ℕ) where
  -- The digit recursion does not depend on its fuel, once that covers the first number.
  fuel_enough :
      (n m a b : ℕ) → a ≤ n → a ≤ m → digits zero_case digit n a b ≡ digits zero_case digit m a b
  fuel_enough zero zero a b p q = refl
  fuel_enough zero (suc m) zero b p q = refl
  fuel_enough zero (suc m) (suc a) b p q = absurd (omega arith)
  fuel_enough (suc n) zero zero b p q = refl
  fuel_enough (suc n) zero (suc a) b p q = absurd (omega arith)
  fuel_enough (suc n) (suc m) zero b p q = refl
  fuel_enough (suc n) (suc m) (suc a) b p q =
      omega (arith, fuel_enough n m (suc a / 2) (b / 2) (omega arith) (omega arith))

-- One digit of each operation.
and_digit :
    (a b : ℕ) → bit_and (suc a) b ≡ bit_and (suc a / 2) (b / 2) * 2 + min (suc a % 2) (b % 2)
and_digit a b = omega (
  arith,
  bit_and-bitwise (suc a) b,
  bit_and-bitwise (suc a / 2) (b / 2),
  fuel_enough (λ b. zero) min a (suc a / 2) (suc a / 2) (b / 2) (omega arith) (omega arith),
)

or_digit : (a b : ℕ) → bit_or (suc a) b ≡ bit_or (suc a / 2) (b / 2) * 2 + max (suc a % 2) (b % 2)
or_digit a b = omega (
  arith,
  bit_or-bitwise (suc a) b,
  bit_or-bitwise (suc a / 2) (b / 2),
  fuel_enough (λ b. b) max a (suc a / 2) (suc a / 2) (b / 2) (omega arith) (omega arith),
)

zero-and : (b : ℕ) → bit_and 0 b ≡ 0
zero-and b = bit_and-bitwise 0 b

zero-or : (b : ℕ) → bit_or 0 b ≡ b
zero-or b = bit_or-bitwise 0 b

and-zero_below : (n a : ℕ) → a ≤ n → bit_and a 0 ≡ 0
and-zero_below n zero h = refl
and-zero_below zero (suc a) h = absurd (omega arith)
and-zero_below (suc n) (suc a) h =
    omega (arith, and_digit a 0, and-zero_below n (suc a / 2) (omega arith))

or-zero_below : (n a : ℕ) → a ≤ n → bit_or a 0 ≡ a
or-zero_below n zero h = refl
or-zero_below zero (suc a) h = absurd (omega arith)
or-zero_below (suc n) (suc a) h =
    omega (arith, or_digit a 0, or-zero_below n (suc a / 2) (omega arith))

and_step : (a b : ℕ) → bit_and a b ≡ bit_and (a / 2) (b / 2) * 2 + min (a % 2) (b % 2)
and_step zero b = omega (arith, zero-and b, zero-and (b / 2))
and_step (suc a) b = and_digit a b

or_step : (a b : ℕ) → bit_or a b ≡ bit_or (a / 2) (b / 2) * 2 + max (a % 2) (b % 2)
or_step zero b = omega (arith, zero-or b, zero-or (b / 2))
or_step (suc a) b = or_digit a b

double_power : (k a : ℕ) → a * 2 ^ suc k ≡ a * 2 ^ k * 2
double_power k a = omega (arith, ap (◌*◌ a) (pow-suc 2 k))

-- `(a << k) | b` puts `b` under `a` when it fits `k` bits.
pub bit_or_fields : (k a b : ℕ) → b < 2 ^ k → bit_or (a * 2 ^ k) b ≡ a * 2 ^ k + b
bit_or_fields zero a b h = ground (arith, or-zero_below a a (omega arith))
bit_or_fields (suc k) a b h =
    ground (arith, or_step (a * 2 ^ suc k) b, double_power k a, bit_or_fields k a (b / 2))

ones_of_sum : (k q r : ℕ) → r < 2 ^ k → bit_and (q * 2 ^ k + r) (2 ^ k - 1) ≡ r
ones_of_sum zero q r h = omega (arith, and-zero_below (q * 1 + r) (q * 1 + r) (omega arith))
ones_of_sum (suc k) q r h = ground (
  arith,
  and_step (q * 2 ^ suc k + r) (2 ^ suc k - 1),
  double_power k q,
  pow-suc 2 k,
  ones_of_sum k q (r / 2),
)

-- `a & (2^k - 1)` keeps the low `k` bits.
pub bit_and-ones : (k a : ℕ) → bit_and a (2 ^ k - 1) ≡ a % 2 ^ k
bit_and-ones k a = ground (arith, one-le-pow k 2, ones_of_sum k (a / 2 ^ k) (a % 2 ^ k))

-- `a | (2^k - 1)` sets the low `k` bits.
pub bit_or-ones :
    (k q r : ℕ) → r < 2 ^ k → bit_or (q * 2 ^ k + r) (2 ^ k - 1) ≡ q * 2 ^ k + (2 ^ k - 1)
bit_or-ones zero q r h = omega (arith, or-zero_below (q * 1 + r) (q * 1 + r) (omega arith))
bit_or-ones (suc k) q r h = ground (
  arith,
  or_step (q * 2 ^ suc k + r) (2 ^ suc k - 1),
  double_power k q,
  pow-suc 2 k,
  bit_or-ones k q (r / 2),
)
