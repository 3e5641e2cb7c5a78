-- ===== src/Common/Bits.antt =====
-- Masks and joins of bit fields as arithmetic: on one byte by a table that is checked by
-- evaluation, and on wider words from the recursion on binary digits (`Wide`).
pub mod Wide
use Prim.Native.Nat.{ℕ, zero, suc, ◌+◌, ◌*◌, ◌/◌, ◌%◌, ◌<◌, bit_and, bit_or}
use mathlib.Core.Path.{◌≡◌, refl}
use mathlib.Core.Bool.{Bool, true, false}
use mathlib.Core.Logic.{ite}
use native.Mathlib.Decide.{ℕ_discrete}
use native.Mathlib.Omega.{arith}

module _ (f g : ℕ → ℕ) where
  agree_below : ℕ → Bool
  unfolding ℕ_discrete
  agree_below zero = true
  agree_below (suc n) = ite (ℕ_discrete (f n) (g n)) (agree_below n) false

  agree_below→eq : (n : ℕ) → agree_below n ≡ true → (i : ℕ) → i < n → f i ≡ g i
  unfolding agree_below
  agree_below→eq zero e i h = absurd (omega arith)
  agree_below→eq (suc n) e i h = ground (arith, agree_below→eq n (ground arith) i)

-- One bit.
pub bit_and-8 : (x : ℕ) → x < 256 → bit_and x 8 ≡ x / 8 % 2 * 8
unfolding agree_below
bit_and-8 = agree_below→eq _ _ 256 refl

pub bit_and-4 : (x : ℕ) → x < 256 → bit_and x 4 ≡ x / 4 % 2 * 4
unfolding agree_below
bit_and-4 = agree_below→eq _ _ 256 refl

pub bit_and-32 : (x : ℕ) → x < 256 → bit_and x 32 ≡ x / 32 % 2 * 32
unfolding agree_below
bit_and-32 = agree_below→eq _ _ 256 refl

pub bit_and-128 : (x : ℕ) → x < 256 → bit_and x 128 ≡ x / 128 * 128
unfolding agree_below
bit_and-128 = agree_below→eq _ _ 256 refl

-- The low bits, and the high nibble.
pub bit_and-3 : (x : ℕ) → x < 256 → bit_and x 3 ≡ x % 4
unfolding agree_below
bit_and-3 = agree_below→eq _ _ 256 refl

pub bit_and-7 : (x : ℕ) → x < 256 → bit_and x 7 ≡ x % 8
unfolding agree_below
bit_and-7 = agree_below→eq _ _ 256 refl

pub bit_and-0xf0 : (x : ℕ) → x < 256 → bit_and x 0xf0 ≡ x / 16 * 16
unfolding agree_below
bit_and-0xf0 = agree_below→eq _ _ 256 refl

join_nibbles : (x : ℕ) → x < 256 → bit_or (x % 16) (x / 16 * 16) ≡ x
unfolding agree_below
join_nibbles = agree_below→eq _ _ 256 refl

-- A low nibble joined to a high one is their sum.
pub bit_or-nibbles : (lo hi : ℕ) → lo < 16 → hi < 16 → bit_or lo (hi * 16) ≡ hi * 16 + lo
bit_or-nibbles lo hi p q = nibbles_at (hi * 16 + lo) (omega arith) (omega arith) (omega arith)
  where
    nibbles_at : (x : ℕ) → x < 256 → x % 16 ≡ lo → x / 16 ≡ hi → bit_or lo (hi * 16) ≡ x
    nibbles_at x h e f = ground (arith, join_nibbles x)

join_flag : (x : ℕ) → x < 8 → bit_or 8 x ≡ 8 + x
unfolding agree_below
join_flag = agree_below→eq _ _ 8 refl

zero-join : (x : ℕ) → x < 16 → bit_or 0 x ≡ x
unfolding agree_below
zero-join = agree_below→eq _ _ 16 refl

pub bit_or-8 : (x : ℕ) → x < 8 → bit_or 8 x ≡ 8 + x
bit_or-8 = join_flag

pub bit_or-0 : (x : ℕ) → x < 16 → bit_or 0 x ≡ x
bit_or-0 = zero-join
