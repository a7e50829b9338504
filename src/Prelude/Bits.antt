-- ===== src/Prelude/Bits.antt =====
-- Bounds of the bitwise operations, which the words of a header need.
use Prim.Native.Nat.{
  ℕ, zero, suc, ◌+◌, ◌/◌, ◌%◌, ◌≤◌, ◌<◌, min, max, digits, bit_and, bit_or, bit_and-bitwise,
  bit_or-bitwise,
}
use native.Mathlib.Omega.{arith}

digits_or_le : (n a b : ℕ) → digits (λ y. y) max n a b ≤ a + b
digits_or_le zero a b = omega arith
digits_or_le (suc n) zero b = omega arith
digits_or_le (suc n) (suc a) b =
    omega (arith, digits_or_le n (suc a / 2) (b / 2), max_le (suc a % 2) (b % 2))
  where
    max_le : (x y : ℕ) → max x y ≤ x + y
    max_le x y = omega arith

digits_and_le : (n a b : ℕ) → digits (λ y. 0) min n a b ≤ b
digits_and_le zero a b = omega arith
digits_and_le (suc n) zero b = omega arith
digits_and_le (suc n) (suc a) b =
    omega (arith, digits_and_le n (suc a / 2) (b / 2), min_le (suc a % 2) (b % 2))
  where
    min_le : (x y : ℕ) → min x y ≤ y
    min_le x y = omega arith

pub bit_or-le : (a b : ℕ) → bit_or a b ≤ a + b
bit_or-le a b = rw (bit_or-bitwise a b) (digits_or_le a a b)

pub bit_and-le : (a b : ℕ) → bit_and a b ≤ b
bit_and-le a b = rw (bit_and-bitwise a b) (digits_and_le a a b)

-- A masked value with other digits set.
pub masked_word : (n mask set m : ℕ) → mask + set < m → bit_or (bit_and n mask) set < m
masked_word n mask set m h = omega (arith, bit_or-le (bit_and n mask) set, bit_and-le n mask)
