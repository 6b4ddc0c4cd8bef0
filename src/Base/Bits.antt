-- ===== src/Base/Bits.antt =====
-- `bit_and` with a mask does not exceed the mask: an index `h & (n - 1)` lies below `n`.
use Prim.Native.Nat.{ℕ, zero, suc, ◌-◌, ◌/◌, ◌≤◌, ◌<◌, min, bit_and, digits, bit_and-bitwise}
use native.Mathlib.Omega.{arith}

abbrev both_digits : ℕ → ℕ → ℕ → ℕ
both_digits fuel a b = digits (λ _. zero) min fuel a b

both_digits-le : (fuel a b : ℕ) → both_digits fuel a b ≤ b
both_digits-le zero zero b = omega arith
both_digits-le zero (suc a) b = omega arith
both_digits-le (suc fuel) zero b = omega arith
both_digits-le (suc fuel) (suc a) b = omega (arith, both_digits-le fuel (suc a / 2) (b / 2))

pub bit_and-le : (a b : ℕ) → bit_and a b ≤ b
bit_and-le a b = omega (arith, bit_and-bitwise a b, both_digits-le a a b)

pub bit_and-lt : (a n : ℕ) → 0 < n → bit_and a (n - 1) < n
bit_and-lt a n h = omega (arith, bit_and-le a (n - 1))
