-- ===== src/Common/Bits.antt =====
-- The bitwise operations stay within the width of their operands.
use Prim.Native.Nat.{
  ℕ, zero, suc, ◌/◌, ◌%◌, ◌^◌, ◌≤◌, ◌<◌, min, max, digits, differ, bit_and, bit_or, bit_xor,
  bit_and-bitwise, bit_or-bitwise, bit_xor-bitwise,
}
use mathlib.Core.Path.{subst, sym}
use native.Mathlib.Omega.{arith}
use native.Mathlib.Nat.{pow-suc}

-- What is left of the second number counts for at most itself, and two digits give one digit.
module _ (z : ℕ → ℕ) (f : ℕ → ℕ → ℕ) (small : (b : ℕ) → z b ≤ b)
    (digit : (x y : ℕ) → x < 2 → y < 2 → f x y < 2) where
  digits_lt : (n k a b : ℕ) → a < 2 ^ k → b < 2 ^ k → digits z f n a b < 2 ^ k
  digits_lt zero k a b ha hb = omega (arith, small b)
  digits_lt (suc n) k zero b ha hb = omega (arith, small b)
  digits_lt (suc n) zero (suc a) b ha hb = absurd (omega arith)
  digits_lt (suc n) (suc k) (suc a) b ha hb =
      let double = pow-suc 2 k in
      let rest =
        digits_lt n k (suc a / 2) (b / 2) (omega (arith, double)) (omega (arith, double)) in
      let last = digit (suc a % 2) (b % 2) (omega arith) (omega arith) in
      omega (arith, double, rest, last)

differ_lt : (x y : ℕ) → x < 2 → y < 2 → differ x y < 2
differ_lt zero y hx hy = hy
differ_lt (suc x) zero hx hy = hx
differ_lt (suc zero) (suc zero) hx hy = omega arith
differ_lt (suc zero) (suc (suc y)) hx hy = absurd (omega arith)
differ_lt (suc (suc x)) (suc y) hx hy = absurd (omega arith)

module _ (k a b : ℕ) (ha : a < 2 ^ k) (hb : b < 2 ^ k) where
  pub bit_and_lt : bit_and a b < 2 ^ k
  bit_and_lt =
      subst (λ n. n < 2 ^ k) (sym (bit_and-bitwise a b))
        (digits_lt (λ b. zero) min (λ b. omega arith) (λ x y hx hy. omega arith) a k a b ha hb)

  pub bit_or_lt : bit_or a b < 2 ^ k
  bit_or_lt =
      subst (λ n. n < 2 ^ k) (sym (bit_or-bitwise a b))
        (digits_lt (λ b. b) max (λ b. omega arith) (λ x y hx hy. omega arith) a k a b ha hb)

  pub bit_xor_lt : bit_xor a b < 2 ^ k
  bit_xor_lt =
      subst (λ n. n < 2 ^ k) (sym (bit_xor-bitwise a b))
        (digits_lt (λ b. b) differ (λ b. omega arith) differ_lt a k a b ha hb)
