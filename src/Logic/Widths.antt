-- ===== src/Logic/Widths.antt =====
-- The bit length that EXP charges gas by.
use native.Mathlib.Nat.{pow-suc}
use veda_bvm.Common.{
  ℕ, zero, suc, ◌*◌, ◌/◌, ◌^◌, ◌≤◌, ◌<◌, ◌≡◌, arith, ◌==◌, Bool-cases, ==_iff, inl, inr,
}
use veda_bvm.Logic.Arithmetic.{bit_length, bit_length_fuel}

bit_length_fuel_start : (fuel : ℕ) → 2 ^ bit_length_fuel fuel 0 ≤ 1
unfolding bit_length_fuel
bit_length_fuel_start zero = omega arith
bit_length_fuel_start (suc fuel) = omega arith

bit_length_fuel_lem :
    (fuel n : ℕ)
    → n ≤ fuel
    → (n < 2 ^ bit_length_fuel fuel n) × (0 < n → 2 ^ bit_length_fuel fuel n ≤ 2 * n)
unfolding bit_length_fuel
bit_length_fuel_lem zero n h = (omega arith, λ p. absurd (omega arith))
bit_length_fuel_lem (suc fuel) n h = elim (Bool-cases (n == 0)) [
  | inl none ↦ rw none (ground arith, λ p. absurd (ground arith))
  | inr other ↦
      let rest = bit_length_fuel_lem fuel (n / 2) (ground arith) in
      let double = pow-suc 2 (bit_length_fuel fuel (n / 2)) in
      rw other (
        omega (arith, rest.0, double),
        λ p. elim (Bool-cases (n / 2 == 0)) [
          | inl last ↦
              let e : n / 2 ≡ 0 = (==_iff (n / 2) 0).0 last in
              let one : 2 ^ bit_length_fuel fuel (n / 2) ≤ 1 = rw e (bit_length_fuel_start fuel) in
              omega (arith, double, one, p)
          | inr more ↦ (let half = rest.1 (ground arith) in omega (arith, double, half))
        ],
      )
]

-- The bit length of a positive number is that of the least power of two above it.
pub bit_length_lem : (n : ℕ) → (n < 2 ^ bit_length n) × (0 < n → 2 ^ bit_length n ≤ 2 * n)
unfolding bit_length
bit_length_lem n = bit_length_fuel_lem n n (omega arith)
