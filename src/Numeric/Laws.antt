-- ===== src/Numeric/Laws.antt =====
-- The rounding, the byte form and the bit index of veda/_utils/numeric.py.
use native.Mathlib.Nat.{pow-suc, mod-lt, div-add-mod, mul-mod_right}
use native.Mathlib.Numerals.{add-one}
use veda_bvm.Common.{
  ℕ, zero, suc, ◌+◌, ◌-◌, ◌*◌, ◌/◌, ◌%◌, ◌^◌, ◌≤◌, ◌<◌, ◌≡◌, refl, ap, ◌∙◌, max, List, [], ◌∷◌,
  ◌++◌, some, arith, ◌==◌, ==_iff, length, length-append, All, All-append, Bool-cases, inl, inr,
}
use veda_bvm.Common.Int.{pos}
use veda_bvm.Exceptions.{ok}
use veda_bvm.Numeric.{
  to_bytes, from_bytes, from_bytes_onto, int_to_bytes32, ceil_xx, highest_bit_loop,
  get_highest_bit_index,
}

next_multiple :
    (value ceiling : ℕ) → value + ceiling - value % ceiling ≡ ceiling * (value / ceiling + 1)
next_multiple value ceiling = omega (arith, div-add-mod value ceiling)

-- The least multiple of the ceiling that is not below the value.
pub ceil_xx_least :
    (value ceiling : ℕ)
    → 0 < ceiling
    → (ceil_xx value ceiling % ceiling ≡ 0)
      × (value ≤ ceil_xx value ceiling)
      × (ceil_xx value ceiling < value + ceiling)
unfolding ceil_xx
ceil_xx_least value ceiling h = elim (Bool-cases (value % ceiling == 0)) [
  | inl exact ↦ rw exact ((==_iff _ 0).0 exact, omega arith, omega arith)
  | inr over ↦
      rw (over, next_multiple value ceiling)
        (
          mul-mod_right ceiling (value / ceiling + 1),
          omega (arith, mod-lt value h, next_multiple value ceiling),
          ground (arith, next_multiple value ceiling),
        )
]

from_bytes_onto-append :
    (acc : ℕ) (xs ys : List ℕ)
    → from_bytes_onto acc (xs ++ ys) ≡ from_bytes_onto (from_bytes_onto acc xs) ys
unfolding from_bytes_onto
from_bytes_onto-append acc [] ys = refl
from_bytes_onto-append acc (x ∷ xs) ys = from_bytes_onto-append (acc * 256 + x) xs ys

from_bytes-to_bytes : (n value : ℕ) → value < 256 ^ n → from_bytes (to_bytes n value) ≡ value
unfolding from_bytes to_bytes
from_bytes-to_bytes zero value h = omega arith
from_bytes-to_bytes (suc n) value h =
    rw from_bytes_onto-append
      (omega (arith, from_bytes-to_bytes n (value / 256) (omega (arith, pow-suc 256 n))))

pub length-to_bytes : (n value : ℕ) → length (to_bytes n value) ≡ n
unfolding to_bytes
length-to_bytes zero value = refl
length-to_bytes (suc n) value = omega (
  arith,
  length-append (to_bytes n (value / 256)) (value % 256 ∷ []),
  length-to_bytes n (value / 256),
)

pub to_bytes-All : (n value : ℕ) → All (λ b. b < 256) (to_bytes n value)
unfolding to_bytes
to_bytes-All zero value = tt
to_bytes-All (suc n) value =
    All-append (λ b. b < 256) (to_bytes n (value / 256)) _ (to_bytes-All n (value / 256))
      (omega arith, tt)

-- A 256-bit value becomes 32 bytes that read back, big end first, as the value.
pub int_to_bytes32_reads_back :
    (value : ℕ)
    → value < 2 ^ 256
    → (bs : List ℕ) × (int_to_bytes32 (pos value) ≡ ok bs)
      × (length bs ≡ 32)
      × All (λ b. b < 256) bs
      × (from_bytes bs ≡ value)
unfolding int_to_bytes32
int_to_bytes32_reads_back value h = (
  to_bytes 32 value,
  ground arith,
  length-to_bytes 32 value,
  to_bytes-All 32 value,
  from_bytes-to_bytes 32 value h,
)

-- The loop counts the halvings that are left until the value is zero.
highest_bit_loop_lem :
    (fuel value bit_length : ℕ)
    → value < fuel
    → (r : ℕ) × (highest_bit_loop fuel value bit_length ≡ some (bit_length + r))
      × (value < 2 ^ r)
      × (2 ^ r ≤ max 1 (2 * value))
unfolding highest_bit_loop
highest_bit_loop_lem zero value bit_length h = elim h [ ]
highest_bit_loop_lem (suc fuel) value bit_length h = elim (Bool-cases (value == 0)) [
  | inl done ↦ (0, rw done (ap some (omega arith)), ground arith, omega arith)
  | inr more ↦
      let (r, e, hi, lo) = highest_bit_loop_lem fuel (value / 2) (bit_length + 1) (ground arith) in
      (
        suc r,
        rw more (e ∙ ap some (omega arith)),
        omega (arith, pow-suc 2 r),
        ground (arith, pow-suc 2 r),
      )
]

-- The index of the highest bit: the loop ends, and the value lies between two powers of two.
pub get_highest_bit_index_lem :
    (value : ℕ)
    → 0 < value
    → (r : ℕ) × (get_highest_bit_index value ≡ some r) × (2 ^ r ≤ value) × (value < 2 ^ (r + 1))
unfolding get_highest_bit_index
get_highest_bit_index_lem value h =
    let (r, e, hi, lo) = highest_bit_loop_lem (value + 1) (value / 2) 0 (omega arith) in
    (r, e ∙ ap some (omega arith), omega arith, rw (add-one r) (omega (arith, pow-suc 2 r)))
