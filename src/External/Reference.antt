-- ===== src/External/Reference.antt =====
-- The conversions as functions, which shows that the laws asked of eth_utils can be met.
use native.Mathlib.Nat.{pow-suc, mul-le-mul_right}
use veda_bvm.External.{EthUtils}
use veda_bvm.Common.{
  ℕ, zero, suc, ◌+◌, ◌*◌, ◌/◌, ◌%◌, ◌^◌, ◌≤◌, ◌<◌, ◌≡◌, refl, ap, List, [], ◌∷◌, ◌++◌, arith, ltb,
  length, length-append, All, All-append, Bool-cases, inl, inr, if◌then◌else◌, lt→ltb, ltb→lt,
}

-- Big end first.
read_onto : ℕ → List ℕ → ℕ
read_onto acc [] = acc
read_onto acc (b ∷ bs) = read_onto (acc * 256 + b) bs

unfoldable pub read : List ℕ → ℕ
unfolding read_onto
read = read_onto 0

digits : ℕ → ℕ → List ℕ
digits zero v = []
digits (suc fuel) v =
    let high = digits fuel (v / 256) in if ltb v 256 then v ∷ [] else high ++ v % 256 ∷ []

unfoldable pub write : ℕ → List ℕ
unfolding digits
write v = digits (v + 1) v

read_onto-append :
    (acc : ℕ) (xs ys : List ℕ) → read_onto acc (xs ++ ys) ≡ read_onto (read_onto acc xs) ys
unfolding read_onto
read_onto-append acc [] ys = refl
read_onto-append acc (x ∷ xs) ys = read_onto-append (acc * 256 + x) xs ys

read_onto-digits : (fuel v : ℕ) → v < fuel → read_onto 0 (digits fuel v) ≡ v
unfolding digits read_onto
read_onto-digits zero v h = elim h [ ]
read_onto-digits (suc fuel) v h = elim (Bool-cases (ltb v 256)) [
  | inl small ↦ rw small (omega arith)
  | inr large ↦
      rw (large, read_onto-append) (omega (arith, read_onto-digits fuel (v / 256) (ground arith)))
]

pub read-write : (v : ℕ) → read (write v) ≡ v
unfolding read write
read-write v = read_onto-digits (v + 1) v (omega arith)

read_onto-lt :
    (acc : ℕ) (bs : List ℕ) → All (λ b. b < 256) bs → read_onto acc bs < (acc + 1) * 256 ^ length bs
unfolding read_onto
read_onto-lt acc [] h = omega arith
read_onto-lt acc (b ∷ bs) h =
    let m : ℕ = 256 ^ length bs in
    let wider : (acc * 256 + b + 1) * m ≤ (acc + 1) * 256 * m = mul-le-mul_right m (omega arith) in
    omega (
      arith,
      read_onto-lt (acc * 256 + b) bs h.1,
      wider,
      ap (λ t. (acc + 1) * t) (pow-suc 256 (length bs)),
    )

pub read-lt : (bs : List ℕ) → All (λ b. b < 256) bs → read bs < 256 ^ length bs
unfolding read
read-lt bs h = omega (arith, read_onto-lt 0 bs h)

pub read-zero_cons : (bs : List ℕ) → read (0 ∷ bs) ≡ read bs
unfolding read
read-zero_cons bs = refl

digits-All : (fuel v : ℕ) → All (λ b. b < 256) (digits fuel v)
unfolding digits
digits-All zero v = tt
digits-All (suc fuel) v = elim (Bool-cases (ltb v 256)) [
  | inl small ↦ rw small (ltb→lt v 256 small, tt)
  | inr large ↦ rw large (
      All-append (λ b. b < 256) (digits fuel (v / 256)) _ (digits-All fuel (v / 256))
        (omega arith, tt))
]

pub write-All : (v : ℕ) → All (λ b. b < 256) (write v)
unfolding write
write-All v = digits-All (v + 1) v

length-digits-le : (fuel v k : ℕ) → v < 256 ^ suc k → length (digits fuel v) ≤ suc k
unfolding digits
length-digits-le zero v k h = omega arith
length-digits-le (suc fuel) v zero h =
    rw (lt→ltb v 256 (omega (arith, pow-suc 256 0))) (omega arith)
length-digits-le (suc fuel) v (suc k) h = elim (Bool-cases (ltb v 256)) [
  | inl small ↦ rw small (omega arith)
  | inr large ↦ rw large (
      omega (
        arith,
        length-append (digits fuel (v / 256)) (v % 256 ∷ []),
        length-digits-le fuel (v / 256) k (omega (arith, pow-suc 256 (suc k))),
      ))
]

pub length-write-le : (v k : ℕ) → v < 256 ^ suc k → length (write v) ≤ suc k
unfolding write
length-write-le v k h = length-digits-le (v + 1) v k h

instance abbrev pub reference : EthUtils
reference = record {
  big_endian_to_int = read;
  int_to_big_endian = write;
  to_int-to_bytes = read-write;
  to_int-lt = read-lt;
  to_int-zero_cons = read-zero_cons;
  to_bytes-IsBytes = write-All;
  length-to_bytes-le = length-write-le;
}
