-- ===== src/Logic/Laws.antt =====
-- What the results of single opcodes mean.
use native.Mathlib.Nat.{div-div-eq-div-mul, pow-succ', pow-le-pow_right, div-eq_of_lt, div-le_self}
use veda_bvm.Common.{
  ℕ, zero, suc, ◌-◌, ◌/◌, ◌%◌, ◌^◌, ◌≤◌, ◌<◌, ◌≡◌, refl, sym, ap, ◌∙◌, arith, leb, Bool-cases, inl,
  inr, if◌then◌else◌, List, [], ◌∷◌, ◌++◌, length, get_or,
}
use veda_bvm.Common.Int.{ℤ, pos, negsuc, pos_part, neg_part, ltb_ℤ, ◌-ℤ◌}
use veda_bvm.Logic.Arithmetic.{add, sub, sar}
use veda_bvm.Logic.Comparison.{byte_op}
use veda_bvm.Logic.{shift_right, mask_256}
use veda_bvm.Numeric.Laws.{length-to_bytes}
use veda_bvm.Numeric.{to_bytes, unsigned_to_signed}

-- SUB undoes ADD, round the 256-bit ring, and ADD undoes SUB.
pub add-sub :
    (a b : ℕ)
    → a < 2 ^ 256
    → b < 2 ^ 256
    → (add (pos_part (sub a b)) b ≡ pos a) × (sub (pos_part (add a b)) b ≡ pos a)
unfolding add sub ◌-ℤ◌
add-sub a b ha hb = (ground arith, ground arith)

-- A mask keeps what a signed reading gives back.
masked : (z : ℤ) → pos_part z < 2 ^ 255 → neg_part z ≤ 2 ^ 255 → unsigned_to_signed (mask_256 z) ≡ z
unfolding unsigned_to_signed ◌-ℤ◌
masked (pos n) h k = ground arith
masked (negsuc n) h k = ground arith

shift_away : (m n : ℕ) → m < 2 ^ 255 → 256 ≤ n → m / 2 ^ n ≡ 0
shift_away m n hm hn =
    let wide : 2 ^ 256 ≤ 2 ^ n = pow-le-pow_right (omega arith) hn in
    div-eq_of_lt (omega (arith, wide))

sar_of : ℕ → ℤ → ℤ
sar_of n v =
    if leb 256 n
    then if ltb_ℤ v (pos 0) then pos (2 ^ 256 - 1) else pos 0
    else pos (mask_256 (shift_right v n))

unsigned_to_signed-sar_of :
    (n : ℕ) (v : ℤ)
    → pos_part v < 2 ^ 255
    → neg_part v ≤ 2 ^ 255
    → unsigned_to_signed (pos_part (sar_of n v)) ≡ shift_right v n
unfolding sar_of
unsigned_to_signed-sar_of n (pos m) hp hn = elim (Bool-cases (leb 256 n)) [
  | inl far ↦ rw (far, shift_away m n hp (ground arith)) (unfold unsigned_to_signed in ground arith)
  | inr near ↦
      rw near
        (let small = div-le_self m (2 ^ n) in masked (pos (m / 2 ^ n)) (omega arith) (omega arith))
]
unsigned_to_signed-sar_of n (negsuc m) hp hn = elim (Bool-cases (leb 256 n)) [
  | inl far ↦
      rw (far, shift_away m n (omega arith) (ground arith))
        (unfold unsigned_to_signed ◌-ℤ◌ in ground arith)
  | inr near ↦
      rw near (
        let small = div-le_self m (2 ^ n) in
        masked (negsuc (m / 2 ^ n)) (omega arith) (omega arith))
]

signed_range :
    (w : ℕ)
    → w < 2 ^ 256
    → (pos_part (unsigned_to_signed w) < 2 ^ 255) × (neg_part (unsigned_to_signed w) ≤ 2 ^ 255)
unfolding unsigned_to_signed ◌-ℤ◌
signed_range w h = (ground arith, ground arith)

-- SAR divides the signed reading of a word by a power of two and rounds down, for any shift.
pub sar_lem :
    (n w : ℕ)
    → w < 2 ^ 256
    → unsigned_to_signed (pos_part (sar n w)) ≡ shift_right (unsigned_to_signed w) n
unfolding sar sar_of
sar_lem n w h =
    let range = signed_range w h in
    unsigned_to_signed-sar_of n (unsigned_to_signed w) range.0 range.1

get_or_snoc_last : (bs : List ℕ) (b d : ℕ) → get_or (bs ++ b ∷ []) (length bs) d ≡ b
get_or_snoc_last [] b d = refl
get_or_snoc_last (x ∷ bs) b d = get_or_snoc_last bs b d

get_or_snoc : (bs : List ℕ) (b i d : ℕ) → i < length bs → get_or (bs ++ b ∷ []) i d ≡ get_or bs i d
get_or_snoc [] b i d h = absurd (omega arith)
get_or_snoc (x ∷ bs) b zero d h = refl
get_or_snoc (x ∷ bs) b (suc i) d h = get_or_snoc bs b i d (omega arith)

-- A byte of the big-endian form, by its place from the end.
get_or-to_bytes : (n i v : ℕ) → i < n → get_or (to_bytes n v) (n - 1 - i) 0 ≡ v / 256 ^ i % 256
unfolding to_bytes
get_or-to_bytes zero i v h = absurd (omega arith)
get_or-to_bytes (suc n) zero v h =
    let len = length-to_bytes n (v / 256) in
    let at : suc n - 1 - 0 ≡ length (to_bytes n (v / 256)) = omega (arith, len) in
    ap (λ k. get_or (to_bytes n (v / 256) ++ v % 256 ∷ []) k 0) at
    ∙ get_or_snoc_last (to_bytes n (v / 256)) (v % 256) 0
    ∙ omega arith
get_or-to_bytes (suc n) (suc i) v h =
    let len = length-to_bytes n (v / 256) in
    let at : suc n - 1 - suc i ≡ n - 1 - i = omega arith in
    ap (λ k. get_or (to_bytes n (v / 256) ++ v % 256 ∷ []) k 0) at
    ∙ get_or_snoc (to_bytes n (v / 256)) (v % 256) (n - 1 - i) 0 (omega (arith, len))
    ∙ get_or-to_bytes n i (v / 256) (omega arith)
    ∙ ap (λ k. k % 256)
        (div-div-eq-div-mul v 256 (256 ^ i) ∙ ap (λ k. v / k) (sym (pow-succ' 256 i)))

pub get_or_past : (bs : List ℕ) (i d : ℕ) → length bs ≤ i → get_or bs i d ≡ d
get_or_past [] i d h = refl
get_or_past (x ∷ bs) zero d h = absurd (omega arith)
get_or_past (x ∷ bs) (suc i) d h = get_or_past bs i d (omega arith)

-- BYTE gives a byte of the 32 of a word, and zero past them.
pub byte_op_lem :
    (position value : ℕ) → byte_op position value ≡ pos (get_or (to_bytes 32 value) position 0)
unfolding byte_op
byte_op_lem position value = elim (Bool-cases (leb 32 position)) [
  | inl past ↦ rw past (
      ap pos (
        sym (
          get_or_past (to_bytes 32 value) position 0
            (let len = length-to_bytes 32 value in ground arith))))
  | inr within ↦ rw within (
      ap pos (
        sym (get_or-to_bytes 32 (31 - position) value (omega arith))
        ∙ ap (λ k. get_or (to_bytes 32 value) k 0) (ground arith)))
]
