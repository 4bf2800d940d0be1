-- ===== src/Logic/Words.antt =====
-- The opcodes' results are 256-bit words, for operands that are.
use native.Mathlib.Nat.{mod-le, mod-lt, div-le_self, pow-suc, pow-le-pow_right}
use veda_bvm.Common.{
  ℕ, Bool, true, false, not, zero, suc, ◌+◌, ◌-◌, ◌*◌, ◌/◌, ◌%◌, ◌^◌, ◌≤◌, ◌<◌, ◌≡◌, refl, arith,
  leb, ◌==◌, Bool-cases, inl, inr, if◌then◌else◌,
}
use Prim.Native.Nat.{bit_and}
use veda_bvm.Common.Bits.{bit_and_lt, bit_or_lt, bit_xor_lt}
use veda_bvm.Common.Int.{ℤ, pos, pos_part, neg_part, negsuc, abs, ltb_ℤ, ◌-ℤ◌, ◌+ℤ◌, ◌*ℤ◌}
use veda_bvm.Logic.Ops.{Unary, Binary, Ternary, result1, result2, result3}
use veda_bvm.Logic.Arithmetic.{
  add, mul, sub, div, sdiv, mod_op, smod, signextend, shl, shr, sar, addmod, mulmod, pos_or_neg,
}
use veda_bvm.Logic.{mask_256, shift_right}
use veda_bvm.Logic.Comparison.{
  one_or_zero, lt, gt, slt, sgt, eq, iszero, not_op, and_op, or_op, xor, byte_op, one_or_zero,
}
use veda_bvm.Numeric.{unsigned_to_signed, signed_to_unsigned, uint_255_negative_one}

-- The integer is a 256-bit word.
abbrev pub IsWord : ℤ → Type 0
IsWord z = (neg_part z ≡ 0) × (pos_part z < 2 ^ 256)

mask_256_lt : (z : ℤ) → mask_256 z < 2 ^ 256
mask_256_lt (pos n) = omega arith
mask_256_lt (negsuc n) = omega arith

if-IsWord : (b : Bool) (x y : ℤ) → IsWord x → IsWord y → IsWord (if b then x else y)
if-IsWord true x y hx hy = hx
if-IsWord false x y hx hy = hy

pow_pos : (k : ℕ) → 0 < 2 ^ k
pow_pos zero = omega arith
pow_pos (suc k) = omega (arith, pow-suc 2 k, pow_pos k)

one_or_zero-IsWord : (b : Bool) → IsWord (one_or_zero b)
one_or_zero-IsWord b = ground arith

remainder_lt : (a m : ℕ) → a < 2 ^ 256 → a % m < 2 ^ 256
remainder_lt a m h = omega (arith, mod-le a m)

-- A remainder by a word, or zero.
rest-IsWord : (a m : ℕ) → m < 2 ^ 256 → IsWord (if m == 0 then pos 0 else pos (a % m))
rest-IsWord a m h = elim (Bool-cases (m == 0)) [
  | inl none ↦ rw none (refl, omega arith)
  | inr other ↦ rw other (refl, (let lt : a % m < m = mod-lt a (ground arith) in omega arith))
]

signed_to_unsigned-IsWord :
    (z : ℤ) → neg_part z ≤ 2 ^ 255 → pos_part z < 2 ^ 256 → IsWord (signed_to_unsigned z)
unfolding signed_to_unsigned ◌+ℤ◌
signed_to_unsigned-IsWord z hn hp = ground arith

abs-unsigned_to_signed : (a : ℕ) → a < 2 ^ 256 → abs (unsigned_to_signed a) ≤ 2 ^ 255
unfolding unsigned_to_signed ◌-ℤ◌
abs-unsigned_to_signed a h = ground arith

with_sign : (b : Bool) (q : ℕ) → q ≤ 2 ^ 255 → IsWord (signed_to_unsigned (pos_or_neg b *ℤ pos q))
unfolding ◌*ℤ◌
with_sign true q h = signed_to_unsigned-IsWord _ (ground arith) (ground arith)
with_sign false q h = signed_to_unsigned-IsWord _ (ground arith) (ground arith)

signed_if :
    (b : Bool) (z : ℤ)
    → IsWord (signed_to_unsigned z)
    → IsWord (signed_to_unsigned (if b then pos 0 else z))
signed_if true z h = signed_to_unsigned-IsWord (pos 0) (omega arith) (omega arith)
signed_if false z h = h

one_signed : (b : Bool) → IsWord (signed_to_unsigned (one_or_zero b))
one_signed true = signed_to_unsigned-IsWord (pos 1) (omega arith) (omega arith)
one_signed false = signed_to_unsigned-IsWord (pos 0) (omega arith) (omega arith)

sdiv-IsWord : (a b : ℕ) → a < 2 ^ 256 → IsWord (sdiv a b)
unfolding sdiv
sdiv-IsWord a b ha =
    let n = unsigned_to_signed a in
    let d = unsigned_to_signed b in
    let small : abs n / abs d ≤ 2 ^ 255 =
      omega (arith, abs-unsigned_to_signed a ha, div-le_self (abs n) (abs d)) in
    signed_if (abs d == 0) (pos_or_neg (ltb_ℤ (n *ℤ d) (pos 0)) *ℤ pos (abs n / abs d))
      (with_sign (ltb_ℤ (n *ℤ d) (pos 0)) (abs n / abs d) small)

pos_stays : (n : ℕ) → n < 2 ^ 256 → IsWord (signed_to_unsigned (pos n))
pos_stays n h = signed_to_unsigned-IsWord (pos n) (omega arith) h

smod-IsWord : (a b : ℕ) → IsWord (smod a b)
unfolding smod
smod-IsWord a b =
    let n = unsigned_to_signed a in
    let m = unsigned_to_signed b in
    let rest = pos (abs n % abs m) *ℤ pos_or_neg (ltb_ℤ n (pos 0)) in
    signed_if (abs m == 0) (pos (mask_256 rest)) (pos_stays (mask_256 rest) (mask_256_lt rest))

signextend-IsWord : (a b : ℕ) → b < 2 ^ 256 → IsWord (signextend a b)
unfolding signextend
signextend-IsWord a b hb = elim (Bool-cases (leb a 31)) [
  | inl small ↦
      let h : a ≤ 31 = ground arith in
      let low : a * 8 + 7 ≤ 256 = omega (arith, h) in
      let top : 2 ^ (a * 8 + 7) ≤ 2 ^ 256 = pow-le-pow_right (omega arith) low in
      let positive = pow_pos (a * 8 + 7) in
      rw small (
        if-IsWord (not (bit_and b (2 ^ (a * 8 + 7)) == 0)) _ _
          (refl, bit_or_lt 256 b (2 ^ 256 - 2 ^ (a * 8 + 7)) hb (omega (arith, positive)))
          (refl, bit_and_lt 256 b (2 ^ (a * 8 + 7) - 1) hb (omega (arith, positive, top))))
  | inr large ↦ rw large (refl, hb)
]

pub result1-IsWord : (op : Unary) (a : ℕ) → a < 2 ^ 256 → IsWord (result1 op a)
unfolding result1 iszero not_op ◌-ℤ◌
result1-IsWord Unary.iszero a ha = ground arith
result1-IsWord Unary.not_op a ha = ground arith

pub result3-IsWord : (op : Ternary) (a b c : ℕ) → c < 2 ^ 256 → IsWord (result3 op a b c)
unfolding result3 addmod mulmod
result3-IsWord Ternary.addmod a b c hc = rest-IsWord (a + b) c hc
result3-IsWord Ternary.mulmod a b c hc = rest-IsWord (a * b) c hc

pub result2-IsWord : (op : Binary) (a b : ℕ) → a < 2 ^ 256 → b < 2 ^ 256 → IsWord (result2 op a b)
unfolding result2 add mul sub div sdiv mod_op smod signextend shl shr sar lt gt slt sgt eq and_op
    or_op xor byte_op
result2-IsWord Binary.add a b ha hb = (refl, mask_256_lt (pos (a + b)))
result2-IsWord Binary.sub a b ha hb = (refl, mask_256_lt _)
result2-IsWord Binary.mul a b ha hb = (refl, mask_256_lt (pos (a * b)))
result2-IsWord Binary.div a b ha hb =
    if-IsWord (b == 0) _ _ (refl, omega arith) (refl, mask_256_lt (pos (a / b)))
result2-IsWord Binary.sdiv a b ha hb = sdiv-IsWord a b ha
result2-IsWord Binary.smod a b ha hb = smod-IsWord a b
result2-IsWord Binary.mod_op a b ha hb =
    if-IsWord (b == 0) _ _ (refl, omega arith) (refl, remainder_lt a b ha)
result2-IsWord Binary.signextend a b ha hb = signextend-IsWord a b hb
result2-IsWord Binary.shl a b ha hb =
    if-IsWord (leb 256 a) _ _ (refl, omega arith) (refl, mask_256_lt (pos (b * 2 ^ a)))
result2-IsWord Binary.shr a b ha hb =
    if-IsWord (leb 256 a) _ _ (refl, omega arith) (refl, mask_256_lt (shift_right (pos b) a))
result2-IsWord Binary.sar a b ha hb =
    if-IsWord (leb 256 a) _ _
      (if-IsWord (ltb_ℤ (unsigned_to_signed b) (pos 0)) (pos uint_255_negative_one) (pos 0)
        (refl, omega arith) (refl, omega arith))
      (refl, mask_256_lt _)
result2-IsWord Binary.lt a b ha hb = one_or_zero-IsWord _
result2-IsWord Binary.gt a b ha hb = one_or_zero-IsWord _
result2-IsWord Binary.eq a b ha hb = one_or_zero-IsWord _
result2-IsWord Binary.slt a b ha hb = one_signed _
result2-IsWord Binary.sgt a b ha hb = one_signed _
result2-IsWord Binary.and_op a b ha hb = (refl, bit_and_lt 256 a b ha hb)
result2-IsWord Binary.or_op a b ha hb = (refl, bit_or_lt 256 a b ha hb)
result2-IsWord Binary.xor a b ha hb = (refl, bit_xor_lt 256 a b ha hb)
result2-IsWord Binary.byte_op a b ha hb =
    if-IsWord (leb 32 a) _ _ (refl, omega arith) (refl, omega arith)
