-- ===== src/Logic/Comparison.antt =====
-- veda/vm/logic/comparison.py: what the opcodes push for their operands.
use veda_bvm.Common.{ℕ, ◌-◌, ◌%◌, ◌/◌, ◌^◌, Bool, ltb, leb, ◌==◌, if◌then◌else◌}
use Prim.Native.Nat.{bit_and, bit_or, bit_xor}
use veda_bvm.Common.Int.{ℤ, pos, ltb_ℤ, ◌-ℤ◌}
use veda_bvm.Numeric.{uint_256_max, unsigned_to_signed, signed_to_unsigned}

abbrev pub one_or_zero : Bool → ℤ
one_or_zero b = if b then pos 1 else pos 0

unfoldable pub lt : ℕ → ℕ → ℤ
lt left right = one_or_zero (ltb left right)

unfoldable pub gt : ℕ → ℕ → ℤ
gt left right = one_or_zero (ltb right left)

unfoldable pub slt : ℕ → ℕ → ℤ
unfolding unsigned_to_signed signed_to_unsigned
slt left right =
    signed_to_unsigned (one_or_zero (ltb_ℤ (unsigned_to_signed left) (unsigned_to_signed right)))

unfoldable pub sgt : ℕ → ℕ → ℤ
unfolding unsigned_to_signed signed_to_unsigned
sgt left right =
    signed_to_unsigned (one_or_zero (ltb_ℤ (unsigned_to_signed right) (unsigned_to_signed left)))

unfoldable pub eq : ℕ → ℕ → ℤ
eq left right = one_or_zero (left == right)

unfoldable pub iszero : ℕ → ℤ
iszero value = one_or_zero (value == 0)

unfoldable pub and_op : ℕ → ℕ → ℤ
and_op left right = pos (bit_and left right)

unfoldable pub or_op : ℕ → ℕ → ℤ
or_op left right = pos (bit_or left right)

unfoldable pub xor : ℕ → ℕ → ℤ
xor left right = pos (bit_xor left right)

-- Not below zero for a word, and refused by the push otherwise.
unfoldable pub not_op : ℕ → ℤ
not_op value = pos uint_256_max -ℤ pos value

unfoldable pub byte_op : ℕ → ℕ → ℤ
byte_op position value =
    if leb 32 position then pos 0 else pos (value / 256 ^ (31 - position) % 256)
