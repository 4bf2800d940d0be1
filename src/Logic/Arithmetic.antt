-- ===== src/Logic/Arithmetic.antt =====
-- veda/vm/logic/arithmetic.py: what the opcodes push for their operands, and EXP, which takes gas.
use veda_bvm.Common.{
  ℕ, zero, suc, ◌+◌, ◌-◌, ◌*◌, ◌%◌, ◌/◌, ◌^◌, Bool, ⊤, leb, ◌==◌, not, if◌then◌else◌,
}
use Prim.Native.Nat.{bit_and, bit_or}
use veda_bvm.Common.Int.{ℤ, pos, negsuc, abs, ltb_ℤ, ◌-ℤ◌, ◌*ℤ◌}
use veda_bvm.Computation.{Computation, on_stack, on_gas_meter}
use veda_bvm.Exceptions.{Action, ◌>>=◌, ◌>>◌, lift}
use veda_bvm.External.{EthUtils}
use veda_bvm.Gas.{consume_gas}
use veda_bvm.Logic.{mask_256, shift_right, unpack2}
use veda_bvm.Numeric.{
  uint_256_ceiling, uint_255_negative_one, ceil8, unsigned_to_signed, signed_to_unsigned,
}
use veda_bvm.Stack.{push_int, pop_ints}

unfoldable pub add : ℕ → ℕ → ℤ
add left right = pos (mask_256 (pos (left + right)))

unfoldable pub addmod : ℕ → ℕ → ℕ → ℤ
addmod left right modulus = if modulus == 0 then pos 0 else pos ((left + right) % modulus)

unfoldable pub sub : ℕ → ℕ → ℤ
sub left right = pos (mask_256 (pos left -ℤ pos right))

unfoldable pub mod_op : ℕ → ℕ → ℤ
mod_op value m = if m == 0 then pos 0 else pos (value % m)

abbrev pub pos_or_neg : Bool → ℤ
pos_or_neg negative = if negative then negsuc 0 else pos 1

unfoldable pub smod : ℕ → ℕ → ℤ
unfolding unsigned_to_signed signed_to_unsigned
smod value_word mod_word =
    let value = unsigned_to_signed value_word in
    let m = unsigned_to_signed mod_word in
    let sign = pos_or_neg (ltb_ℤ value (pos 0)) in
    signed_to_unsigned
      (if abs m == 0 then pos 0 else pos (mask_256 (pos (abs value % abs m) *ℤ sign)))

unfoldable pub mul : ℕ → ℕ → ℤ
mul left right = pos (mask_256 (pos (left * right)))

unfoldable pub mulmod : ℕ → ℕ → ℕ → ℤ
mulmod left right modulus = if modulus == 0 then pos 0 else pos (left * right % modulus)

unfoldable pub div : ℕ → ℕ → ℤ
div numerator denominator =
    if denominator == 0 then pos 0 else pos (mask_256 (pos (numerator / denominator)))

unfoldable pub sdiv : ℕ → ℕ → ℤ
unfolding unsigned_to_signed signed_to_unsigned
sdiv numerator_word denominator_word =
    let numerator = unsigned_to_signed numerator_word in
    let denominator = unsigned_to_signed denominator_word in
    let sign = pos_or_neg (ltb_ℤ (numerator *ℤ denominator) (pos 0)) in
    signed_to_unsigned
      (if abs denominator == 0 then pos 0 else sign *ℤ pos (abs numerator / abs denominator))

-- `value & sign_bit` is zero or not. The bits below `8 * bits + 7` are below the sign bit.
unfoldable pub signextend : ℕ → ℕ → ℤ
signextend bits value =
    let testbit = bits * 8 + 7 in
    let sign_bit = 2 ^ testbit in
    if leb bits 31
    then if not (bit_and value sign_bit == 0)
      then pos (bit_or value (uint_256_ceiling - sign_bit))
      else pos (bit_and value (sign_bit - 1))
    else pos value

unfoldable pub shl : ℕ → ℕ → ℤ
shl shift_length value =
    if leb 256 shift_length then pos 0 else pos (mask_256 (pos (value * 2 ^ shift_length)))

unfoldable pub shr : ℕ → ℕ → ℤ
shr shift_length value =
    if leb 256 shift_length then pos 0 else pos (mask_256 (shift_right (pos value) shift_length))

unfoldable pub sar : ℕ → ℕ → ℤ
unfolding unsigned_to_signed
sar shift_length word =
    let value = unsigned_to_signed word in
    if leb 256 shift_length
    then if ltb_ℤ value (pos 0) then pos uint_255_negative_one else pos 0
    else pos (mask_256 (shift_right value shift_length))

-- Python's `n.bit_length()`, with fuel for each halving.
unfoldable pub bit_length_fuel : ℕ → ℕ → ℕ
bit_length_fuel zero n = 0
bit_length_fuel (suc fuel) n =
    let rest = bit_length_fuel fuel (n / 2) in if n == 0 then 0 else suc rest

unfoldable pub bit_length : ℕ → ℕ
unfolding bit_length_fuel
bit_length n = bit_length_fuel n n

-- Python's `pow(base, exponent, UINT_256_CEILING)`.
unfoldable pub pow_256 : ℕ → ℕ → ℕ
pow_256 base exponent = base ^ exponent % uint_256_ceiling

module _ ⦃eth : EthUtils⦄ where
  unfoldable pub exp : ℕ → Action Computation ⊤
  unfolding pow_256 bit_length ceil8
  exp gas_per_byte = do
    items ← on_stack (pop_ints 2)
    operands ← lift (unpack2 items)
    let base = operands.0
    let exponent = operands.1
    let byte_size = ceil8 (bit_length exponent) / 8
    let result = if exponent == 0 then 1 else if base == 0 then 0 else pow_256 base exponent
    on_gas_meter (consume_gas (pos (gas_per_byte * byte_size)))
    on_stack (push_int (pos result))
