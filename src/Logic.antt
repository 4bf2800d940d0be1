-- ===== src/Logic.antt =====
-- veda/vm/logic: what the opcodes do, behind the gas that `as_opcode` takes first.
pub mod Arithmetic
pub mod Comparison
pub mod Flow
pub mod Jumps
pub mod Widths
pub mod Push
pub mod Ops
pub mod Words
pub mod Total
pub mod Laws
mod Tests
use veda_bvm.Common.{ℕ, suc, ◌+◌, ◌-◌, ◌%◌, ◌/◌, ◌^◌, List, [], ◌∷◌, ⊤, ◌==◌, if◌then◌else◌, length}
use veda_bvm.Common.Int.{ℤ, pos, negsuc}
use veda_bvm.Computation.{Computation, on_stack, on_gas_meter}
use veda_bvm.Exceptions.{Result, ok, err, Action, ◌>>=◌, ◌>>◌, pure, lift, value_error}
use veda_bvm.External.{EthUtils}
use veda_bvm.Gas.{consume_gas}
use veda_bvm.Numeric.{uint_256_ceiling, uint_256_max}
use veda_bvm.Stack.{push_int, pop_ints, pop1_int}

-- `opcode_fn(computation)`, as `Opcode.as_opcode` wraps the function of an opcode.
unfoldable pub as_opcode : Action Computation ⊤ → ℕ → Action Computation ⊤
as_opcode logic_fn gas_cost =
    if gas_cost == 0 then logic_fn else do on_gas_meter (consume_gas (pos gas_cost)); logic_fn

-- `z & UINT_256_MAX`, where a negative integer has its two's complement.
abbrev pub mask_256 : ℤ → ℕ
mask_256 (pos n) = n % uint_256_ceiling
mask_256 (negsuc n) = uint_256_max - n % uint_256_ceiling

-- `z >> k`
abbrev pub shift_right : ℤ → ℕ → ℤ
shift_right (pos n) k = pos (n / 2 ^ k)
shift_right (negsuc n) k = negsuc (n / 2 ^ k)

-- `left, right = items`
abbrev pub unpack2 : List ℕ → Result (ℕ × ℕ)
unpack2 (left ∷ right ∷ []) = ok (left, right)
unpack2 _ = err value_error

abbrev pub unpack3 : List ℕ → Result (ℕ × ℕ × ℕ)
unpack3 (a ∷ b ∷ c ∷ []) = ok (a, b, c)
unpack3 _ = err value_error

unfoldable pub push_binary : (ℕ → ℕ → ℤ) → List ℕ → Action Computation ⊤
push_binary result items = do
  operands ← lift (unpack2 items)
  on_stack (push_int (result operands.0 operands.1))

unfoldable pub push_ternary : (ℕ → ℕ → ℕ → ℤ) → List ℕ → Action Computation ⊤
push_ternary result items = do
  operands ← lift (unpack3 items)
  on_stack (push_int (result operands.0 operands.1 operands.2))

-- What the opcodes of one, two and three operands share: the operands are popped, the result is
-- pushed.
module _ ⦃eth : EthUtils⦄ where
  unfoldable pub unary : (ℕ → ℤ) → Action Computation ⊤
  unary result = do value ← on_stack pop1_int; on_stack (push_int (result value))

  unfoldable pub binary : (ℕ → ℕ → ℤ) → Action Computation ⊤
  unfolding push_binary
  binary result = do items ← on_stack (pop_ints 2); push_binary result items

  unfoldable pub ternary : (ℕ → ℕ → ℕ → ℤ) → Action Computation ⊤
  unfolding push_ternary
  ternary result = do items ← on_stack (pop_ints 3); push_ternary result items
