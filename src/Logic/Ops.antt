-- ===== src/Logic/Ops.antt =====
-- The opcodes of arithmetic and comparison but EXP, as data.
use veda_bvm.Common.{ℕ, List, [], ◌∷◌, ⊤}
use veda_bvm.Common.Int.{ℤ, pos}
use veda_bvm.Computation.{Computation}
use veda_bvm.Exceptions.{Action}
use veda_bvm.External.{EthUtils}
use veda_bvm.Logic.Arithmetic
use veda_bvm.Logic.Comparison
use veda_bvm.Logic

pub data Unary : Type 0 where
  iszero not_op : Unary

pub data Binary : Type 0 where
  add mul sub div sdiv mod_op smod signextend shl shr sar : Binary
  lt gt slt sgt eq and_op or_op xor byte_op : Binary

pub data Ternary : Type 0 where
  addmod mulmod : Ternary

pub data Op : Type 0 where
  unary : Unary → Op
  binary : Binary → Op
  ternary : Ternary → Op

unfoldable pub result1 : Unary → ℕ → ℤ
result1 Unary.iszero = veda_bvm.Logic.Comparison.iszero
result1 Unary.not_op = veda_bvm.Logic.Comparison.not_op

unfoldable pub result2 : Binary → ℕ → ℕ → ℤ
result2 Binary.add = veda_bvm.Logic.Arithmetic.add
result2 Binary.mul = veda_bvm.Logic.Arithmetic.mul
result2 Binary.sub = veda_bvm.Logic.Arithmetic.sub
result2 Binary.div = veda_bvm.Logic.Arithmetic.div
result2 Binary.sdiv = veda_bvm.Logic.Arithmetic.sdiv
result2 Binary.mod_op = veda_bvm.Logic.Arithmetic.mod_op
result2 Binary.smod = veda_bvm.Logic.Arithmetic.smod
result2 Binary.signextend = veda_bvm.Logic.Arithmetic.signextend
result2 Binary.shl = veda_bvm.Logic.Arithmetic.shl
result2 Binary.shr = veda_bvm.Logic.Arithmetic.shr
result2 Binary.sar = veda_bvm.Logic.Arithmetic.sar
result2 Binary.lt = veda_bvm.Logic.Comparison.lt
result2 Binary.gt = veda_bvm.Logic.Comparison.gt
result2 Binary.slt = veda_bvm.Logic.Comparison.slt
result2 Binary.sgt = veda_bvm.Logic.Comparison.sgt
result2 Binary.eq = veda_bvm.Logic.Comparison.eq
result2 Binary.and_op = veda_bvm.Logic.Comparison.and_op
result2 Binary.or_op = veda_bvm.Logic.Comparison.or_op
result2 Binary.xor = veda_bvm.Logic.Comparison.xor
result2 Binary.byte_op = veda_bvm.Logic.Comparison.byte_op

unfoldable pub result3 : Ternary → ℕ → ℕ → ℕ → ℤ
result3 Ternary.addmod = veda_bvm.Logic.Arithmetic.addmod
result3 Ternary.mulmod = veda_bvm.Logic.Arithmetic.mulmod

abbrev pub arity : Op → ℕ
arity (Op.unary op) = 1
arity (Op.binary op) = 2
arity (Op.ternary op) = 3

-- The number that an opcode pushes for its operands, the top one first.
abbrev pub result : Op → List ℕ → ℤ
result (Op.unary op) (a ∷ []) = result1 op a
result (Op.binary op) (a ∷ b ∷ []) = result2 op a b
result (Op.ternary op) (a ∷ b ∷ c ∷ []) = result3 op a b c
result _ _ = pos 0

unfoldable pub run : ⦃eth : EthUtils⦄ → Op → Action Computation ⊤
unfolding veda_bvm.Logic.unary veda_bvm.Logic.binary veda_bvm.Logic.ternary
run (Op.unary op) = veda_bvm.Logic.unary (result1 op)
run (Op.binary op) = veda_bvm.Logic.binary (result2 op)
run (Op.ternary op) = veda_bvm.Logic.ternary (result3 op)
