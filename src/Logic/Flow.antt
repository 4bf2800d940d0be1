-- ===== src/Logic/Flow.antt =====
-- veda/vm/logic/flow.py, stack.py, duplication.py, swap.py and memory.py: jumps, and the opcodes
-- that move words between code, stack and memory.
use veda_bvm.Code.{CodeStream, peek, read, is_valid_opcode, jumpdest_value}
use veda_bvm.Common.{
  ℕ, ◌-◌, Bool, not, List, ◌++◌, Option, none, some, ⊤, ◌==◌, if◌then◌else◌, length, replicate,
  drop,
}
use veda_bvm.Common.Int.{pos}
use veda_bvm.Computation.{Computation, on_stack, on_memory, on_code, extend_memory}
use veda_bvm.Exceptions.{
  VmError, ok, err, Action, ◌>>=◌, ◌>>◌, vm_error, halt, invariant_broken, pure, raise, raise_if,
  gets, modify, lift,
}
use veda_bvm.External.{EthUtils}
use veda_bvm.Logic.{unpack2}
use veda_bvm.Memory.{write, read_bytes}
use veda_bvm.Stack.{push_int, push_bytes, pop1_int, pop1_bytes, pop1_any, pop_ints, swap, dup}

unfoldable pub stop : Action Computation ⊤
stop = raise halt

-- The answer of `is_valid_opcode`, which always comes.
unfoldable pub answered : Option (Bool × CodeStream) → Action CodeStream Bool
answered none s = (err invariant_broken, s)
answered (some (valid, t)) s = (ok valid, t)

unfoldable pub is_valid_target : ℕ → Action CodeStream Bool
unfolding answered
is_valid_target position s = answered (is_valid_opcode position s) s

unfoldable pub raise_unless_valid : Bool → Action Computation ⊤
raise_unless_valid valid = raise_if (not valid) (vm_error VmError.invalid_instruction)

unfoldable pub check_target : ℕ → Action Computation ⊤
unfolding is_valid_target raise_unless_valid
check_target jump_dest = do valid ← on_code (is_valid_target jump_dest); raise_unless_valid valid

-- What `jump` and `jumpi` do with the target.
unfoldable pub land : ℕ → Action Computation ⊤
unfolding check_target
land jump_dest = do
  modify (λ c. record c { code = record c.code { program_counter = jump_dest } })
  next_opcode ← gets (λ c. peek c.code)
  raise_if (not (next_opcode == jumpdest_value)) (vm_error VmError.invalid_jump_destination)
  check_target jump_dest

unfoldable pub jumpdest : Action Computation ⊤
jumpdest = pure tt

unfoldable pub program_counter : Action Computation ⊤
program_counter = do pc ← gets (λ c. c.code.program_counter - 1); on_stack (push_int (pos pc))

-- The computation that runs has no error yet, so what it would return is what the meter holds.
unfoldable pub gas : Action Computation ⊤
gas = do
  gas_remaining ← gets (λ c. c.gas_meter.gas_remaining)
  on_stack (push_int (pos gas_remaining))

unfoldable pub pop : Action Computation ⊤
pop = do on_stack pop1_any; pure tt

-- `raw_value.ljust(size, b"\x00")`, which changes nothing where the size is there.
unfoldable pub push_xx : ℕ → Action Computation ⊤
push_xx size = do
  raw_value ← on_code (λ s. let (raw_value, t) = read size s in (ok raw_value, t))
  let padded_value = raw_value ++ replicate (size - length raw_value) 0
  on_stack (push_bytes padded_value)

unfoldable pub dup_xx : ℕ → Action Computation ⊤
dup_xx position = on_stack (dup position)

unfoldable pub swap_xx : ℕ → Action Computation ⊤
swap_xx position = on_stack (swap position)

-- `value.rjust(size, b"\x00")[-size:]`
unfoldable pub rjust_last : ℕ → List ℕ → List ℕ
rjust_last size value =
    let padded_value = replicate (size - length value) 0 ++ value in
    drop (length padded_value - size) padded_value

unfoldable pub msize : Action Computation ⊤
msize = do size ← gets (λ c. length c.memory); on_stack (push_int (pos size))

module _ ⦃eth : EthUtils⦄ where
  unfoldable pub jump : Action Computation ⊤
  unfolding land
  jump = do jump_dest ← on_stack pop1_int; land jump_dest

  unfoldable pub jumpi : Action Computation ⊤
  unfolding land
  jumpi = do
    items ← on_stack (pop_ints 2)
    operands ← lift (unpack2 items)
    if operands.1 == 0 then pure tt else land operands.0

  unfoldable pub mstore : Action Computation ⊤
  unfolding rjust_last
  mstore = do
    start_position ← on_stack pop1_int
    value ← on_stack pop1_bytes
    extend_memory start_position 32
    on_memory (write start_position 32 (rjust_last 32 value))

  unfoldable pub mstore8 : Action Computation ⊤
  unfolding rjust_last
  mstore8 = do
    start_position ← on_stack pop1_int
    value ← on_stack pop1_bytes
    extend_memory start_position 1
    on_memory (write start_position 1 (rjust_last 1 value))

  unfoldable pub mload : Action Computation ⊤
  mload = do
    start_position ← on_stack pop1_int
    extend_memory start_position 32
    value ← gets (λ c. read_bytes start_position 32 c.memory)
    on_stack (push_bytes value)
