-- ===== src/Logic/Tests.antt =====
-- Opcodes at concrete computations, and the theorems there.
use veda_bvm.Code.{new, read, peek, is_valid_opcode}
use veda_bvm.Common.{List, ℕ, ◌+◌, ◌-◌, ◌^◌, ◌<◌, ◌≡◌, ◌⊎◌, refl, arith, [], ◌∷◌, length, get_or}
use veda_bvm.Common.Int.{pos, pos_part, ◌*ℤ◌, ◌-ℤ◌, ◌+ℤ◌}
use veda_bvm.Computation.{Computation, memory_gas_cost, extend_memory}
use veda_bvm.Computation.MemoryGas.{extend_memory_lem}
use veda_bvm.Exceptions.{ok, err, VmError, vm_error}
use veda_bvm.External.Reference.{reference}
use veda_bvm.Gas.{RefundStrategy, out_of_gas}
use veda_bvm.Logic.Arithmetic.{add, sub, sdiv, smod, signextend, sar}
use veda_bvm.Logic.Comparison.{byte_op}
use veda_bvm.Logic.Flow.{jump, push_xx}
use veda_bvm.Logic.Jumps.{jump_lem, verdict, Lands}
use veda_bvm.Logic.Laws.{add-sub, sar_lem, byte_op_lem}
use veda_bvm.Logic.Ops.{Op, Binary}
use veda_bvm.Logic.Push.{push_xx_lem}
use veda_bvm.Logic.Total.{Outcome, run-Outcome}
use veda_bvm.Memory.{extend}
use veda_bvm.Logic.{shift_right}
use veda_bvm.Numeric.{ceil32, unsigned_to_signed, to_bytes}
use veda_bvm.Stack.{int, bytes, push_bytes, to_int, pop1_int}

abbrev running : Computation
running = record {
  stack = int (2 ^ 256 - 6) ∷ bytes (0 ∷ 2 ∷ []) ∷ int 9 ∷ [];
  memory = [];
  gas_meter = record {
    refund_strategy = RefundStrategy.default;
    start_gas = 100;
    gas_remaining = 90;
    gas_refunded = pos 0;
  };
  code = record {
    program_counter = 0;
    raw_code_bytes = [];
    invalid_positions = [];
    valid_positions = [];
  };
  return_data = [];
  output = [];
}

sdiv-negative : sdiv (2 ^ 256 - 7) 2 ≡ pos (2 ^ 256 - 3)
unfolding sdiv ◌*ℤ◌ ◌-ℤ◌ ◌+ℤ◌
sdiv-negative = refl

smod-negative : smod (2 ^ 256 - 7) 2 ≡ pos (2 ^ 256 - 1)
unfolding smod ◌*ℤ◌ ◌-ℤ◌
smod-negative = refl

signextend-negative : signextend 0 0x80 ≡ pos (2 ^ 256 - 0x80)
unfolding signextend
signextend-negative = refl

run-Outcome_example : Outcome (Op.binary Binary.sdiv) running
run-Outcome_example = run-Outcome (Op.binary Binary.sdiv) running (record {
  bounded = omega arith;
  words = (omega arith, ((omega arith, (omega arith, (omega arith, tt))), (omega arith, tt)));
})

extend_memory_lem_example :
    ((left : ℕ) × (extend_memory 40 32 running ≡ (
      ok tt,
      record running {
        memory = extend 40 32 running.memory;
        gas_meter = record running.gas_meter { gas_remaining = left };
      },
    ))
      × (left + memory_gas_cost (length (extend 40 32 running.memory))
          ≡ running.gas_meter.gas_remaining + memory_gas_cost (length running.memory)))
    ⊎ ((0 < 32)
        × (running.gas_meter.gas_remaining + memory_gas_cost (length running.memory)
            < memory_gas_cost (ceil32 (40 + 32)))
        × (extend_memory 40 32 running ≡ (err out_of_gas, running)))
extend_memory_lem_example = extend_memory_lem 40 32 running (omega arith) (omega arith) refl

add-sub_example : (add (pos_part (sub 3 5)) 5 ≡ pos 3) × (sub (pos_part (add 3 5)) 5 ≡ pos 3)
add-sub_example = add-sub 3 5 (omega arith) (omega arith)

sar_lem_example :
    unsigned_to_signed (pos_part (sar 1 (2 ^ 256 - 5)))
    ≡ shift_right (unsigned_to_signed (2 ^ 256 - 5)) 1
sar_lem_example = sar_lem 1 (2 ^ 256 - 5) (omega arith)

byte_op_lem_example : byte_op 30 0x1234 ≡ pos (get_or (to_bytes 32 0x1234) 30 0)
byte_op_lem_example = byte_op_lem 30 0x1234

-- PUSH1 0x5b, JUMPDEST
abbrev jump_code : List ℕ
jump_code = 0x60 ∷ 0x5b ∷ 0x5b ∷ []

abbrev jumping : Computation
jumping = record running { code = new jump_code }

jump-data :
    (jump (record jumping { stack = int 1 ∷ [] })).0 ≡ err (vm_error VmError.invalid_instruction)
unfolding jump pop1_int peek is_valid_opcode new
jump-data = refl

jump_lem_example :
    ((jump (record jumping { stack = int 2 ∷ [] })).0 ≡ verdict jump_code (to_int (int 2)))
    × Lands jump_code
        (to_int (int 2))
        (record jumping { stack = [] })
        (jump (record jumping { stack = int 2 ∷ [] })).1
jump_lem_example =
    jump_lem jump_code (int 2) [] jumping
      (unfold new in record { same_code = refl; invalid = tt; valid = tt })

-- PUSH2 with one byte of code left
push_xx-cut :
    (push_xx 2 (record jumping { code = record (new jump_code) { program_counter = 2 } })).1.stack
    ≡ bytes (0x5b ∷ 0 ∷ []) ∷ running.stack
unfolding push_xx push_bytes read new
push_xx-cut = refl

push_xx_lem_example :
    (bs : List ℕ) × (push_xx 2 jumping ≡ (
      ok tt,
      record jumping {
        stack = bytes bs ∷ jumping.stack;
        code = record jumping.code { program_counter = jumping.code.program_counter + 2 };
      },
    ))
    × (length bs ≡ 2)
    × ((i : ℕ)
        → i < 2
        → get_or bs i 0 ≡ get_or jumping.code.raw_code_bytes (jumping.code.program_counter + i) 0)
push_xx_lem_example = push_xx_lem 2 jumping (omega arith) (omega arith)
