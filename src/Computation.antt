-- ===== src/Computation.antt =====
-- veda/vm/computation.py: the machine state of a computation, and the calls through which opcodes
-- reach it. The error of a run stands in the frames of Execution.
pub mod MemoryGas
use veda_bvm.Code.{CodeStream}
use veda_bvm.Common.{
  ℕ, zero, suc, ◌+◌, ◌-◌, ◌*◌, ◌/◌, ◌%◌, ◌^◌, ◌≤◌, ◌<◌, List, [], ◌∷◌, Bool, true, false, not, ⊤,
  ltb, leb, ◌==◌, if◌then◌else◌, length,
}
use veda_bvm.Common.Int.{ℤ, pos}
use veda_bvm.Exceptions.{
  Result, ok, err, Action, ◌>>=◌, ◌>>◌, pure, gets, modify, raise_if, validation_error, zoom,
}
use veda_bvm.Gas.{GasMeter, consume_gas}
use veda_bvm.Memory.{Memory, extend, write}
use veda_bvm.Numeric.{ceil32, uint_256_max}
use veda_bvm.Stack.{Stack}

abbrev pub gas_memory : ℕ
gas_memory = 3

abbrev pub gas_memory_quadratic_denominator : ℕ
gas_memory_quadratic_denominator = 512

unfoldable pub memory_gas_cost : ℕ → ℕ
unfolding ceil32
memory_gas_cost size_in_bytes =
    let size_in_words = ceil32 size_in_bytes / 32 in
    let linear_cost = size_in_words * gas_memory in
    let quadratic_cost = size_in_words ^ 2 / gas_memory_quadratic_denominator in
    linear_cost + quadratic_cost

pub record Computation : Type 0 where
  pub stack : Stack
  pub memory : Memory
  pub gas_meter : GasMeter
  pub code : CodeStream
  pub return_data : List ℕ
  pub output : List ℕ

module _ {A : Type 0} where
  abbrev pub on_stack : Action Stack A → Action Computation A
  on_stack = zoom {C = Computation} (λ c. c.stack) (λ c s. record c { stack = s })

  abbrev pub on_memory : Action Memory A → Action Computation A
  on_memory = zoom {C = Computation} (λ c. c.memory) (λ c m. record c { memory = m })

  abbrev pub on_gas_meter : Action GasMeter A → Action Computation A
  on_gas_meter = zoom {C = Computation} (λ c. c.gas_meter) (λ c m. record c { gas_meter = m })

  abbrev pub on_code : Action CodeStream A → Action Computation A
  on_code = zoom {C = Computation} (λ c. c.code) (λ c s. record c { code = s })

-- The fee is taken before the memory grows.
unfoldable pub extend_memory : ℕ → ℕ → Action Computation ⊤
unfolding memory_gas_cost consume_gas extend
extend_memory start_position size = do
  raise_if (ltb uint_256_max start_position) validation_error
  raise_if (ltb uint_256_max size) validation_error
  before_size ← gets (λ c. ceil32 (length c.memory))
  let after_size = ceil32 (start_position + size)
  let before_cost = memory_gas_cost before_size
  let after_cost = memory_gas_cost after_size
  if size == 0 then pure tt else do
    if ltb before_cost after_cost
        then on_gas_meter (consume_gas (pos (after_cost - before_cost)))
        else pure tt
    modify (λ c. record c { memory = extend start_position size c.memory })
