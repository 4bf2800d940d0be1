-- ===== src/Gas.antt =====
-- veda/vm/gas_meter.py: the gas meter of a computation. The remaining gas is never negative, so it
-- is a natural number; amounts and the refund counter are Python's integers.
pub mod Account
mod Tests
use veda_bvm.Common.{ℕ, ◌+◌, ◌-◌, ⊤, List, ltb, leb, if◌then◌else◌}
use veda_bvm.Common.Int.{ℤ, pos, negsuc, ◌+ℤ◌, ltb_ℤ}
use veda_bvm.Exceptions.{
  Exception, VmError, Result, ok, err, Action, ◌>>=◌, ◌>>◌, vm_error, validation_error, raise, gets,
  modify, lift, raise_if,
}
use veda_bvm.Numeric.{uint_256_max}

-- The two functions that serve as `refund_strategy`.
pub data RefundStrategy : Type 0 where
  default allow_negative : RefundStrategy

unfoldable pub refunded : RefundStrategy → ℤ → ℤ → Result ℤ
refunded RefundStrategy.default gas_refunded_total amount =
    if ltb_ℤ amount (pos 0) then err validation_error else ok (gas_refunded_total +ℤ amount)
refunded RefundStrategy.allow_negative gas_refunded_total amount = ok (gas_refunded_total +ℤ amount)

pub record GasMeter : Type 0 where
  pub refund_strategy : RefundStrategy
  pub start_gas : ℕ
  pub gas_remaining : ℕ
  pub gas_refunded : ℤ

abbrev pub out_of_gas : Exception
out_of_gas = vm_error VmError.out_of_gas

-- `GasMeter.__init__`, with `validate_uint256`.
unfoldable pub new : ℤ → RefundStrategy → Result GasMeter
new (negsuc _) strategy = err validation_error
new (pos start_gas) strategy =
    if ltb uint_256_max start_gas
    then err validation_error
    else ok (record {
      refund_strategy = strategy;
      start_gas = start_gas;
      gas_remaining = start_gas;
      gas_refunded = pos 0;
    })

unfoldable pub consume_gas : ℤ → Action GasMeter ⊤
consume_gas (negsuc _) = raise validation_error
consume_gas (pos amount) = do
  gas_remaining ← gets (λ m. m.gas_remaining)
  raise_if (ltb gas_remaining amount) out_of_gas
  modify (λ m. record m { gas_remaining = m.gas_remaining - amount })

unfoldable pub return_gas : ℤ → Action GasMeter ⊤
return_gas (negsuc _) = raise validation_error
return_gas (pos amount) = modify (λ m. record m { gas_remaining = m.gas_remaining + amount })

unfoldable pub refund_gas : ℤ → Action GasMeter ⊤
unfolding refunded
refund_gas amount = do
  total ← λ m. (refunded m.refund_strategy m.gas_refunded amount, m)
  modify (λ m. record m { gas_refunded = total })
