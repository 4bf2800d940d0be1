-- ===== src/Calls/Fees.antt =====
-- How the gas of a call is shared between a computation and its child.
use veda_bvm.Calls.{
  ChainAccounts, CallClass, compute_msg_gas, compute_msg_extra_gas, compute_eip150_msg_gas,
  max_child_gas_eip150, stipend,
}
use veda_bvm.Common.{
  ℕ, ◌+◌, ◌-◌, ◌/◌, ◌≤◌, ◌<◌, ◌≡◌, ◌⊎◌, inl, inr, min, ltb, ◌==◌, if◌then◌else◌, arith, Bool-cases,
  refl,
}
use veda_bvm.Exceptions.{ok, err}
use veda_bvm.Execution.Run.{frame}
use veda_bvm.Execution.{Tree}
use veda_bvm.Gas.{out_of_gas}
use veda_bvm.Message.{Address}

-- The gas that a message starts with and the fee that is taken for it, at so much gas left of which
-- so much goes to the extra costs.
pub record Shared (left extra gas child fee : ℕ) : Type 0 where
  -- the fee can be paid
  pub payable : fee ≤ left
  -- a 64th of what the extra costs leave stays with the caller
  pub kept : fee + (left - extra) / 64 ≤ left
  -- what the child is given was paid for
  pub covered : child ≤ fee
  -- the caller's wish is a bound
  pub wished : fee ≤ gas + extra

compute_eip150_msg_gas_lem :
    (left gas extra value callstipend : ℕ)
    → (if value == 0 then 0 else callstipend) ≤ extra
    → ((child : ℕ) × (fee : ℕ) × (compute_eip150_msg_gas left gas extra value callstipend
          ≡ ok (child, fee))
        × Shared left extra gas child fee)
      ⊎ ((left < extra)
          × (compute_eip150_msg_gas left gas extra value callstipend ≡ err out_of_gas))
unfolding compute_eip150_msg_gas max_child_gas_eip150
compute_eip150_msg_gas_lem left gas extra value callstipend funded =
    elim (Bool-cases (ltb left extra)) [
      | inl short ↦ inr (ground arith, rw short refl)
      | inr enough ↦
          let fits : extra ≤ left = ground arith in
          let share = min gas (left - extra - (left - extra) / 64) in
          inl (
            share + (if value == 0 then 0 else callstipend),
            share + extra,
            rw enough refl,
            record {
              payable = omega arith;
              kept = omega arith;
              covered = omega arith;
              wished = omega arith;
            },
          )
    ]

module _ {S : Type 0} (chain : ChainAccounts S) where
  stipend-funded :
      (class : CallClass) (to : Address) (value : ℕ) (s : S)
      → (if value == 0 then 0 else stipend chain class)
        ≤ compute_msg_extra_gas chain class to value s
  unfolding stipend compute_msg_extra_gas
  stipend-funded CallClass.call to value s = ground arith
  stipend-funded CallClass.callcode to value s = ground arith
  stipend-funded CallClass.delegatecall to value s = ground arith
  stipend-funded CallClass.staticcall to value s = ground arith

  -- A call whose extra costs can be paid takes a fee that can be paid too and leaves a 64th of the
  -- rest to its caller, does not exceed what the caller asked for, and gives its child no more gas
  -- than the fee, the stipend included. Otherwise it fails for want of gas.
  pub compute_msg_gas_lem :
      (class : CallClass) (gas : ℕ) (to : Address) (value : ℕ) (s : S) (t : Tree)
      → ((child : ℕ) × (fee : ℕ) × (compute_msg_gas chain class gas to value (s, t)
            ≡ ok (child, fee))
          × Shared
              (frame t).machine.gas_meter.gas_remaining
              (compute_msg_extra_gas chain class to value s)
              gas
              child
              fee)
        ⊎ (((frame t).machine.gas_meter.gas_remaining
              < compute_msg_extra_gas chain class to value s)
            × (compute_msg_gas chain class gas to value (s, t) ≡ err out_of_gas))
  unfolding compute_msg_gas
  compute_msg_gas_lem class gas to value s t =
      compute_eip150_msg_gas_lem (frame t).machine.gas_meter.gas_remaining gas
        (compute_msg_extra_gas chain class to value s) value (stipend chain class)
        (stipend-funded class to value s)
