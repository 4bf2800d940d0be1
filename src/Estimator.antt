-- ===== src/Estimator.antt =====
-- veda/estimators/gas.py: the search for the gas that a transaction needs. What a transaction does to
-- the state is a parameter.
pub mod Answers
pub mod Outcomes
pub mod Search
mod Tests
use veda_bvm.Common.{
  ℕ, zero, suc, ◌+◌, ◌-◌, ◌/◌, Bool, true, false, not, Option, none, some, ⊤, ltb, if◌then◌else◌,
}
use veda_bvm.Exceptions.{
  VmError, Exception, Result, ok, err, Action, ◌>>=◌, ◌>>◌, pure, raise, vm_error, type_error,
}
use veda_bvm.Execution.Messages.{ChainState}
use veda_bvm.Execution.Run.{frame}
use veda_bvm.Execution.{Tree}

-- The fields of a transaction that the search reads or overrides.
pub record Transaction : Type 0 where
  pub has_sender : Bool
  pub intrinsic_gas : ℕ
  pub gas : ℕ
  pub gas_price : ℕ

module _ {S : Type 0} (state : ChainState S) (apply_transaction : Transaction → Action S Tree) where
  -- The `finally` part runs whether the transaction raises or not.
  unfoldable pub get_computation_error : Transaction → Action S (Option VmError)
  get_computation_error transaction s =
      let (snap, s1) = state.snapshot s in
      let (r, s2) = apply_transaction transaction s1 in
      let (reverted, s3) = state.revert snap s2 in
      (
        elim reverted [
          | err e ↦ err e
          | ok _ ↦ elim r [ err e ↦ err e | ok computation ↦ ok (frame computation).raised ]
        ],
        s3,
      )

module _ {S : Type 0} (error_of : Transaction → Action S (Option VmError)) (gas_limit : ℕ)
    (transaction : Transaction) where
  -- `SpoofTransaction(transaction, gas=gas, gas_price=0)`
  abbrev pub free_of_charge : ℕ → Transaction
  free_of_charge gas = record transaction { gas = gas; gas_price = 0 }

  -- The `while` loop, with fuel.
  unfoldable pub narrow : ℕ → ℕ → ℕ → ℕ → S → Option (Result ℕ × S)
  narrow tolerance zero minimum_viable maximum_out_of_gas s = none
  narrow tolerance (suc fuel) minimum_viable maximum_out_of_gas s =
      let midpoint = (minimum_viable + maximum_out_of_gas) / 2 in
      let (r, s') = error_of (record transaction { gas = midpoint }) s in
      if not (ltb tolerance (minimum_viable - maximum_out_of_gas))
      then some (ok minimum_viable, s)
      else elim r [
        | err e ↦ some (err e, s')
        | ok found ↦ elim found [
          | none ↦ narrow tolerance fuel midpoint maximum_out_of_gas s'
          | some _ ↦ narrow tolerance fuel minimum_viable midpoint s'
        ]
      ]

  unfoldable pub search_from_limit : ℕ → ℕ → S → Option (Result ℕ × S)
  unfolding narrow
  search_from_limit tolerance fuel s =
      let (r, s') = error_of (free_of_charge gas_limit) s in
      elim r [
        | err e ↦ some (err e, s')
        | ok found ↦ elim found [
          | some e ↦ some (err (vm_error e), s')
          | none ↦ narrow tolerance fuel gas_limit transaction.intrinsic_gas s'
        ]
      ]

  unfoldable pub binary_gas_search : ℕ → ℕ → S → Option (Result ℕ × S)
  unfolding search_from_limit
  binary_gas_search tolerance fuel s =
      let (r, s') = error_of (free_of_charge transaction.intrinsic_gas) s in
      if not transaction.has_sender then some (err type_error, s) else elim r [
        | err e ↦ some (err e, s')
        | ok found ↦ elim found [
          | none ↦ some (ok transaction.intrinsic_gas, s')
          | some _ ↦ search_from_limit tolerance fuel s'
        ]
      ]
