-- ===== src/Storage.antt =====
-- veda/vm/logic/storage.py and veda/vm/forks/veda/storage.py: what storing a word costs. The
-- storage of the accounts, the part of veda/vm/state.py that these functions call, is a parameter.
-- A write may raise, as it does for a slot or a word past 256 bits. A slot that is read comes from
-- the stack, so that a read does not raise.
pub mod Price
pub mod Sums
pub mod Effect
pub mod Metered
pub mod Looks
pub mod Runs
mod Tests
use veda_bvm.Common.{
  ℕ, ◌+◌, ◌-◌, ◌≡◌, Bool, true, false, not, ⊤, ltb, leb, ◌==◌, if◌then◌else◌, List, [], ◌∷◌,
}
use veda_bvm.Common.Int.{ℤ, pos, negsuc, ◌+ℤ◌, ◌-ℤ◌}
use veda_bvm.Computation.{Computation, on_stack, on_gas_meter}
use veda_bvm.Exceptions.{
  VmError, Result, ok, err, Action, ◌>>=◌, ◌>>◌, vm_error, pure, raise, modify, lift,
}
use veda_bvm.Execution.Run.{Step, frame, on_computation}
use veda_bvm.Execution.{Frame, Tree, tree}
use veda_bvm.External.{EthUtils}
use veda_bvm.Gas.{consume_gas, refund_gas, out_of_gas}
use veda_bvm.Logic.{unpack2}
use veda_bvm.Message.{Address, storage_address}
use veda_bvm.Stack.{pop_ints, pop1_int, push_int}

pub record ChainStorage (S : Type 0) : Type 0 where
  pub get_storage : Address → ℕ → S → ℕ
  -- `get_storage(_, _, from_journal=False)`, the word before the transaction
  pub original_storage : Address → ℕ → S → ℕ
  pub set_storage : Address → ℕ → ℕ → Action S ⊤
  pub is_storage_warm : Address → ℕ → S → Bool
  pub mark_storage_warm : Address → ℕ → S → S
  -- Of a write that does not raise.
  pub get-set :
      (a : Address) (slot v : ℕ) (s : S)
      → (set_storage a slot v s).0 ≡ ok tt
      → get_storage a slot (set_storage a slot v s).1 ≡ v
  pub original-set :
      (a : Address) (slot v : ℕ) (s : S)
      → (set_storage a slot v s).0 ≡ ok tt
      → original_storage a slot (set_storage a slot v s).1 ≡ original_storage a slot s
  pub warm-set :
      (a : Address) (slot v : ℕ) (s : S)
      → (set_storage a slot v s).0 ≡ ok tt
      → is_storage_warm a slot (set_storage a slot v s).1 ≡ is_storage_warm a slot s
  pub get-mark :
      (a : Address) (slot : ℕ) (s : S)
      → get_storage a slot (mark_storage_warm a slot s) ≡ get_storage a slot s
  pub original-mark :
      (a : Address) (slot : ℕ) (s : S)
      → original_storage a slot (mark_storage_warm a slot s) ≡ original_storage a slot s
  pub warm-mark :
      (a : Address) (slot : ℕ) (s : S) → is_storage_warm a slot (mark_storage_warm a slot s) ≡ true

pub record NetSStoreGasSchedule : Type 0 where
  pub sload_gas : ℕ
  pub sstore_set_gas : ℕ
  pub sstore_reset_gas : ℕ
  pub sstore_clears_schedule : ℕ

abbrev pub warm_storage_read_cost : ℕ
warm_storage_read_cost = 100

abbrev pub cold_sload_cost : ℕ
cold_sload_cost = 2100

abbrev pub gas_schedule_eip1283 : NetSStoreGasSchedule
gas_schedule_eip1283 = record {
  sload_gas = 200;
  sstore_set_gas = 20000;
  sstore_reset_gas = 5000;
  sstore_clears_schedule = 15000;
}

abbrev pub gas_schedule_eip2200 : NetSStoreGasSchedule
gas_schedule_eip2200 = record gas_schedule_eip1283 { sload_gas = 800 }

abbrev pub gas_schedule_eip2929 : NetSStoreGasSchedule
gas_schedule_eip2929 = record gas_schedule_eip2200 {
  sload_gas = warm_storage_read_cost;
  sstore_reset_gas = 5000 - cold_sload_cost;
}

abbrev pub access_list_storage_key_cost : ℕ
access_list_storage_key_cost = 1900

abbrev pub gas_schedule_eip3529 : NetSStoreGasSchedule
gas_schedule_eip3529 = record gas_schedule_eip2929 {
  sstore_clears_schedule = gas_schedule_eip2929.sstore_reset_gas + access_list_storage_key_cost;
}

-- `gas_refund` of a word that was written in this transaction before.
unfoldable pub dirty_refund : NetSStoreGasSchedule → ℕ → ℕ → ℕ → ℤ
dirty_refund schedule original current value =
    let clears = pos schedule.sstore_clears_schedule in
    let taken_back : ℤ = if current == 0 then pos 0 -ℤ clears else pos 0 in
    let granted : ℤ = if value == 0 then taken_back +ℤ clears else taken_back in
    let cleared : ℤ = if original == 0 then pos 0 else granted in
    let fee = if original == 0 then schedule.sstore_set_gas else schedule.sstore_reset_gas in
    if original == value then cleared +ℤ (pos fee -ℤ pos schedule.sload_gas) else cleared

-- `gas_cost` and `gas_refund` of `net_sstore`.
unfoldable pub net_gas : NetSStoreGasSchedule → ℕ → ℕ → ℕ → ℕ × ℤ
unfolding dirty_refund
net_gas schedule original current value =
    if current == value
    then (schedule.sload_gas, pos 0)
    else if original == current
    then if original == 0
      then (schedule.sstore_set_gas, pos 0)
      else if value == 0
      then (schedule.sstore_reset_gas, pos schedule.sstore_clears_schedule)
      else (schedule.sstore_reset_gas, pos 0)
    else (schedule.sload_gas, dirty_refund schedule original current value)

-- `if gas_refund:`
unfoldable pub is_nonzero : ℤ → Bool
is_nonzero (pos n) = not (n == 0)
is_nonzero (negsuc n) = true

unfoldable pub maybe_refund : ℤ → Action Computation ⊤
unfolding is_nonzero
maybe_refund gas_refund =
    if is_nonzero gas_refund then on_gas_meter (refund_gas gas_refund) else pure tt

-- The decorator of the opcodes that change the state.
unfoldable pub ensure_no_static : {S A : Type 0} → Action (S × Tree) A → Action (S × Tree) A
ensure_no_static opcode_fn st =
    if (frame st.1).msg.is_static
    then (err (vm_error VmError.write_protection), st)
    else opcode_fn st

module _ {S : Type 0} (storage : ChainStorage S) where
  unfoldable pub set_word : Address → ℕ → ℕ → Action (S × Tree) ⊤
  set_word address slot value (s, t) =
      let (r, s') = storage.set_storage address slot value s in (r, (s', t))

  -- What `net_sstore` does once it has its operands.
  unfoldable pub pay_and_store : NetSStoreGasSchedule → ℕ × ℕ → Action (S × Tree) ℕ
  unfolding net_gas maybe_refund set_word storage_address
  pay_and_store schedule (slot, value) (s, t) =
      let address = storage_address (frame t).msg in
      let current = storage.get_storage address slot s in
      let original = storage.original_storage address slot s in
      let price = net_gas schedule original current value in
      (do
        on_computation (on_gas_meter (consume_gas (pos price.0)))
        on_computation (maybe_refund price.1)
        set_word address slot value
        pure slot)
        (s, t)

  -- Whether the slot was cold.
  unfoldable pub mark_if_cold : Bool → Address → ℕ → Action (S × Tree) Bool
  mark_if_cold true address slot st = (ok false, st)
  mark_if_cold false address slot (s, t) = (ok true, (storage.mark_storage_warm address slot s, t))

  unfoldable pub mark_storage_warm : ℕ → Action (S × Tree) Bool
  unfolding storage_address mark_if_cold
  mark_storage_warm slot (s, t) =
      let address = storage_address (frame t).msg in
      mark_if_cold (storage.is_storage_warm address slot s) address slot (s, t)

  -- The surcharge of `sstore_eip2929_generic` for a cold slot.
  unfoldable pub charge_cold : Bool → Action (S × Tree) ⊤
  charge_cold was_cold =
      if was_cold
      then on_computation (on_gas_meter (consume_gas (pos cold_sload_cost)))
      else pure tt

  -- What follows the write in `sstore_eip2929_generic`.
  unfoldable pub load_slot : ℕ → Action (S × Tree) ℕ
  unfolding mark_storage_warm charge_cold
  load_slot slot = do was_cold ← mark_storage_warm slot; charge_cold was_cold; pure slot

  -- What is read is the word of the journal.
  unfoldable pub read_word : ℕ → Action (S × Tree) ℕ
  unfolding storage_address
  read_word slot (s, t) = (ok (storage.get_storage (storage_address (frame t).msg) slot s), (s, t))

  -- What follows the mark in `sload_eip2929`.
  unfoldable pub pay_and_push : ℕ → Bool → Action (S × Tree) ⊤
  unfolding read_word
  pay_and_push slot was_cold = do
    on_computation (
        on_gas_meter
          (consume_gas (pos (if was_cold then cold_sload_cost else warm_storage_read_cost))))
    value ← read_word slot
    on_computation (on_stack (push_int (pos value)))

  unfoldable pub sload_slot : ℕ → Action (S × Tree) ⊤
  unfolding mark_storage_warm pay_and_push
  sload_slot slot = do was_cold ← mark_storage_warm slot; pay_and_push slot was_cold

  module _ ⦃eth : EthUtils⦄ where
    unfoldable pub net_sstore : NetSStoreGasSchedule → Action (S × Tree) ℕ
    unfolding pay_and_store
    net_sstore schedule = do
      items ← on_computation (on_stack (pop_ints 2))
      operands ← lift (unpack2 items)
      pay_and_store schedule operands

    unfoldable pub sstore_eip2200_generic : NetSStoreGasSchedule → Action (S × Tree) ℕ
    unfolding net_sstore
    sstore_eip2200_generic schedule st =
        if leb (frame st.1).machine.gas_meter.gas_remaining 2300
        then (err out_of_gas, st)
        else net_sstore schedule st

    unfoldable pub sstore_eip2929_generic : NetSStoreGasSchedule → Action (S × Tree) ℕ
    unfolding sstore_eip2200_generic load_slot
    sstore_eip2929_generic schedule = do slot ← sstore_eip2200_generic schedule; load_slot slot

    unfoldable pub sstore_eip3529 : Action (S × Tree) ℕ
    unfolding sstore_eip2929_generic
    sstore_eip3529 = sstore_eip2929_generic gas_schedule_eip3529

    unfoldable pub sload_eip2929 : Action (S × Tree) ⊤
    unfolding sload_slot
    sload_eip2929 = do slot ← on_computation (on_stack pop1_int); sload_slot slot
