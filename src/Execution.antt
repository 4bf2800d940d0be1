-- ===== src/Execution.antt =====
-- veda/vm/computation.py: the life of a computation, from its message to its result.
pub mod Run
pub mod Ends
pub mod Settles
pub mod Whole
pub mod Costs
pub mod Within
pub mod Left
pub mod Refunds
pub mod Entries
pub mod Logs
pub mod Deletions
pub mod Messages
pub mod Opens
pub mod Reverts
pub mod Applies
pub mod Copies
mod Tests
mod MessageTests
use veda_bvm.Code
use veda_bvm.Common.{
  ℕ, zero, suc, ◌+◌, ◌-◌, Bool, true, false, not, Option, none, some, List, [], ◌∷◌, ◌++◌, ⊤, max,
  ltb, ◌==◌, if◌then◌else◌, length,
}
use veda_bvm.Common.Int.{ℤ, pos, ◌+ℤ◌}
use veda_bvm.Computation.{Computation, on_gas_meter}
use veda_bvm.Exceptions.{
  VmError, Exception, Result, ok, err, Action, ◌>>=◌, ◌>>◌, pure, raise, modify, zoom, vm_error,
  halt, burns_gas, erases_return_data, attribute_error,
}
use veda_bvm.Gas.{consume_gas, RefundStrategy}
use veda_bvm.Gas
use veda_bvm.Message.{
  Message, new_message, Address, same_address, code_address, storage_address, is_create,
}

-- The tuples of `_log_entries`.
pub record LogEntry : Type 0 where
  pub counter : ℕ
  pub account : Address
  pub topics : List ℕ
  pub log_data : List ℕ

pub record Frame : Type 0 where
  pub msg : Message
  -- `transaction_context.origin`
  pub origin : Address
  pub machine : Computation
  pub raised : Option VmError
  -- a dictionary by account, in the order of its entries
  pub accounts_to_delete : List (Address × Address)
  pub log_entries : List LogEntry

-- A computation with its children, the latest at the end.
mutual
  pub data Tree : Type 0 where
    tree : Frame → Children → Tree

  pub data Children : Type 0 where
    childless : Children
    append : Children → Tree → Children

unfoldable pub is_error : Frame → Bool
is_error f = elim f.raised [ none ↦ false | some _ ↦ true ]

unfoldable pub set_error : VmError → Action Frame ⊤
unfolding is_error
set_error e f =
    if is_error f then raise attribute_error f else modify (λ f. record f { raised = some e }) f

unfoldable pub should_burn_gas : Frame → Bool
should_burn_gas f = elim f.raised [ none ↦ false | some e ↦ burns_gas e ]

unfoldable pub should_erase_return_data : Frame → Bool
should_erase_return_data f = elim f.raised [ none ↦ false | some e ↦ erases_return_data e ]

unfoldable pub output : Frame → List ℕ
unfolding should_erase_return_data
output f = if should_erase_return_data f then [] else f.machine.output

unfoldable pub get_gas_used : Frame → ℕ
unfolding should_burn_gas
get_gas_used f =
    if should_burn_gas f
    then f.machine.gas_meter.start_gas
    else f.machine.gas_meter.start_gas - f.machine.gas_meter.gas_remaining

unfoldable pub get_gas_remaining : Frame → ℕ
unfolding should_burn_gas
get_gas_remaining f = if should_burn_gas f then 0 else f.machine.gas_meter.gas_remaining

unfoldable mutual
  pub get_gas_refund : Tree → ℤ
  get_gas_refund (tree f cs) =
      let children = get_gas_refunds cs in
      if is_error f then pos 0 else f.machine.gas_meter.gas_refunded +ℤ children

  pub get_gas_refunds : Children → ℤ
  get_gas_refunds childless = pos 0
  get_gas_refunds (append cs child) = get_gas_refunds cs +ℤ get_gas_refund child

-- What `add_child_computation` takes for the return data.
unfoldable pub returned_by : Frame → List ℕ
unfolding is_error should_burn_gas output
returned_by child =
    if is_error child
    then if is_create child.msg
      then output child
      else if should_burn_gas child
      then []
      else output child
    else if is_create child.msg
    then []
    else output child

unfoldable pub add_child_computation : Tree → Tree → Tree
unfolding returned_by
add_child_computation (tree child below) (tree f cs) =
    tree (record f { machine = record f.machine { return_data = returned_by child } })
      (append cs (tree child below))

-- `prepare_child_message`, whose sender is the own storage address if the caller gives none.
unfoldable pub prepare_child_message : Message → Option Address → Frame → Result Message
unfolding storage_address new_message
prepare_child_message child sender f = new_message (record child {
  sender = elim sender [ some a ↦ a | none ↦ storage_address f.msg ];
  depth = f.msg.depth + 1;
})
