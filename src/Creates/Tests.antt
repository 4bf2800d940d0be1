-- ===== src/Creates/Tests.antt =====
-- Creations in a static context, at a state that keeps copies.
use veda_bvm.Calls.{ChainAccounts, apply_child_computation, give_back}
use veda_bvm.Code.{new}
use veda_bvm.Common.{◌+◌, ◌≡◌, refl, ◌∷◌, [], true, false, some, none}
use veda_bvm.Common.Int.{pos}
use veda_bvm.Computation.{extend_memory}
use veda_bvm.Creates.{ChainNonces, CreateClass, create_op}
use veda_bvm.Exceptions.{VmError, ok, err, vm_error}
use veda_bvm.Execution.Copies.{Copies, copies_state}
use veda_bvm.Execution.Run.{new_computation}
use veda_bvm.Execution.{
  Frame, tree, childless, is_error, get_gas_remaining, add_child_computation, prepare_child_message,
}
use veda_bvm.External.Reference.{reference}
use veda_bvm.Gas.{RefundStrategy, consume_gas, return_gas}
use veda_bvm.Memory.{read_bytes}
use veda_bvm.Stack.{int, pop_ints, push_int, push_bytes}
use veda_bvm.Numeric.{to_bytes}

abbrev idle : ChainAccounts Copies
idle = record {
  get_balance = λ a s. 0;
  account_exists = λ a s. true;
  account_is_empty = λ a s. false;
  get_code = λ a s. [];
  is_address_warm = λ a s. true;
  mark_address_warm = λ a s. s;
  generate_child_computation = λ msg origin s. (new_computation msg origin, s);
}

abbrev numbers : ChainNonces Copies
numbers = record {
  get_nonce = λ a s. 0;
  has_code_or_nonce = λ a s. false;
  delete_storage = λ a s. s;
  contract_address = λ a n. some (n + 100);
  safe_contract_address = λ a salt code. some (salt + 200);
}

abbrev static_frame : Frame
static_frame = record {
  msg = record {
    gas = 100000;
    to = some 9;
    sender = some 1;
    message_data = [];
    code = [];
    depth = 1;
    create_address = none;
    own_code_address = none;
    should_transfer_value = false;
    is_static = true;
  };
  origin = some 1;
  machine = record {
    stack = int 0 ∷ int 0 ∷ int 0 ∷ int 5 ∷ [];
    memory = [];
    gas_meter = record {
      refund_strategy = RefundStrategy.allow_negative;
      start_gas = 100000;
      gas_remaining = 100000;
      gas_refunded = pos 0;
    };
    code = new [];
    return_data = [];
    output = [];
  };
  raised = none;
  accounts_to_delete = [];
  log_entries = [];
}

create2-static :
    create_op copies_state idle numbers ⦃eth = reference⦄ CreateClass.create2
      (([], []), tree static_frame childless)
    ≡ (err (vm_error VmError.write_protection), (([], []), tree static_frame childless))
unfolding create_op
create2-static = refl

-- CREATE has no guard: it returns, and the nonce of the account has changed.
create-static :
    (create_op copies_state idle numbers ⦃eth = reference⦄ CreateClass.create
      (([], []), tree static_frame childless)).0
    ≡ ok tt
unfolding create_op pop_ints push_int push_bytes consume_gas return_gas extend_memory
    new_computation is_error get_gas_remaining add_child_computation prepare_child_message
    read_bytes to_bytes apply_child_computation give_back
create-static = refl

create-static_state :
    (create_op copies_state idle numbers ⦃eth = reference⦄ CreateClass.create
      (([], []), tree static_frame childless)).1.0
    ≡ ((some 9, []) ∷ [], [])
unfolding create_op pop_ints push_int push_bytes consume_gas return_gas extend_memory
    new_computation is_error get_gas_remaining add_child_computation prepare_child_message
    read_bytes to_bytes apply_child_computation give_back
create-static_state = refl
