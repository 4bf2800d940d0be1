-- ===== src/Calls/Tests.antt =====
-- A call at a concrete state, whose child does nothing, and the theorems there.
use veda_bvm.Calls.Child.{Honest}
use veda_bvm.Calls.Fees.{Shared, compute_msg_gas_lem}
use veda_bvm.Calls.Spends.{call_op-Spends}
use veda_bvm.Calls.{ChainAccounts, CallClass, compute_msg_gas, compute_msg_extra_gas, call_op}
use veda_bvm.Code.{new}
use veda_bvm.Common.{
  ℕ, ◌+◌, ◌-◌, ◌<◌, ◌≡◌, ◌⊎◌, refl, arith, ltb, ◌∷◌, [], true, false, some, none, ⊤, Bool-cases,
  inl, inr, subst,
}
use veda_bvm.Common.Int.{pos}
use veda_bvm.Computation.{extend_memory}
use veda_bvm.Exceptions.{ok, err}
use veda_bvm.Execution.Left.{Bounded}
use veda_bvm.Execution.Ends.{Spends, remaining}
use veda_bvm.Execution.Run.{new_computation, configure_gas_meter}
use veda_bvm.Execution.{
  Frame, tree, childless, get_gas_remaining, should_burn_gas, is_error, output,
  should_erase_return_data, add_child_computation, prepare_child_message,
}
use veda_bvm.External.Reference.{reference}
use veda_bvm.Gas
use veda_bvm.Gas.{RefundStrategy, consume_gas, return_gas, out_of_gas}
use veda_bvm.Memory.{write, read_bytes}
use veda_bvm.Message.{Message, Address}
use veda_bvm.Numeric.{uint_256_max}
use veda_bvm.Stack.{int, pop_ints, pop1_int, pop1_bytes, push_int}

-- Nothing is cold, all accounts exist and have a balance.
abbrev idle : ChainAccounts ⊤
idle = record {
  get_balance = λ a s. 1000;
  account_exists = λ a s. true;
  account_is_empty = λ a s. false;
  get_code = λ a s. [];
  is_address_warm = λ a s. true;
  mark_address_warm = λ a s. s;
  generate_child_computation = λ msg origin s. (new_computation msg origin, s);
}

new_computation-Bounded :
    (msg : Message) (origin : Address) → Bounded msg.gas (new_computation msg origin)
unfolding new_computation configure_gas_meter Gas.new get_gas_remaining should_burn_gas
new_computation-Bounded msg origin = elim (Bool-cases (ltb uint_256_max msg.gas)) [
  | inl large ↦ rw (new_computation, configure_gas_meter, Gas.new, large) tt
  | inr fits ↦ rw (new_computation, configure_gas_meter, Gas.new, fits) (omega arith)
]

idle-Honest : Honest idle
idle-Honest msg origin s child h = subst (Bounded msg.gas) h (new_computation-Bounded msg origin)

call_op-Spends_example : Spends (call_op idle ⦃eth = reference⦄ CallClass.call)
call_op-Spends_example = call_op-Spends idle idle-Honest ⦃eth = reference⦄ CallClass.call

abbrev caller : Frame
caller = record {
  msg = record {
    gas = 100000;
    to = some 9;
    sender = some 1;
    message_data = [];
    code = [];
    depth = 0;
    create_address = none;
    own_code_address = none;
    should_transfer_value = false;
    is_static = false;
  };
  origin = some 1;
  machine = record {
    stack = int 50000 ∷ int 4 ∷ int 1 ∷ int 0 ∷ int 0 ∷ int 0 ∷ int 0 ∷ [];
    memory = [];
    gas_meter = record {
      refund_strategy = RefundStrategy.allow_negative;
      start_gas = 100000;
      gas_remaining = 100000;
      gas_refunded = pos 0;
    };
    code = new [];
    return_data = [];
    output = [];
  };
  raised = none;
  accounts_to_delete = [];
  log_entries = [];
}

-- A value goes with the call: the transfer is paid for, the child returns the stipend too.
call-gas :
    remaining (call_op idle ⦃eth = reference⦄ CallClass.call (tt, tree caller childless)).1.1
    ≡ 100000 - 100 - 9000 + 2300
unfolding call_op pop1_int pop1_bytes pop_ints push_int consume_gas return_gas extend_memory write
    new_computation is_error output should_burn_gas should_erase_return_data get_gas_remaining
    add_child_computation prepare_child_message read_bytes
call-gas = refl

compute_msg_gas_lem_example :
    ((child : ℕ) × (fee : ℕ) × (compute_msg_gas idle CallClass.call 50000
          (some 4)
          1
          (tt, tree caller childless)
        ≡ ok (child, fee))
      × Shared 100000 (compute_msg_extra_gas idle CallClass.call (some 4) 1 tt) 50000 child fee)
    ⊎ ((100000 < compute_msg_extra_gas idle CallClass.call (some 4) 1 tt)
        × (compute_msg_gas idle CallClass.call 50000 (some 4) 1 (tt, tree caller childless)
            ≡ err out_of_gas))
compute_msg_gas_lem_example =
    compute_msg_gas_lem idle CallClass.call 50000 (some 4) 1 tt (tree caller childless)
