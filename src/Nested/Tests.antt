-- ===== src/Nested/Tests.antt =====
-- A message that calls, at a state that keeps copies.
use mathlib.Core.Option.{some-injective}
use veda_bvm.Calls.{ChainAccounts}
use veda_bvm.Creates.{ChainNonces}
use veda_bvm.Common.{
  ℕ, ◌+◌, Option, ◌==◌, if◌then◌else◌, refl, arith, ◌∷◌, [], true, false, some, none, Bool-cases,
  inl, inr, subst,
}
use veda_bvm.Execution.Copies.{Copies, copies_state}
use veda_bvm.Execution.Costs.{lifted, as_opcode-Spends}
use veda_bvm.Execution.Ends.{Spends}
use veda_bvm.Execution.Left.{Came}
use veda_bvm.Execution.Run.{Step, new_computation}
use veda_bvm.Execution.Whole.{Configured}
use veda_bvm.External.Reference.{reference}
use veda_bvm.Logic.Flow.{jumpdest}
use veda_bvm.Message.{Message, Address}
use veda_bvm.Nested.{chain_at, run_message, run_message_lem}

abbrev accounts : ChainAccounts Copies
accounts = record {
  get_balance = λ a s. 1000;
  account_exists = λ a s. true;
  account_is_empty = λ a s. false;
  get_code = λ a s. 0x5b ∷ [];
  is_address_warm = λ a s. true;
  mark_address_warm = λ a s. s;
  generate_child_computation = λ msg origin s. (new_computation msg origin, s);
}

abbrev numbers : ChainNonces Copies
numbers = record {
  get_nonce = λ a s. 7;
  has_code_or_nonce = λ a s. false;
  delete_storage = λ a s. s;
  contract_address = λ a n. some (n + 100);
  safe_contract_address = λ a salt code. some (salt + 200);
}

abbrev jumpdests : ℕ → Option (Step Copies)
jumpdests opcode = if opcode == 0x5b then some (lifted jumpdest 1) else none

abbrev no_contracts : Address → Option (Step Copies)
no_contracts a = none

jumpdest-Spends : Spends {S = Copies} (lifted jumpdest 1)
jumpdest-Spends = as_opcode-Spends jumpdest 1 (λ c. unfold jumpdest in refl) (omega arith)

jumpdests-Configured : Configured jumpdests no_contracts
jumpdests-Configured = record {
  each = λ k fn h. elim (Bool-cases (k == 0x5b)) [
    | inl found ↦ subst Spends (some-injective _ _ (rw found at h)) jumpdest-Spends
    | inr other ↦ let none_found = rw other at h in cc
  ];
  contracts = λ a fn h. cc;
}

-- It jumps nowhere, and calls with an empty stack.
abbrev calling : Message
calling = record {
  gas = 100000;
  to = some 9;
  sender = some 1;
  message_data = [];
  code = 0x5b ∷ 0xf1 ∷ [];
  depth = 0;
  create_address = none;
  own_code_address = none;
  should_transfer_value = false;
  is_static = false;
}

run_message_lem_example : Came 100000 (
    run_message copies_state accounts numbers jumpdests no_contracts ⦃eth = reference⦄
      (chain_at copies_state accounts numbers jumpdests no_contracts ⦃eth = reference⦄ 1025)
      calling
      (some 1)
      ([], []))
run_message_lem_example =
    run_message_lem copies_state accounts numbers jumpdests no_contracts ⦃eth = reference⦄
      jumpdests-Configured 1025 calling (some 1) ([], [])
