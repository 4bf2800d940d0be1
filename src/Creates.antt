-- ===== src/Creates.antt =====
-- The classes Create and Create2 of veda/vm/logic/system.py, as veda/vm/forks/veda/logic.py changes
-- them: opcodes that create contracts. Beside the accounts and the run of a child, nonces, storage to
-- delete and the addresses of contracts, which are hashes, are parameters.
pub mod Spends
mod Tests
use veda_bvm.Calls.{
  ChainAccounts, max_child_gas_eip150, apply_child_computation, give_back, clear_return_data,
  unpack4,
}
use veda_bvm.Common.{
  ℕ, ◌+◌, ◌-◌, ◌*◌, ◌/◌, ◌≡◌, Bool, true, false, not, ◌&&◌, ◌||◌, ⊤, ltb, ◌==◌, if◌then◌else◌, List,
  [], ◌∷◌, Option, none, some, length,
}
use veda_bvm.Common.Int.{pos}
use veda_bvm.Computation.{Computation, on_stack, on_gas_meter, extend_memory}
use veda_bvm.Exceptions.{
  VmError, Result, ok, err, Action, ◌>>=◌, ◌>>◌, vm_error, value_error, pure, gets, lift,
}
use veda_bvm.Execution.Messages.{ChainState, stack_depth_limit}
use veda_bvm.Execution.Run.{Step, frame, on_computation, initcode_word_cost}
use veda_bvm.Execution.{Frame, Tree, tree, is_error, get_gas_remaining, prepare_child_message}
use veda_bvm.External.{EthUtils}
use veda_bvm.Gas.{consume_gas}
use veda_bvm.Logic.{unpack3}
use veda_bvm.Memory.{read_bytes}
use veda_bvm.Message.{Message, Address, storage_address, create_contract_address}
use veda_bvm.Numeric.{ceil32, uint_64_max, to_bytes}
use veda_bvm.Stack.{pop_ints, push_int, push_bytes}

pub record ChainNonces (S : Type 0) : Type 0 where
  pub get_nonce : Address → S → ℕ
  pub has_code_or_nonce : Address → S → Bool
  pub delete_storage : Address → S → S
  -- `generate_contract_address` and `generate_safe_contract_address`
  pub contract_address : Address → ℕ → Address
  pub safe_contract_address : Address → ℕ → List ℕ → Address

pub data CreateClass : Type 0 where
  create create2 : CreateClass

pub record CreateOpcodeStackData : Type 0 where
  pub endowment : ℕ
  pub memory_start : ℕ
  pub memory_length : ℕ
  pub salt : ℕ

abbrev pub gas_create : ℕ
gas_create = 32000

abbrev pub gas_sha3word : ℕ
gas_sha3word = 6

unfoldable pub get_gas_cost : CreateClass → CreateOpcodeStackData → ℕ
get_gas_cost CreateClass.create d = gas_create + initcode_word_cost * ceil32 d.memory_length / 32
get_gas_cost CreateClass.create2 d =
    gas_create
    + gas_sha3word * ceil32 d.memory_length / 32
    + initcode_word_cost * ceil32 d.memory_length / 32

unfoldable pub create_operands : CreateClass → ℕ
create_operands CreateClass.create = 3
create_operands CreateClass.create2 = 4

unfoldable pub stack_data_of : CreateClass → List ℕ → Result CreateOpcodeStackData
unfolding unpack4
stack_data_of CreateClass.create items = elim (unpack3 items) [
  | ok (endowment, start, len) ↦
      ok (record { endowment = endowment; memory_start = start; memory_length = len; salt = 0 })
  | err e ↦ err e
]
stack_data_of CreateClass.create2 items = elim (unpack4 items) [
  | ok (endowment, start, len, salt) ↦
      ok (record { endowment = endowment; memory_start = start; memory_length = len; salt = salt })
  | err e ↦ err e
]

-- The 20 bytes of an address.
unfoldable pub address_bytes : Address → List ℕ
address_bytes none = []
address_bytes (some a) = to_bytes 20 a

abbrev pub on_state : {S A : Type 0} → Action S A → Action (S × Tree) A
on_state m (s, t) = let (r, s') = m s in (r, (s', t))

module _ {S : Type 0} (state : ChainState S) (chain : ChainAccounts S)
    (nonces : ChainNonces S) where
  unfoldable pub address_of : CreateClass → CreateOpcodeStackData → List ℕ → Address → ℕ → Address
  address_of CreateClass.create d call_data own creation_nonce =
      nonces.contract_address own creation_nonce
  address_of CreateClass.create2 d call_data own creation_nonce =
      nonces.safe_contract_address own d.salt call_data

  -- `generate_contract_address`, which marks the address as warm.
  unfoldable pub generate_contract_address :
      CreateClass → CreateOpcodeStackData → List ℕ → Action (S × Tree) Address
  unfolding address_of
  generate_contract_address class d call_data (s, t) =
      let own = storage_address (frame t).msg in
      let address = address_of class d call_data own (nonces.get_nonce own s) in
      let (r, s') = state.increment_nonce own s in
      elim r [
        | ok _ ↦ (ok address, (chain.mark_address_warm address s', t))
        | err e ↦ (err e, (s', t))
      ]

  -- A creation that fails before a child runs.
  unfoldable pub fail_creation : Action (S × Tree) ⊤
  fail_creation = do on_computation (on_stack (push_int (pos 0))); clear_return_data chain

  unfoldable pub settle_create : Message → Tree → Action (S × Tree) ⊤
  unfolding address_bytes
  settle_create child_msg child = do
    if is_error (frame child)
        then on_computation (on_stack (push_int (pos 0)))
        else on_computation (on_stack (push_bytes (address_bytes (storage_address child_msg))))
    give_back chain (get_gas_remaining (frame child))

  unfoldable pub close_create2 : state.Snapshot → Tree → Action (S × Tree) ⊤
  close_create2 snap child =
      if is_error (frame child) then on_state (state.revert snap) else on_state (state.commit snap)

  unfoldable pub prepare_storage : Message → Action (S × Tree) state.Snapshot
  prepare_storage child_msg (s, t) =
      let (snap, s') = state.snapshot s in
      (ok snap, (nonces.delete_storage (storage_address child_msg) s', t))

  -- `apply_create_message` of the two classes.
  unfoldable pub apply_create : CreateClass → Message → Action (S × Tree) ⊤
  unfolding settle_create close_create2 prepare_storage
  apply_create CreateClass.create child_msg = do
    child ← apply_child_computation chain child_msg
    settle_create child_msg child
  apply_create CreateClass.create2 child_msg = do
    snap ← prepare_storage child_msg
    child ← apply_child_computation chain child_msg
    close_create2 snap child
    settle_create child_msg child

  unfoldable pub prepare_create : List ℕ → ℕ → Address → Action (S × Tree) Message
  prepare_create call_data create_msg_gas contract_address (s, t) =
      let child : Message = record {
        gas = create_msg_gas;
        to = create_contract_address;
        sender = none;
        message_data = [];
        code = call_data;
        depth = 0;
        create_address = some contract_address;
        own_code_address = none;
        should_transfer_value = true;
        is_static = false;
      } in
      (prepare_child_message child none (frame t), (s, t))

  unfoldable pub start_create : CreateClass → List ℕ → ℕ → Address → Action (S × Tree) ⊤
  unfolding fail_creation prepare_create apply_create
  start_create class call_data create_msg_gas contract_address st =
      if nonces.has_code_or_nonce contract_address st.0
      then fail_creation st
      else (prepare_create call_data create_msg_gas contract_address >>= apply_create class) st

  unfoldable pub launch : CreateClass → CreateOpcodeStackData → List ℕ → ℕ → Action (S × Tree) ⊤
  unfolding generate_contract_address start_create
  launch class d call_data create_msg_gas = do
    contract_address ← generate_contract_address class d call_data
    start_create class call_data create_msg_gas contract_address

  unfoldable pub fund : CreateClass → CreateOpcodeStackData → List ℕ → ℕ → Action (S × Tree) ⊤
  unfolding launch
  fund class d call_data create_msg_gas = do
    on_computation (on_gas_meter (consume_gas (pos create_msg_gas)))
    launch class d call_data create_msg_gas

  unfoldable pub create_contract : CreateClass → CreateOpcodeStackData → Action (S × Tree) ⊤
  unfolding fund max_child_gas_eip150
  create_contract class d st =
      let c = (frame st.1).machine in
      fund class d (read_bytes d.memory_start d.memory_length c.memory)
        (max_child_gas_eip150 c.gas_meter.gas_remaining) st

  -- `insufficient_funds or stack_too_deep or nonce_too_high`
  unfoldable pub cannot_create : CreateOpcodeStackData → S × Tree → Bool
  cannot_create d (s, t) =
      let own = storage_address (frame t).msg in
      ltb (chain.get_balance own s) d.endowment
      || ltb stack_depth_limit ((frame t).msg.depth + 1)
      || ltb uint_64_max (nonces.get_nonce own s + 1)

  unfoldable pub try_create : CreateClass → CreateOpcodeStackData → Action (S × Tree) ⊤
  unfolding cannot_create fail_creation create_contract
  try_create class d st =
      if cannot_create d st then fail_creation st else create_contract class d st

  unfoldable pub create_with : CreateClass → CreateOpcodeStackData → Action (S × Tree) ⊤
  unfolding get_gas_cost try_create
  create_with class d = do
    on_computation (on_gas_meter (consume_gas (pos (get_gas_cost class d))))
    on_computation (extend_memory d.memory_start d.memory_length)
    try_create class d

  module _ ⦃eth : EthUtils⦄ where
    unfoldable pub get_stack_data : CreateClass → Action (S × Tree) CreateOpcodeStackData
    unfolding stack_data_of create_operands
    get_stack_data class = do
      items ← on_computation (on_stack (pop_ints (create_operands class)))
      lift (stack_data_of class items)

    unfoldable pub run_create : CreateClass → Action (S × Tree) ⊤
    unfolding get_stack_data create_with
    run_create class = do stack_data ← get_stack_data class; create_with class stack_data

    -- Of the two classes, Create2 alone refuses to run in a static context.
    unfoldable pub create_op : CreateClass → Step S
    unfolding run_create
    create_op CreateClass.create st = run_create CreateClass.create st
    create_op CreateClass.create2 st =
        if (frame st.1).msg.is_static
        then (err (vm_error VmError.write_protection), st)
        else run_create CreateClass.create2 st
