-- ===== src/Calls.antt =====
-- veda/vm/logic/call.py, with the classes of veda/vm/forks/veda/logic.py that stand in the table of
-- opcodes: calls of other contracts. The accounts of veda/vm/state.py and the run of a child
-- computation are parameters. Calls of state functions on an address do not raise.
pub mod Fees
pub mod Child
pub mod Spends
mod Tests
use veda_bvm.Common.{
  ℕ, ◌+◌, ◌-◌, ◌/◌, ◌≡◌, Bool, true, false, not, ◌&&◌, ◌||◌, ⊤, min, ltb, ◌==◌, if◌then◌else◌, List,
  [], ◌∷◌, Option, none, some, length, take,
}
use veda_bvm.Common.Int.{pos}
use veda_bvm.Computation.{Computation, on_stack, on_memory, on_gas_meter, extend_memory}
use veda_bvm.Exceptions.{
  VmError, Result, ok, err, Action, ◌>>=◌, ◌>>◌, vm_error, value_error, pure, gets, modify, lift,
  raise_if,
}
use veda_bvm.Execution.Messages.{stack_depth_limit}
use veda_bvm.Execution.Run.{Step, frame, on_frame, on_computation}
use veda_bvm.Execution.{
  Frame, Tree, tree, is_error, should_burn_gas, should_erase_return_data, output, get_gas_remaining,
  add_child_computation, prepare_child_message,
}
use veda_bvm.External.{EthUtils}
use veda_bvm.Gas.{consume_gas, return_gas, out_of_gas}
use veda_bvm.Logic.Flow.{rjust_last}
use veda_bvm.Memory.{read_bytes, write}
use veda_bvm.Message.{Message, Address, storage_address}
use veda_bvm.Stack.{pop_ints, pop1_int, pop1_bytes, push_int}

pub record ChainAccounts (S : Type 0) : Type 0 where
  pub get_balance : Address → S → ℕ
  pub account_exists : Address → S → Bool
  pub account_is_empty : Address → S → Bool
  pub get_code : Address → S → List ℕ
  pub is_address_warm : Address → S → Bool
  pub mark_address_warm : Address → S → S
  -- `generate_child_computation`, for a message and the origin of its transaction
  pub generate_child_computation : Message → Address → S → Result Tree × S

-- The classes CallVeda, CallCodeVeda, DelegateCallVeda and StaticCallVeda.
pub data CallClass : Type 0 where
  call callcode delegatecall staticcall : CallClass

pub record CallParams : Type 0 where
  pub gas : ℕ
  pub value : ℕ
  pub to : Address
  pub sender : Option Address
  pub code_address : Option Address
  pub memory_input_start_position : ℕ
  pub memory_input_size : ℕ
  pub memory_output_start_position : ℕ
  pub memory_output_size : ℕ
  pub should_transfer_value : Bool
  pub is_static : Bool

abbrev pub gas_callvalue : ℕ
gas_callvalue = 9000

abbrev pub gas_callstipend : ℕ
gas_callstipend = 2300

abbrev pub gas_newaccount : ℕ
gas_newaccount = 25000

abbrev pub warm_account_read_cost : ℕ
warm_account_read_cost = 100

abbrev pub cold_account_access_cost : ℕ
cold_account_access_cost = 2600

unfoldable pub max_child_gas_eip150 : ℕ → ℕ
max_child_gas_eip150 gas = gas - gas / 64

-- `compute_eip150_msg_gas`, at so much gas left.
unfoldable pub compute_eip150_msg_gas : ℕ → ℕ → ℕ → ℕ → ℕ → Result (ℕ × ℕ)
unfolding max_child_gas_eip150
compute_eip150_msg_gas gas_remaining gas extra_gas value callstipend =
    if ltb gas_remaining extra_gas
    then err out_of_gas
    else let gas' = min gas (max_child_gas_eip150 (gas_remaining - extra_gas)) in
      ok (gas' + (if value == 0 then 0 else callstipend), gas' + extra_gas)

-- The size and the place of what a call reads and writes.
unfoldable pub unpack4 : List ℕ → Result (ℕ × ℕ × ℕ × ℕ)
unpack4 (a ∷ b ∷ c ∷ d ∷ []) = ok (a, b, c, d)
unpack4 _ = err value_error

unfoldable pub unpack5 : List ℕ → Result (ℕ × ℕ × ℕ × ℕ × ℕ)
unpack5 (a ∷ b ∷ c ∷ d ∷ e ∷ []) = ok (a, b, c, d, e)
unpack5 _ = err value_error

module _ {S : Type 0} (chain : ChainAccounts S) where
  -- `compute_msg_extra_gas`
  unfoldable pub compute_msg_extra_gas : CallClass → Address → ℕ → S → ℕ
  compute_msg_extra_gas CallClass.callcode to value s = if value == 0 then 0 else gas_callvalue
  compute_msg_extra_gas CallClass.delegatecall to value s = 0
  compute_msg_extra_gas _ to value s =
      let account_is_dead = not (chain.account_exists to s) || chain.account_is_empty to s in
      let transfer_gas_fee = if value == 0 then 0 else gas_callvalue in
      let create_gas_fee = if account_is_dead && not (value == 0) then gas_newaccount else 0 in
      transfer_gas_fee + create_gas_fee

  unfoldable pub stipend : CallClass → ℕ
  stipend CallClass.delegatecall = 0
  stipend _ = gas_callstipend

  unfoldable pub compute_msg_gas : CallClass → ℕ → Address → ℕ → S × Tree → Result (ℕ × ℕ)
  unfolding compute_eip150_msg_gas compute_msg_extra_gas stipend
  compute_msg_gas class gas to value (s, t) =
      compute_eip150_msg_gas (frame t).machine.gas_meter.gas_remaining gas
        (compute_msg_extra_gas class to value s) value (stipend class)

  -- `get_account_load_fee` of `LoadFeeByCacheWarmth`.
  unfoldable pub get_account_load_fee : Address → Action (S × Tree) ℕ
  get_account_load_fee code_address (s, t) =
      if chain.is_address_warm code_address s
      then (ok warm_account_read_cost, (s, t))
      else (ok cold_account_access_cost, (chain.mark_address_warm code_address s, t))

  unfoldable pub code_source : CallParams → Address
  code_source p = elim p.code_address [ some a ↦ a | none ↦ p.to ]

  unfoldable pub child_message : CallParams → List ℕ → ℕ → S → Message
  unfolding code_source
  child_message p call_data child_msg_gas s = record {
    gas = child_msg_gas;
    to = p.to;
    sender = none;
    message_data = call_data;
    code = chain.get_code (code_source p) s;
    depth = 0;
    create_address = none;
    own_code_address = p.code_address;
    should_transfer_value = p.should_transfer_value;
    is_static = p.is_static;
  }

  unfoldable pub prepare : CallParams → List ℕ → ℕ → Action (S × Tree) Message
  unfolding child_message
  prepare p call_data child_msg_gas (s, t) =
      (prepare_child_message (child_message p call_data child_msg_gas s) p.sender (frame t), (s, t))

  -- `apply_child_computation`
  unfoldable pub apply_child_computation : Message → Action (S × Tree) Tree
  apply_child_computation child_msg (s, t) =
      let (r, s') = chain.generate_child_computation child_msg (frame t).origin s in
      elim r [
        | ok child ↦ (ok child, (s', add_child_computation child t))
        | err e ↦ (err e, (s', t))
      ]

  unfoldable pub give_back : ℕ → Action (S × Tree) ⊤
  give_back amount = on_computation (on_gas_meter (return_gas (pos amount)))

  unfoldable pub clear_return_data : Action (S × Tree) ⊤
  clear_return_data = on_computation (modify (λ c. record c { return_data = [] }))

  unfoldable pub copy_output : CallParams → Frame → Action (S × Tree) ⊤
  copy_output p child =
      if should_erase_return_data child
      then pure tt
      else let actual_output_size = min p.memory_output_size (length (output child)) in
        on_computation (
          on_memory (
            write p.memory_output_start_position actual_output_size
              (take actual_output_size (output child))))

  unfoldable pub return_child_gas : Frame → Action (S × Tree) ⊤
  unfolding give_back
  return_child_gas child =
      if should_burn_gas child then pure tt else give_back (get_gas_remaining child)

  -- What a call does with its child's computation.
  unfoldable pub settle_child : CallParams → Tree → Action (S × Tree) ⊤
  unfolding copy_output return_child_gas
  settle_child p child = do
    on_computation (on_stack (push_int (pos (if is_error (frame child) then 0 else 1))))
    copy_output p (frame child)
    return_child_gas (frame child)

  unfoldable pub run_child : CallParams → List ℕ → ℕ → Action (S × Tree) ⊤
  unfolding prepare apply_child_computation settle_child
  run_child p call_data child_msg_gas = do
    child_msg ← prepare p call_data child_msg_gas
    child ← apply_child_computation child_msg
    settle_child p child

  unfoldable pub refuse_call : ℕ → Action (S × Tree) ⊤
  unfolding clear_return_data give_back
  refuse_call child_msg_gas = do
    clear_return_data
    give_back child_msg_gas
    on_computation (on_stack (push_int (pos 0)))

  -- `insufficient_funds or stack_too_deep`
  unfoldable pub must_refuse : CallParams → S × Tree → Bool
  must_refuse p (s, t) =
      let sender_balance = chain.get_balance (storage_address (frame t).msg) s in
      (p.should_transfer_value && ltb sender_balance p.value)
      || ltb stack_depth_limit ((frame t).msg.depth + 1)

  unfoldable pub deliver : CallParams → List ℕ → ℕ → Action (S × Tree) ⊤
  unfolding must_refuse refuse_call run_child
  deliver p call_data child_msg_gas st =
      if must_refuse p st
      then refuse_call child_msg_gas st
      else run_child p call_data child_msg_gas st

  unfoldable pub send : CallClass → CallParams → List ℕ → Action (S × Tree) ⊤
  unfolding compute_msg_gas deliver
  send class p call_data = do
    gas_of_message ← λ st. (compute_msg_gas class p.gas p.to p.value st, st)
    on_computation (on_gas_meter (consume_gas (pos gas_of_message.1)))
    deliver p call_data gas_of_message.0

  unfoldable pub load_account : CallClass → CallParams → List ℕ → ℕ → Action (S × Tree) ⊤
  unfolding send
  load_account class p call_data load_account_fee = do
    if ltb 0 load_account_fee
        then on_computation (on_gas_meter (consume_gas (pos load_account_fee)))
        else pure tt
    send class p call_data

  -- `BaseCall.__call__` after the parameters are popped. The gas cost of these opcodes is zero.
  unfoldable pub call_with : CallClass → CallParams → Action (S × Tree) ⊤
  unfolding get_account_load_fee code_source load_account
  call_with class p = do
    on_computation (extend_memory p.memory_input_start_position p.memory_input_size)
    on_computation (extend_memory p.memory_output_start_position p.memory_output_size)
    call_data ←
        on_computation
          (gets (λ c. read_bytes p.memory_input_start_position p.memory_input_size c.memory))
    load_account_fee ← get_account_load_fee (code_source p)
    load_account class p call_data load_account_fee

  module _ ⦃eth : EthUtils⦄ where
    -- `force_bytes_to_address`, whose result is read as a number of 20 bytes.
    unfoldable pub force_bytes_to_address : List ℕ → Address
    unfolding rjust_last
    force_bytes_to_address value = some (eth.big_endian_to_int (rjust_last 20 value))

    -- The parameters of a message that a value goes with, or that none goes with.
    unfoldable pub with_value :
        ℕ → Address → Option Address → Option Address → List ℕ → Frame → Result CallParams
    unfolding unpack5
    with_value gas to sender code_address items f = elim (unpack5 items) [
      | ok (value, in_start, in_size, out_start, out_size) ↦ ok (record {
        gas = gas;
        value = value;
        to = to;
        sender = sender;
        code_address = code_address;
        memory_input_start_position = in_start;
        memory_input_size = in_size;
        memory_output_start_position = out_start;
        memory_output_size = out_size;
        should_transfer_value = true;
        is_static = f.msg.is_static;
      })
      | err e ↦ err e
    ]

    unfoldable pub without_value :
        ℕ → Address → Option Address → Option Address → Bool → List ℕ → Result CallParams
    unfolding unpack4
    without_value gas to sender code_address is_static items = elim (unpack4 items) [
      | ok (in_start, in_size, out_start, out_size) ↦ ok (record {
        gas = gas;
        value = 0;
        to = to;
        sender = sender;
        code_address = code_address;
        memory_input_start_position = in_start;
        memory_input_size = in_size;
        memory_output_start_position = out_start;
        memory_output_size = out_size;
        should_transfer_value = false;
        is_static = is_static;
      })
      | err e ↦ err e
    ]

    -- The guard of `CallByzantium.get_call_params`.
    unfoldable pub refuse_static_value : Result CallParams → Frame → Result CallParams
    refuse_static_value (err e) f = err e
    refuse_static_value (ok p) f =
        if f.msg.is_static && not (p.value == 0)
        then err (vm_error VmError.write_protection)
        else ok p

    unfoldable pub params_of : CallClass → ℕ → Address → List ℕ → Frame → Result CallParams
    unfolding with_value without_value refuse_static_value storage_address
    params_of CallClass.call gas address items f =
        refuse_static_value (with_value gas address none none items f) f
    params_of CallClass.callcode gas address items f =
        let own = storage_address f.msg in with_value gas own (some own) (some address) items f
    params_of CallClass.delegatecall gas address items f =
        without_value gas (storage_address f.msg) (some f.msg.sender) (some address) f.msg.is_static
          items
    params_of CallClass.staticcall gas address items f =
        without_value gas address none none true items

    unfoldable pub operands : CallClass → ℕ
    operands CallClass.call = 5
    operands CallClass.callcode = 5
    operands _ = 4

    unfoldable pub params_from : CallClass → ℕ → List ℕ → List ℕ → Action (S × Tree) CallParams
    unfolding params_of force_bytes_to_address
    params_from class gas address items st =
        (params_of class gas (force_bytes_to_address address) items (frame st.1), st)

    unfoldable pub pop_rest : CallClass → ℕ → List ℕ → Action (S × Tree) CallParams
    unfolding operands params_from
    pop_rest class gas address = do
      items ← on_computation (on_stack (pop_ints (operands class)))
      params_from class gas address items

    unfoldable pub get_call_params : CallClass → Action (S × Tree) CallParams
    unfolding pop_rest
    get_call_params class = do
      gas ← on_computation (on_stack pop1_int)
      address ← on_computation (on_stack pop1_bytes)
      pop_rest class gas address

    unfoldable pub call_op : CallClass → Step S
    unfolding get_call_params call_with
    call_op class = do params ← get_call_params class; call_with class params
