-- ===== src/Creates/Spends.antt =====
-- Creating a contract takes gas.
use veda_bvm.Calls.Child.{Honest, clear_return_data-Within, apply_child-Within, apply_child-ok}
use veda_bvm.Calls.{
  ChainAccounts, max_child_gas_eip150, apply_child_computation, give_back, clear_return_data,
}
use veda_bvm.Common.{ℕ, ◌≤◌, ◌<◌, ◌≡◌, refl, subst, inl, inr, List, ⊤, arith, Bool-cases}
use veda_bvm.Common.Int.{pos}
use veda_bvm.Computation.{on_stack, extend_memory}
use veda_bvm.Creates.{
  ChainNonces, CreateClass, CreateOpcodeStackData, get_gas_cost, create_operands, stack_data_of,
  generate_contract_address, fail_creation, settle_create, close_create2, prepare_storage,
  apply_create, prepare_create, start_create, launch, fund, create_contract, cannot_create,
  try_create, create_with, get_stack_data, run_create, create_op, on_state, address_bytes,
}
use veda_bvm.Exceptions.{Result, ok, err, Action, ◌>>=◌, ◌>>◌, lift}
use veda_bvm.Execution.Ends.{Spends}
use veda_bvm.Execution.Messages.{ChainState}
use veda_bvm.Execution.Run.{frame, on_computation}
use veda_bvm.Execution.Within.{
  Grown, Within, Strict, bind-Within, known-Within, then-Within, then-Strict, on_stack-Within,
  lift-Within, weaken-Within, extend_memory-Within, return_gas-Within, pay-Within, pay-Strict,
  Strict-Spends,
}
use veda_bvm.Execution.{Tree, is_error, get_gas_remaining, prepare_child_message}
use veda_bvm.External.{EthUtils}
use veda_bvm.Memory.{read_bytes}
use veda_bvm.Message.{Message, Address, storage_address, new_message}
use veda_bvm.Stack.{Stack, push_int, push_bytes, pop_ints}

unchanged : (t : Tree) → Grown 0 t t
unchanged t = record {
  same_message = refl;
  same_error = refl;
  same_start = refl;
  bounded = omega arith;
}

on_state-Within : {S A : Type 0} (m : Action S A) → Within 0 (on_state m)
on_state-Within m s t = unchanged t

module _ {S : Type 0} (state : ChainState S) (chain : ChainAccounts S) (nonces : ChainNonces S)
    (honest : Honest chain) where
  fail_creation-Within : Within 0 (fail_creation state chain nonces)
  unfolding fail_creation
  fail_creation-Within =
      then-Within (on_computation (on_stack (push_int (pos 0)))) (λ _. clear_return_data chain)
        (on_stack-Within (push_int (pos 0))) (λ _. clear_return_data-Within chain)

  generate-Within :
      (class : CreateClass) (d : CreateOpcodeStackData) (call_data : List ℕ)
      → Within 0 (generate_contract_address state chain nonces class d call_data)
  unfolding generate_contract_address
  generate-Within class d call_data s t =
      go (state.increment_nonce (storage_address (frame t).msg) s).0
        (chain.mark_address_warm _ (state.increment_nonce (storage_address (frame t).msg) s).1)
        (state.increment_nonce (storage_address (frame t).msg) s).1 _
    where
      go :
          (r : Result ⊤) (u v : S) (a : Address)
          → Grown 0 t
              (elim r as (λ _. Result Address × (S × Tree)) [
                | ok _ ↦ (ok a, (u, t))
                | err e ↦ (err e, (v, t))
              ]).1.1
      go (ok _) u v a = unchanged t
      go (err e) u v a = unchanged t

  settle_create-Within :
      (n : ℕ) (child_msg : Message) (child : Tree)
      → get_gas_remaining (frame child) ≤ n
      → Within n (settle_create state chain nonces child_msg child)
  unfolding settle_create give_back
  settle_create-Within n child_msg child le = elim (Bool-cases (is_error (frame child))) [
    | inl failed ↦ rw (settle_create, failed) (answer (push_int (pos 0)))
    | inr fine ↦
        rw (settle_create, fine) (answer (push_bytes (address_bytes (storage_address child_msg))))
  ]
    where
      answer :
          (push : Action Stack ⊤)
          → Within n
              (on_computation (on_stack push) >> give_back chain (get_gas_remaining (frame child)))
      answer push =
          bind-Within (on_computation (on_stack push))
            (λ _. give_back chain (get_gas_remaining (frame child))) {j = 0}
            {k = get_gas_remaining (frame child)} (omega arith) (on_stack-Within push)
            (λ _. return_gas-Within (get_gas_remaining (frame child)))

  close_create2-Within :
      (snap : state.Snapshot) (child : Tree)
      → Within 0 (close_create2 state chain nonces snap child)
  unfolding close_create2
  close_create2-Within snap child = elim (Bool-cases (is_error (frame child))) [
    | inl failed ↦ rw (close_create2, failed) (on_state-Within (state.revert snap))
    | inr fine ↦ rw (close_create2, fine) (on_state-Within (state.commit snap))
  ]

  prepare_storage-Within : (msg : Message) → Within 0 (prepare_storage state chain nonces msg)
  unfolding prepare_storage
  prepare_storage-Within msg s t = unchanged t

  -- What a child may leave is bounded by its message.
  child-le :
      (msg : Message) (s : S) (t child : Tree)
      → (apply_child_computation chain msg (s, t)).0 ≡ ok child
      → get_gas_remaining (frame child) ≤ msg.gas
  child-le msg s t child ran =
      honest msg (frame t).origin s child (apply_child-ok chain msg s t child ran)

  apply_create-Within :
      (class : CreateClass) (msg : Message)
      → Within msg.gas (apply_create state chain nonces class msg)
  unfolding apply_create
  apply_create-Within CreateClass.create msg =
      known-Within (apply_child_computation chain msg) (settle_create state chain nonces msg)
        {j = 0} {k = msg.gas} (omega arith) (apply_child-Within chain msg)
        (λ s t child ran. settle_create-Within msg.gas msg child (child-le msg s t child ran))
  apply_create-Within CreateClass.create2 msg =
      let settled = λ (snap : state.Snapshot) (child : Tree).
        close_create2 state chain nonces snap child >> settle_create state chain nonces msg child in
      bind-Within (prepare_storage state chain nonces msg)
        (λ snap. apply_child_computation chain msg >>= settled snap) {j = 0} {k = msg.gas}
        (omega arith) (prepare_storage-Within msg)
        (λ snap.
          known-Within (apply_child_computation chain msg) (settled snap) {j = 0} {k = msg.gas}
            (omega arith) (apply_child-Within chain msg)
            (λ s t child ran.
              bind-Within (close_create2 state chain nonces snap child)
                (λ _. settle_create state chain nonces msg child) {j = 0} {k = msg.gas}
                (omega arith) (close_create2-Within snap child)
                (λ _. settle_create-Within msg.gas msg child (child-le msg s t child ran))))

  prepare_create-gas :
      (call_data : List ℕ) (n : ℕ) (a : Address) (s : S) (t : Tree) (msg : Message)
      → (prepare_create state chain nonces call_data n a (s, t)).0 ≡ ok msg
      → msg.gas ≡ n
  unfolding prepare_create prepare_child_message new_message
  prepare_create-gas call_data n a s t msg h = ground arith

  prepare_create-Within :
      (call_data : List ℕ) (n : ℕ) (a : Address)
      → Within 0 (prepare_create state chain nonces call_data n a)
  unfolding prepare_create
  prepare_create-Within call_data n a s t = unchanged t

  start_create-Within :
      (class : CreateClass) (call_data : List ℕ) (n : ℕ) (a : Address)
      → Within n (start_create state chain nonces class call_data n a)
  unfolding start_create
  start_create-Within class call_data n a s t = elim (Bool-cases (nonces.has_code_or_nonce a s)) [
    | inl collision ↦
        rw collision
          (weaken-Within (fail_creation state chain nonces) (omega arith) fail_creation-Within s t)
    | inr free ↦ rw free (
        known-Within (prepare_create state chain nonces call_data n a)
          (apply_create state chain nonces class) {j = 0} {k = n} (omega arith)
          (prepare_create-Within call_data n a)
          (λ u v msg prepared.
            subst (λ k. Within k (apply_create state chain nonces class msg))
              (prepare_create-gas call_data n a u v msg prepared) (apply_create-Within class msg))
          s t)
  ]

  launch-Within :
      (class : CreateClass) (d : CreateOpcodeStackData) (call_data : List ℕ) (n : ℕ)
      → Within n (launch state chain nonces class d call_data n)
  unfolding launch
  launch-Within class d call_data n =
      bind-Within (generate_contract_address state chain nonces class d call_data)
        (start_create state chain nonces class call_data n) {j = 0} {k = n} (omega arith)
        (generate-Within class d call_data) (start_create-Within class call_data n)

  create_contract-Within :
      (class : CreateClass) (d : CreateOpcodeStackData)
      → Within 0 (create_contract state chain nonces class d)
  unfolding create_contract fund
  create_contract-Within class d s t =
      let gas = max_child_gas_eip150 (frame t).machine.gas_meter.gas_remaining in
      let call_data = read_bytes d.memory_start d.memory_length (frame t).machine.memory in
      pay-Within gas gas (launch state chain nonces class d call_data gas) (omega arith)
        (launch-Within class d call_data gas) s t

  try_create-Within :
      (class : CreateClass) (d : CreateOpcodeStackData)
      → Within 0 (try_create state chain nonces class d)
  unfolding try_create
  try_create-Within class d s t = elim (Bool-cases (cannot_create state chain nonces d (s, t))) [
    | inl refused ↦ rw refused (fail_creation-Within s t)
    | inr able ↦ rw able (create_contract-Within class d s t)
  ]

  get_gas_cost-pos : (class : CreateClass) (d : CreateOpcodeStackData) → 0 < get_gas_cost class d
  unfolding get_gas_cost
  get_gas_cost-pos CreateClass.create d = omega arith
  get_gas_cost-pos CreateClass.create2 d = omega arith

  create_with-Strict :
      (class : CreateClass) (d : CreateOpcodeStackData)
      → Strict (create_with state chain nonces class d)
  unfolding create_with
  create_with-Strict class d =
      let extending : Action (S × Tree) ⊤ =
        on_computation (extend_memory d.memory_start d.memory_length) in
      pay-Strict (get_gas_cost class d) 0 (extending >> try_create state chain nonces class d)
        (get_gas_cost-pos class d)
        (then-Within extending (λ _. try_create state chain nonces class d)
          (extend_memory-Within d.memory_start d.memory_length) (λ _. try_create-Within class d))

  module _ ⦃eth : EthUtils⦄ where
    get_stack_data-Within :
        (class : CreateClass) → Within 0 (get_stack_data state chain nonces class)
    unfolding get_stack_data
    get_stack_data-Within class =
        then-Within (on_computation (on_stack (pop_ints (create_operands class))))
          (λ items. lift (stack_data_of class items))
          (on_stack-Within (pop_ints (create_operands class)))
          (λ items. lift-Within (stack_data_of class items))

    run_create-Strict : (class : CreateClass) → Strict (run_create state chain nonces class)
    unfolding run_create
    run_create-Strict class =
        then-Strict (get_stack_data state chain nonces class) (create_with state chain nonces class)
          (get_stack_data-Within class) (create_with-Strict class)

    create_op-Strict : (class : CreateClass) → Strict (create_op state chain nonces class)
    unfolding create_op
    create_op-Strict CreateClass.create = run_create-Strict CreateClass.create
    create_op-Strict CreateClass.create2 = record {
      within = λ s t. elim (Bool-cases (frame t).msg.is_static) [
        | inl static ↦ rw static (unchanged t)
        | inr free ↦ rw free ((run_create-Strict CreateClass.create2).within s t)
      ];
      less = λ s t a. elim (Bool-cases (frame t).msg.is_static) [
        | inl static ↦ rw static (λ h. cc)
        | inr free ↦ rw free ((run_create-Strict CreateClass.create2).less s t a)
      ];
    }

    -- Both opcodes that create a contract take gas when they return.
    pub create_op-Spends : (class : CreateClass) → Spends (create_op state chain nonces class)
    create_op-Spends class =
        Strict-Spends (create_op state chain nonces class) (create_op-Strict class)
