-- ===== src/Nested.antt =====
-- Calls within calls: the child of a call or of a creation is the run of a message, whose opcodes
-- call and create in turn. The opcodes stand in the table of veda/vm/forks/veda/opcodes.py, and
-- `generate_child_computation` in veda/vm/computation.py.
mod Tests
use mathlib.Core.Option.{some-injective}
use veda_bvm.Calls.Child.{Honest}
use veda_bvm.Calls.Spends.{call_op-Spends}
use veda_bvm.Calls.{ChainAccounts, CallClass, call_op}
use veda_bvm.Creates.Spends.{create_op-Spends}
use veda_bvm.Creates.{ChainNonces, CreateClass, create_op}
use veda_bvm.Common.{
  ℕ, zero, suc, ◌≤◌, ◌<◌, ◌≡◌, refl, subst, sym, ap, ◌∙◌, Bool, true, false, Option, none, some, ⊤,
  arith, ◌==◌, if◌then◌else◌, Bool-cases, inl, inr,
}
use veda_bvm.Exceptions.{VmError, Result, ok, err, vm_error, invariant_broken}
use veda_bvm.Execution.Ends.{Spends, Keeps}
use veda_bvm.Execution.Left.{Bounded, Came, apply_message-Came, apply_create_message-Came}
use veda_bvm.Execution.Messages.{ChainState, apply_message, apply_create_message}
use veda_bvm.Execution.Run.{Step, frame}
use veda_bvm.Execution.Whole.{Configured}
use veda_bvm.Execution.{Tree, get_gas_remaining}
use veda_bvm.External.{EthUtils}
use veda_bvm.Message.{Message, Address, is_create}

unfoldable pub class_of : ℕ → Option CallClass
class_of opcode =
    if opcode == 0xf1
    then some CallClass.call
    else if opcode == 0xf2
    then some CallClass.callcode
    else if opcode == 0xf4
    then some CallClass.delegatecall
    else if opcode == 0xfa
    then some CallClass.staticcall
    else none

unfoldable pub create_class_of : ℕ → Option CreateClass
create_class_of opcode =
    if opcode == 0xf0
    then some CreateClass.create
    else if opcode == 0xf5
    then some CreateClass.create2
    else none

-- A result that has come.
abbrev pub or_broken : {S : Type 0} → Option (Result Tree × S) → S → Result Tree × S
or_broken none s = (err invariant_broken, s)
or_broken (some p) s = p

module _ {S : Type 0} (state : ChainState S) (base : ChainAccounts S) (nonces : ChainNonces S)
    (others : ℕ → Option (Step S)) (precompiles : Address → Option (Step S)) ⦃eth : EthUtils⦄ where
  -- The table of opcodes: calls, creations, and others.
  unfoldable pub opcodes_with : ChainAccounts S → ℕ → Option (Step S)
  unfolding class_of create_class_of
  opcodes_with chain opcode = elim (class_of opcode) [
    | some class ↦ some (call_op chain class)
    | none ↦ elim (create_class_of opcode) [
      | some class ↦ some (create_op state chain nonces class)
      | none ↦ others opcode
    ]
  ]

  unfoldable pub run_message : ChainAccounts S → Message → Address → S → Option (Result Tree × S)
  unfolding opcodes_with
  run_message chain msg origin s =
      if is_create msg
      then apply_create_message state (opcodes_with chain) precompiles (suc msg.gas) msg origin s
      else apply_message state (opcodes_with chain) precompiles (suc msg.gas) msg origin s

  -- `generate_child_computation`, to so many levels of calls within calls. Below them a message
  -- ends as one does that is deeper than the limit of the stack.
  unfoldable pub chain_at : ℕ → ChainAccounts S
  unfolding run_message
  chain_at zero = record base {
    generate_child_computation = λ msg origin s. (err (vm_error VmError.stack_depth_limit), s);
  }
  chain_at (suc levels) = record base {
    generate_child_computation =
        λ msg origin s. or_broken (run_message (chain_at levels) msg origin s) s;
  }

  module _ (able : Configured others precompiles) where
    opcodes_with-Spends :
        (chain : ChainAccounts S)
        → Honest chain
        → (k : ℕ) (fn : Step S) → opcodes_with chain k ≡ some fn
        → Spends fn
    unfolding opcodes_with
    opcodes_with-Spends chain honest k fn = go (class_of k) (create_class_of k)
      where
        go :
            (o : Option CallClass) (p : Option CreateClass)
            → (elim o as (λ _. Option (Step S)) [
              | some class ↦ some (call_op chain class)
              | none ↦ elim p as (λ _. Option (Step S)) [
                | some class ↦ some (create_op state chain nonces class)
                | none ↦ others k
              ]
            ])
              ≡ some fn
            → Spends fn
        go none none h = able.each k fn h
        go none (some class) h =
            subst Spends (some-injective _ _ h) (create_op-Spends state chain nonces honest class)
        go (some class) p h =
            subst Spends (some-injective _ _ h) (call_op-Spends chain honest class)

    opcodes_with-Configured :
        (chain : ChainAccounts S) → Honest chain → Configured (opcodes_with chain) precompiles
    opcodes_with-Configured chain honest = record {
      each = opcodes_with-Spends chain honest;
      contracts = able.contracts;
    }

    run_message-Came :
        (chain : ChainAccounts S)
        → Honest chain
        → (msg : Message) (origin : Address) (s : S) → Came msg.gas (run_message chain msg origin s)
    unfolding run_message
    run_message-Came chain honest msg origin s = elim (Bool-cases (is_create msg)) [
      | inl creates ↦
          rw (run_message, creates)
            (apply_create_message-Came state (opcodes_with chain) precompiles
              (opcodes_with-Configured chain honest) (suc msg.gas) msg origin s (omega arith))
      | inr calls ↦
          rw (run_message, calls)
            (apply_message-Came state (opcodes_with chain) precompiles
              (opcodes_with-Configured chain honest) (suc msg.gas) msg origin s (omega arith))
    ]

    chain_at-Honest : (levels : ℕ) → Honest (chain_at levels)
    unfolding chain_at
    chain_at-Honest zero msg origin s child h = cc
    chain_at-Honest (suc levels) msg origin s child h =
        let came = run_message-Came (chain_at levels) (chain_at-Honest levels) msg origin s in
        subst (Bounded msg.gas) (sym (ap (λ o. (or_broken o s).0) came.runs) ∙ h) came.bounded

    -- With calls and creations in the table of opcodes, and other opcodes and precompiled contracts
    -- that take gas and keep the books of it, a message comes to a result, to whatever level calls
    -- and creations are made within one another, and a computation that it comes to has no more gas
    -- left than the message brought.
    pub run_message_lem :
        (levels : ℕ) (msg : Message) (origin : Address) (s : S)
        → Came msg.gas (run_message (chain_at levels) msg origin s)
    run_message_lem levels = run_message-Came (chain_at levels) (chain_at-Honest levels)
