-- ===== src/Execution/Messages.antt =====
-- veda/vm/forks/veda/computation.py: how a message is applied to the state of the chain. The state
-- of veda/vm/state.py is a parameter with its laws of snapshots.
use veda_bvm.Common.{
  ℕ, ◌*◌, ◌≡◌, Bool, false, Option, none, some, List, [], ◌∷◌, ⊤, ltb, ◌==◌, if◌then◌else◌, length,
}
use veda_bvm.Common.Int.{pos}
use veda_bvm.Computation.{on_gas_meter}
use veda_bvm.Exceptions.{VmError, Result, ok, err, Action, vm_error}
use veda_bvm.Execution.Run.{Step, frame, on_machine, as_vm_error, apply_computation}
use veda_bvm.Execution.{Frame, Tree, tree, is_error, set_error, output}
use veda_bvm.Gas.{consume_gas, out_of_gas}
use veda_bvm.Message.{Message, Address, storage_address}

pub record ChainState (S : Type 0) : Type 1 where
  pub Snapshot : Type 0
  pub snapshot : S → Snapshot × S
  pub revert : Snapshot → Action S ⊤
  pub commit : Snapshot → Action S ⊤
  pub touch_account : Address → Action S ⊤
  pub increment_nonce : Address → Action S ⊤
  pub set_code : Address → List ℕ → Action S ⊤
  -- The snapshot was taken of the first state and can be gone back to in the second.
  pub IsOpen : Snapshot → S → S → Type 0
  -- All accounts are the same.
  pub Same : S → S → Type 0
  pub snapshot-IsOpen : (s : S) → IsOpen (snapshot s).0 s (snapshot s).1
  pub revert-Same :
      (c : Snapshot) (s t : S) → IsOpen c s t → ((revert c t).0 ≡ ok tt) × Same s (revert c t).1
  pub commit_ok : (c : Snapshot) (s t : S) → IsOpen c s t → (commit c t).0 ≡ ok tt
  -- A snapshot stays open under later changes, and when a later one is closed.
  pub later-IsOpen : (c : Snapshot) (s t : S) → IsOpen c s t → IsOpen c s (snapshot t).1
  pub touch_account-IsOpen :
      (c : Snapshot) (s t : S) (a : Address) → IsOpen c s t → IsOpen c s (touch_account a t).1
  pub increment_nonce-IsOpen :
      (c : Snapshot) (s t : S) (a : Address) → IsOpen c s t → IsOpen c s (increment_nonce a t).1
  pub set_code-IsOpen :
      (c : Snapshot) (s t : S) (a : Address) (code : List ℕ)
      → IsOpen c s t
      → IsOpen c s (set_code a code t).1
  pub reverted-IsOpen :
      (c d : Snapshot) (s t u : S) → IsOpen c s t → IsOpen d t u → IsOpen c s (revert d u).1
  pub committed-IsOpen :
      (c d : Snapshot) (s t u : S) → IsOpen c s t → IsOpen d t u → IsOpen c s (commit d u).1

abbrev pub stack_depth_limit : ℕ
stack_depth_limit = 1024

abbrev pub max_initcode_size : ℕ
max_initcode_size = 49152

abbrev pub eip170_code_size_limit : ℕ
eip170_code_size_limit = 24576

abbrev pub eip3541_reserved_starting_byte : ℕ
eip3541_reserved_starting_byte = 239

abbrev pub gas_codedeposit : ℕ
gas_codedeposit = 200

unfoldable pub validate_create_message : Message → Result ⊤
validate_create_message msg =
    if ltb max_initcode_size (length msg.code) then err out_of_gas else ok tt

unfoldable pub starts_reserved : List ℕ → Bool
starts_reserved [] = false
starts_reserved (b ∷ bs) = b == eip3541_reserved_starting_byte

unfoldable pub validate_contract_code : List ℕ → Result ⊤
unfolding starts_reserved
validate_contract_code contract_code =
    if ltb eip170_code_size_limit (length contract_code)
    then err out_of_gas
    else if starts_reserved contract_code
    then err (vm_error VmError.reserved_bytes_in_code)
    else ok tt

-- The `try` block of `apply_create_message`.
unfoldable pub pay_for_code : List ℕ → Action Frame ⊤
unfolding validate_contract_code
pay_for_code contract_code f = elim (validate_contract_code contract_code) [
  | ok _ ↦ on_machine (on_gas_meter (consume_gas (pos (length contract_code * gas_codedeposit)))) f
  | err e ↦ (err e, f)
]

module _ {S : Type 0} (state : ChainState S) where
  -- `state.revert(snapshot)` or `state.commit(snapshot)`, before a computation is returned.
  unfoldable pub reverting : state.Snapshot → Tree → S → Result Tree × S
  reverting snap t s =
      let (r, s') = state.revert snap s in (elim r [ ok _ ↦ ok t | err e ↦ err e ], s')

  unfoldable pub committing : state.Snapshot → Tree → S → Result Tree × S
  committing snap t s =
      let (r, s') = state.commit snap s in (elim r [ ok _ ↦ ok t | err e ↦ err e ], s')

  unfoldable pub close : state.Snapshot → Tree → S → Result Tree × S
  unfolding reverting committing is_error
  close snap t s = if is_error (frame t) then reverting snap t s else committing snap t s

  -- What follows the `try` block: its `else`, or its `except` for an error of the machine.
  unfoldable pub deposit_code : state.Snapshot → Message → List ℕ → Tree → S → Result Tree × S
  unfolding pay_for_code reverting committing as_vm_error set_error
  deposit_code snap msg contract_code (tree f cs) s =
      let (r, paid) = pay_for_code contract_code f in
      elim r [
        | ok _ ↦
            let (stored, s') = state.set_code (storage_address msg) contract_code s in
            elim stored [ ok _ ↦ committing snap (tree paid cs) s' | err e ↦ (err e, s') ]
        | err raised ↦ elim (as_vm_error raised) [
          | none ↦ (err raised, s)
          | some e ↦
              let (set, failed) = set_error e paid in
              elim set [ ok _ ↦ reverting snap (tree failed cs) s | err other ↦ (err other, s) ]
        ]
      ]

  -- What `apply_create_message` does with a computation.
  unfoldable pub create_from : state.Snapshot → Message → Tree → S → Result Tree × S
  unfolding deposit_code output is_error
  create_from snap msg t s =
      if is_error (frame t) then reverting snap t s else elim (output (frame t)) [
        | [] ↦ committing snap t s
        | b ∷ bs ↦ deposit_code snap msg (b ∷ bs) t s
      ]

  module _ (opcodes : ℕ → Option (Step S)) (precompiles : Address → Option (Step S)) where
    unfoldable pub apply_message : ℕ → Message → Address → S → Option (Result Tree × S)
    unfolding apply_computation close storage_address
    apply_message fuel msg origin s =
        let (snap, s1) = state.snapshot s in
        if ltb stack_depth_limit msg.depth
        then some (err (vm_error VmError.stack_depth_limit), s1)
        else let (r, s2) = state.touch_account (storage_address msg) s1 in
          elim r [
            | err e ↦ some (err e, s2)
            | ok _ ↦ elim (apply_computation opcodes precompiles fuel msg origin s2) [
              | none ↦ none
              | some (computation, s3) ↦ elim computation [
                | err e ↦ some (err e, s3)
                | ok t ↦ some (close snap t s3)
              ]
            ]
          ]

    unfoldable pub apply_create_message : ℕ → Message → Address → S → Option (Result Tree × S)
    unfolding apply_message create_from validate_create_message
    apply_create_message fuel msg origin s =
        let (snap, s1) = state.snapshot s in
        let (r, s2) = state.increment_nonce (storage_address msg) s1 in
        elim r [
          | err e ↦ some (err e, s2)
          | ok _ ↦ elim (validate_create_message msg) [
            | err e ↦ some (err e, s2)
            | ok _ ↦ elim (apply_message fuel msg origin s2) [
              | none ↦ none
              | some (computation, s3) ↦ elim computation [
                | err e ↦ some (err e, s3)
                | ok t ↦ some (create_from snap msg t s3)
              ]
            ]
          ]
        ]
