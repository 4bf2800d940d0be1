-- ===== src/Execution/Left.antt =====
-- The gas that a message leaves is no more than it brought.
use veda_bvm.Common.{
  ℕ, ◌≤◌, ◌<◌, ◌≡◌, refl, false, Option, none, some, List, [], ◌∷◌, ⊤, arith, ltb, Bool-cases, inl,
  inr, length, ◌*◌,
}
use veda_bvm.Common.Int.{pos}
use veda_bvm.Computation.{on_gas_meter}
use veda_bvm.Exceptions.{VmError, Exception, Result, ok, err, vm_error}
use veda_bvm.Execution.Ends.{charged}
use veda_bvm.Execution.Messages.{
  ChainState, apply_message, apply_create_message, close, create_from, reverting, committing,
  deposit_code, pay_for_code, stack_depth_limit, validate_create_message, validate_contract_code,
  gas_codedeposit,
}
use veda_bvm.Execution.Run.{Step, frame, as_vm_error, apply_computation, on_machine}
use veda_bvm.Gas.{consume_gas}
use veda_bvm.Execution.Whole.{ResultOf, Configured, apply_computation_lem}
use veda_bvm.Execution.{
  Frame, Tree, tree, Children, is_error, should_burn_gas, get_gas_remaining, set_error, output,
}
use veda_bvm.Message.{Message, Address, storage_address}

abbrev pub Bounded : ℕ → Result Tree → Type 0
Bounded gas (ok t) = get_gas_remaining (frame t) ≤ gas
Bounded gas (err e) = ⊤

get_gas_remaining-le : (f : Frame) → get_gas_remaining f ≤ f.machine.gas_meter.gas_remaining
unfolding get_gas_remaining
get_gas_remaining-le f = ground arith

no_error-remaining :
    (f : Frame) → is_error f ≡ false → get_gas_remaining f ≡ f.machine.gas_meter.gas_remaining
unfolding get_gas_remaining should_burn_gas is_error
no_error-remaining f h = ground arith

ResultOf-Bounded : (msg : Message) (r : Result Tree) → ResultOf msg r → Bounded msg.gas r
ResultOf-Bounded msg (ok t) h = omega (arith, h.gas_adds_up)
ResultOf-Bounded msg (err e) h = tt

module _ {S : Type 0} where
  -- A result that comes, and leaves so much gas at most.
  pub record Came (gas : ℕ) (o : Option (Result Tree × S)) : Type 0 where
    pub result : Result Tree
    pub final : S
    pub runs : o ≡ some (result, final)
    pub bounded : Bounded gas result

  came : (gas : ℕ) (r : Result Tree) (s : S) → Bounded gas r → Came gas (some (r, s))
  came gas r s h = record { result = r; final = s; runs = refl; bounded = h }

module _ {S : Type 0} (state : ChainState S) where
  answered-Bounded :
      (gas : ℕ) (t : Tree) (r : Result ⊤)
      → Bounded gas (ok t)
      → Bounded gas (elim r [ ok _ ↦ ok t | err e ↦ err e ])
  answered-Bounded gas t (ok _) h = h
  answered-Bounded gas t (err e) h = tt

  reverting-Bounded :
      (gas : ℕ) (snap : state.Snapshot) (t : Tree) (s : S)
      → Bounded gas (ok t)
      → Bounded gas (reverting state snap t s).0
  unfolding reverting
  reverting-Bounded gas snap t s h = answered-Bounded gas t (state.revert snap s).0 h

  committing-Bounded :
      (gas : ℕ) (snap : state.Snapshot) (t : Tree) (s : S)
      → Bounded gas (ok t)
      → Bounded gas (committing state snap t s).0
  unfolding committing
  committing-Bounded gas snap t s h = answered-Bounded gas t (state.commit snap s).0 h

  close-Bounded :
      (gas : ℕ) (snap : state.Snapshot) (t : Tree) (s : S)
      → Bounded gas (ok t)
      → Bounded gas (close state snap t s).0
  unfolding close
  close-Bounded gas snap t s h = elim (Bool-cases (is_error (frame t))) [
    | inl failed ↦ rw (close, failed) (reverting-Bounded gas snap t s h)
    | inr fine ↦ rw (close, fine) (committing-Bounded gas snap t s h)
  ]

  pay_for_code-le :
      (code : List ℕ) (f : Frame)
      → (pay_for_code code f).1.machine.gas_meter.gas_remaining ≤ f.machine.gas_meter.gas_remaining
  unfolding pay_for_code
  pay_for_code-le code f = go (validate_contract_code code)
    where
      go :
          (r : Result ⊤)
          → (elim r as (λ _. Result ⊤ × Frame) [
            | ok _ ↦ on_machine (on_gas_meter (consume_gas (pos (length code * gas_codedeposit)))) f
            | err e ↦ (err e, f)
          ]).1.machine.gas_meter.gas_remaining
            ≤ f.machine.gas_meter.gas_remaining
      go (ok _) = (charged (length code * gas_codedeposit) f.machine.gas_meter).1
      go (err e) = omega arith

  set_error-le :
      (e : VmError) (f : Frame)
      → get_gas_remaining (set_error e f).1 ≤ f.machine.gas_meter.gas_remaining
  unfolding set_error
  set_error-le e f = elim (Bool-cases (is_error f)) [
    | inl failed ↦ rw (set_error, failed) (get_gas_remaining-le f)
    | inr fine ↦ rw (set_error, fine) (get_gas_remaining-le (record f { raised = some e }))
  ]

  deposit_code-Bounded :
      (gas : ℕ) (snap : state.Snapshot) (msg : Message) (code : List ℕ) (f : Frame) (cs : Children)
      (s : S)
      → f.machine.gas_meter.gas_remaining ≤ gas
      → Bounded gas (deposit_code state snap msg code (tree f cs) s).0
  unfolding deposit_code
  deposit_code-Bounded gas snap msg code f cs s h =
      go (pay_for_code code f).0 (pay_for_code code f).1 (omega (arith, pay_for_code-le code f))
    where
      stored :
          (r : Result ⊤) (paid : Frame) (s' : S)
          → paid.machine.gas_meter.gas_remaining ≤ gas
          → Bounded gas
              (elim r as (λ _. Result Tree × S) [
                | ok _ ↦ committing state snap (tree paid cs) s'
                | err e ↦ (err e, s')
              ]).0
      stored (ok _) paid s' k =
          committing-Bounded gas snap (tree paid cs) s' (omega (arith, get_gas_remaining-le paid))
      stored (err e) paid s' k = tt

      set :
          (r : Result ⊤) (failed : Frame)
          → get_gas_remaining failed ≤ gas
          → Bounded gas
              (elim r as (λ _. Result Tree × S) [
                | ok _ ↦ reverting state snap (tree failed cs) s
                | err other ↦ (err other, s)
              ]).0
      set (ok _) failed k = reverting-Bounded gas snap (tree failed cs) s k
      set (err e) failed k = tt

      failing :
          (o : Option VmError) (raised : Exception) (paid : Frame)
          → paid.machine.gas_meter.gas_remaining ≤ gas
          → Bounded gas
              (elim o as (λ _. Result Tree × S) [
                | none ↦ (err raised, s)
                | some e ↦ elim (set_error e paid).0 as (λ _. Result Tree × S) [
                  | ok _ ↦ reverting state snap (tree (set_error e paid).1 cs) s
                  | err other ↦ (err other, s)
                ]
              ]).0
      failing none raised paid k = tt
      failing (some e) raised paid k =
          set (set_error e paid).0 (set_error e paid).1 (omega (arith, set_error-le e paid))

      go :
          (r : Result ⊤) (paid : Frame)
          → paid.machine.gas_meter.gas_remaining ≤ gas
          → Bounded gas
              (elim r as (λ _. Result Tree × S) [
                | ok _ ↦
                    let (stored, s') = state.set_code (storage_address msg) code s in
                    elim stored [
                      | ok _ ↦ committing state snap (tree paid cs) s'
                      | err e ↦ (err e, s')
                    ]
                | err raised ↦ elim (as_vm_error raised) [
                  | none ↦ (err raised, s)
                  | some e ↦
                      let (set, failed) = set_error e paid in
                      elim set [
                        | ok _ ↦ reverting state snap (tree failed cs) s
                        | err other ↦ (err other, s)
                      ]
                ]
              ]).0
      go (ok _) paid k =
          stored (state.set_code (storage_address msg) code s).0 paid
            (state.set_code (storage_address msg) code s).1 k
      go (err raised) paid k = failing (as_vm_error raised) raised paid k

  create_from-Bounded :
      (gas : ℕ) (snap : state.Snapshot) (msg : Message) (t : Tree) (s : S)
      → Bounded gas (ok t)
      → Bounded gas (create_from state snap msg t s).0
  unfolding create_from
  create_from-Bounded gas snap msg (tree f cs) s h = elim (Bool-cases (is_error f)) [
    | inl failed ↦ rw (create_from, failed) (reverting-Bounded gas snap (tree f cs) s h)
    | inr fine ↦
        rw (create_from, fine) (of_code (output f) (omega (arith, no_error-remaining f fine)))
  ]
    where
      of_code :
          (code : List ℕ)
          → f.machine.gas_meter.gas_remaining ≤ gas
          → Bounded gas
              (elim code as (λ _. Result Tree × S) [
                | [] ↦ committing state snap (tree f cs) s
                | b ∷ bs ↦ deposit_code state snap msg (b ∷ bs) (tree f cs) s
              ]).0
      of_code [] k = committing-Bounded gas snap (tree f cs) s h
      of_code (b ∷ bs) k = deposit_code-Bounded gas snap msg (b ∷ bs) f cs s k

  module _ (opcodes : ℕ → Option (Step S)) (precompiles : Address → Option (Step S))
      (able : Configured opcodes precompiles) where
    pub apply_message-Came :
        (fuel : ℕ) (msg : Message) (origin : Address) (s : S)
        → msg.gas < fuel
        → Came msg.gas (apply_message state opcodes precompiles fuel msg origin s)
    unfolding apply_message
    apply_message-Came fuel msg origin s lt = elim (Bool-cases (ltb stack_depth_limit msg.depth)) [
      | inl deep ↦
          rw (apply_message, deep)
            (came msg.gas (err (vm_error VmError.stack_depth_limit)) (state.snapshot s).1 tt)
      | inr room ↦
          rw (apply_message, room)
            (touched (state.touch_account a (state.snapshot s).1).0
              (state.touch_account a (state.snapshot s).1).1)
    ]
      where
        a : Address
        a = storage_address msg

        closed :
            (r : Result Tree) (u : S)
            → Bounded msg.gas r
            → Came msg.gas (elim r [
              | err e ↦ some (err e, u)
              | ok t ↦ some (close state (state.snapshot s).0 t u)
            ])
        closed (err e) u h = came msg.gas (err e) u tt
        closed (ok t) u h =
            came msg.gas (close state (state.snapshot s).0 t u).0
              (close state (state.snapshot s).0 t u).1
              (close-Bounded msg.gas (state.snapshot s).0 t u h)

        touched :
            (r : Result ⊤) (s2 : S)
            → Came msg.gas (elim r [
              | err e ↦ some (err e, s2)
              | ok _ ↦ elim (apply_computation opcodes precompiles fuel msg origin s2) [
                | none ↦ none
                | some (computation, s3) ↦ elim computation [
                  | err e ↦ some (err e, s3)
                  | ok t ↦ some (close state (state.snapshot s).0 t s3)
                ]
              ]
            ])
        touched (err e) s2 = came msg.gas (err e) s2 tt
        touched (ok _) s2 =
            let ended = apply_computation_lem opcodes precompiles fuel msg origin s2 able lt in
            rw ended.runs
              (closed ended.result ended.state (ResultOf-Bounded msg ended.result ended.settled))

    pub apply_create_message-Came :
        (fuel : ℕ) (msg : Message) (origin : Address) (s : S)
        → msg.gas < fuel
        → Came msg.gas (apply_create_message state opcodes precompiles fuel msg origin s)
    unfolding apply_create_message
    apply_create_message-Came fuel msg origin s lt =
        counted (state.increment_nonce a (state.snapshot s).1).0
          (state.increment_nonce a (state.snapshot s).1).1
      where
        a : Address
        a = storage_address msg

        snap : state.Snapshot
        snap = (state.snapshot s).0

        created :
            (r : Result Tree) (u : S)
            → Bounded msg.gas r
            → Came msg.gas
                (elim r [ err e ↦ some (err e, u) | ok t ↦ some (create_from state snap msg t u) ])
        created (err e) u h = came msg.gas (err e) u tt
        created (ok t) u h =
            came msg.gas (create_from state snap msg t u).0 (create_from state snap msg t u).1
              (create_from-Bounded msg.gas snap msg t u h)

        checked :
            (r : Result ⊤) (s2 : S)
            → Came msg.gas (elim r [
              | err e ↦ some (err e, s2)
              | ok _ ↦ elim (apply_message state opcodes precompiles fuel msg origin s2) [
                | none ↦ none
                | some (computation, s3) ↦ elim computation [
                  | err e ↦ some (err e, s3)
                  | ok t ↦ some (create_from state snap msg t s3)
                ]
              ]
            ])
        checked (err e) s2 = came msg.gas (err e) s2 tt
        checked (ok _) s2 =
            let applied = apply_message-Came fuel msg origin s2 lt in
            rw applied.runs (created applied.result applied.final applied.bounded)

        counted :
            (r : Result ⊤) (s2 : S)
            → Came msg.gas (elim r [
              | err e ↦ some (err e, s2)
              | ok _ ↦ elim (validate_create_message msg) [
                | err e ↦ some (err e, s2)
                | ok _ ↦ elim (apply_message state opcodes precompiles fuel msg origin s2) [
                  | none ↦ none
                  | some (computation, s3) ↦ elim computation [
                    | err e ↦ some (err e, s3)
                    | ok t ↦ some (create_from state snap msg t s3)
                  ]
                ]
              ]
            ])
        counted (err e) s2 = came msg.gas (err e) s2 tt
        counted (ok _) s2 = checked (validate_create_message msg) s2
