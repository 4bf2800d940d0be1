-- ===== src/Execution/Ends.antt =====
-- Every computation ends, and its gas adds up.
use veda_bvm.Code.{next_opcode}
use veda_bvm.Common.{
  ℕ, zero, suc, ◌≤◌, ◌<◌, ◌≡◌, refl, ◌∙◌, Bool, true, false, Option, none, some, ⊤, arith,
  if◌then◌else◌, Bool-cases, Option-cases, inl, inr, ◌&&◌, ◌*◌, ◌/◌, length,
}
use veda_bvm.Common.Int.{pos}
use veda_bvm.Exceptions.{Result, ok, err}
use veda_bvm.Execution.Run.{
  Step, frame, is_halt, has_more, get_opcode_fn, invalid_opcode, run_code, run_body, initcode_gas,
  consume_initcode_gas_cost, initcode_word_cost,
}
use veda_bvm.Execution.{Tree, tree}
use veda_bvm.Gas.Account.{consume_gas_lem}
use veda_bvm.Gas.{GasMeter, consume_gas}
use veda_bvm.Message.{Message, Address, code_address, is_create, same_address}
use veda_bvm.Numeric.{ceil32}

abbrev pub remaining : Tree → ℕ
remaining t = (frame t).machine.gas_meter.gas_remaining

-- A computation of a message before its end.
pub record InUse (msg : Message) (t : Tree) : Type 0 where
  pub same_message : (frame t).msg ≡ msg
  pub started : (frame t).machine.gas_meter.start_gas ≡ msg.gas
  pub bounded : remaining t ≤ msg.gas
  pub no_error : (frame t).raised ≡ none

-- Taking gas, or failing to.
pub charged :
    (n : ℕ) (m : GasMeter)
    → ((consume_gas (pos n) m).1.start_gas ≡ m.start_gas)
      × ((consume_gas (pos n) m).1.gas_remaining ≤ m.gas_remaining)
charged n m = elim (consume_gas_lem n m) [
  | inl (_, taken) ↦ rw taken (refl, omega arith)
  | inr (_, refused) ↦ rw refused (refl, omega arith)
]

module _ {S : Type 0} where
  -- What a precompiled contract may do to a computation.
  abbrev pub Keeps : Step S → Type 0
  Keeps fn = (msg : Message) (s : S) (t : Tree) → InUse msg t → InUse msg (fn (s, t)).1.1

  -- An opcode that does not end the loop takes gas.
  pub record Spends (fn : Step S) : Type 0 where
    pub keeps : Keeps fn
    pub spends :
        (s : S) (t : Tree) → (fn (s, t)).0 ≡ ok tt → remaining (fn (s, t)).1.1 < remaining t

  pub record Ran (msg : Message) (o : Option (Result ⊤ × (S × Tree))) : Type 0 where
    pub result : Result ⊤
    pub after : S × Tree
    pub runs : o ≡ some (result, after)
    pub in_use : InUse msg after.1

  invalid_opcode-Spends : Spends invalid_opcode
  unfolding invalid_opcode
  invalid_opcode-Spends = record { keeps = λ msg s t h. h; spends = λ s t h. cc }

  module _ (opcodes : ℕ → Option (Step S)) (precompiles : Address → Option (Step S))
      (each : (k : ℕ) (fn : Step S) → opcodes k ≡ some fn → Spends fn) where
    get_opcode_fn-Spends : (k : ℕ) → Spends (get_opcode_fn opcodes precompiles k)
    unfolding get_opcode_fn
    get_opcode_fn-Spends k = elim (Option-cases (opcodes k)) [
      | inl missing ↦ rw (get_opcode_fn, missing) invalid_opcode-Spends
      | inr (fn, found) ↦ rw (get_opcode_fn, found) (each k fn found)
    ]

    round_ends :
        (msg : Message) (r : Result ⊤) (after : S × Tree) (more : Bool)
        (rest : Option (Result ⊤ × (S × Tree)))
        → InUse msg after.1
        → (r ≡ ok tt → Ran msg rest)
        → Ran msg (elim r [
          | ok _ ↦ if more then rest else some (ok tt, after)
          | err e ↦ if is_halt e then some (ok tt, after) else some (err e, after)
        ])
    round_ends msg (ok _) after true rest h k = k refl
    round_ends msg (ok _) after false rest h k = record {
      result = ok tt;
      after = after;
      runs = refl;
      in_use = h;
    }
    round_ends msg (err e) after more rest h k = elim (Bool-cases (is_halt e)) [
      | inl halted ↦ rw halted (record { result = ok tt; after = after; runs = refl; in_use = h })
      | inr other ↦ rw other (record { result = err e; after = after; runs = refl; in_use = h })
    ]

    run_code-Ran :
        (fuel : ℕ) (msg : Message) (s : S) (t : Tree)
        → InUse msg t
        → remaining t < fuel
        → Ran msg (run_code opcodes precompiles fuel (s, t))
    unfolding run_code
    run_code-Ran zero msg s t h lt = absurd (omega arith)
    run_code-Ran (suc fuel) msg s (tree f cs) h lt =
        let opcode = (next_opcode f.machine.code).0 in
        let code = (next_opcode f.machine.code).1 in
        let at = tree (record f { machine = record f.machine { code = code } }) cs in
        let fn = get_opcode_fn opcodes precompiles opcode in
        let able = get_opcode_fn-Spends opcode in
        let ready : InUse msg at = record {
          same_message = h.same_message;
          started = h.started;
          bounded = h.bounded;
          no_error = h.no_error;
        } in
        let kept = able.keeps msg s at ready in
        let after = (fn (s, at)).1 in
        round_ends msg (fn (s, at)).0 after (has_more f.machine.code)
          (run_code opcodes precompiles fuel after) kept
          (λ fine.
            run_code-Ran fuel msg after.0 after.1 kept (omega (arith, able.spends s at fine, lt)))

    initcode_gas-InUse : Keeps (initcode_gas opcodes precompiles)
    unfolding initcode_gas consume_initcode_gas_cost
    initcode_gas-InUse msg s (tree f cs) h =
        elim (Bool-cases (is_create f.msg && same_address f.msg.sender f.origin)) [
          | inl pays ↦
              let (same, less) =
                charged (initcode_word_cost * ceil32 (length f.msg.code) / 32)
                  f.machine.gas_meter in
              rw (initcode_gas, pays)
                (record {
                  same_message = h.same_message;
                  started = same ∙ h.started;
                  bounded = omega (arith, less, h.bounded);
                  no_error = h.no_error;
                })
          | inr free ↦ rw (initcode_gas, free) h
        ]

    module _ (contracts : (a : Address) (fn : Step S) → precompiles a ≡ some fn → Keeps fn) where
      pub run_body-Ran :
          (fuel : ℕ) (msg : Message) (s : S) (t : Tree)
          → InUse msg t
          → msg.gas < fuel
          → Ran msg (run_body opcodes precompiles fuel (s, t))
      unfolding run_body
      run_body-Ran fuel msg s t h lt =
          paid (initcode_gas opcodes precompiles (s, t)) (initcode_gas-InUse msg s t h)
        where
          paid :
              (p : Result ⊤ × (S × Tree))
              → InUse msg p.1.1
              → Ran msg (elim p.0 [
                | ok _ ↦ elim (precompiles (code_address (frame p.1.1).msg)) [
                  | some precompile ↦ some (precompile p.1)
                  | none ↦ run_code opcodes precompiles fuel p.1
                ]
                | err e ↦ some (err e, p.1)
              ])
          paid (err e, st) k = record { result = err e; after = st; runs = refl; in_use = k }
          paid (ok _, (s2, t2)) k =
              elim (Option-cases (precompiles (code_address (frame t2).msg))) [
                | inl none_there ↦
                    rw none_there (run_code-Ran fuel msg s2 t2 k (omega (arith, k.bounded, lt)))
                | inr (fn, found) ↦ rw found (record {
                  result = (fn (s2, t2)).0;
                  after = (fn (s2, t2)).1;
                  runs = refl;
                  in_use = contracts (code_address (frame t2).msg) fn found msg s2 t2 k;
                })
              ]
