-- ===== src/Execution/Whole.antt =====
-- `apply_computation` from its message to its result.
use veda_bvm.Common.{ℕ, ◌<◌, ◌≡◌, refl, Option, none, some, ⊤, arith, ltb, Bool-cases, inl, inr}
use veda_bvm.Exceptions.{Result, ok, err, validation_error}
use veda_bvm.Execution.Ends.{InUse, Keeps, Spends, Ran, run_body-Ran}
use veda_bvm.Execution.Run.{
  Step, frame, as_vm_error, exit, run_body, apply_computation, new_computation, configure_gas_meter,
}
use veda_bvm.Execution.Settles.{Settled, Closed, exit-Closed}
use veda_bvm.Execution.{Tree}
use veda_bvm.Gas
use veda_bvm.Message.{Message, Address}
use veda_bvm.Numeric.{uint_256_max}

-- A computation whose gas adds up, or an exception that is no error of the machine.
abbrev pub ResultOf : Message → Result Tree → Type 0
ResultOf msg (ok t) = Settled msg (frame t)
ResultOf msg (err e) = as_vm_error e ≡ none

module _ {S : Type 0} where
  pub record Ended (msg : Message) (o : Option (Result Tree × S)) : Type 0 where
    pub result : Result Tree
    pub state : S
    pub runs : o ≡ some (result, state)
    pub settled : ResultOf msg result

  -- Opcodes of which each that does not end the loop takes gas, and contracts that keep the books.
  pub record Configured (opcodes : ℕ → Option (Step S)) (precompiles : Address → Option (Step S))
      : Type 0 where
    pub each : (k : ℕ) (fn : Step S) → opcodes k ≡ some fn → Spends fn
    pub contracts : (a : Address) (fn : Step S) → precompiles a ≡ some fn → Keeps fn

data Fresh (msg : Message) : Result Tree → Type 0 where
  refused : Fresh msg (err validation_error)
  fresh : (t : Tree) → InUse msg t → Fresh msg (ok t)

new_computation-Fresh : (msg : Message) (origin : Address) → Fresh msg (new_computation msg origin)
unfolding new_computation configure_gas_meter Gas.new
new_computation-Fresh msg origin = elim (Bool-cases (ltb uint_256_max msg.gas)) [
  | inl large ↦ rw (new_computation, configure_gas_meter, Gas.new, large) refused
  | inr fits ↦
      rw (new_computation, configure_gas_meter, Gas.new, fits)
        (fresh _
          (record { same_message = refl; started = refl; bounded = omega arith; no_error = refl }))
]

module _ {S : Type 0} (opcodes : ℕ → Option (Step S))
    (precompiles : Address → Option (Step S)) where
  Closed-ResultOf :
      (msg : Message) (left : Result ⊤) (t : Tree)
      → Closed msg left (frame t)
      → ResultOf msg (elim left [ ok _ ↦ ok t | err e ↦ err e ])
  Closed-ResultOf msg (ok _) t c = c
  Closed-ResultOf msg (err e) t c = c

  -- With fuel above the gas of the message, and opcodes and precompiled contracts that keep the
  -- message, the start and the bound of the gas, of which each opcode that does not end the loop
  -- takes gas, every computation ends: with an exception that is no error of the machine, or as a
  -- computation whose used and remaining gas add up to that of the message; if its error burns gas,
  -- all of it is used, and neither output nor return data is left.
  pub apply_computation_lem :
      (fuel : ℕ) (msg : Message) (origin : Address) (s : S)
      → Configured opcodes precompiles
      → msg.gas < fuel
      → Ended msg (apply_computation opcodes precompiles fuel msg origin s)
  unfolding apply_computation
  apply_computation_lem fuel msg origin s able lt =
      started (new_computation msg origin) (new_computation-Fresh msg origin)
    where
      left :
          (o : Option (Result ⊤ × (S × Tree)))
          → Ran msg o
          → Ended msg (elim o [
            | none ↦ none
            | some (r, st) ↦
                some (
                  elim (exit r st).0 [ ok _ ↦ ok (exit r st).1.1 | err e ↦ err e ],
                  (exit r st).1.0,
                )
          ])
      left o ran = rw ran.runs (record {
        result = _;
        state = _;
        runs = refl;
        settled =
            Closed-ResultOf msg _ _ (exit-Closed msg ran.result ran.after.0 ran.after.1 ran.in_use);
      })

      started :
          (c : Result Tree)
          → Fresh msg c
          → Ended msg (elim c [
            | err e ↦ some (err e, s)
            | ok computation ↦ elim (run_body opcodes precompiles fuel (s, computation)) [
              | none ↦ none
              | some (r, st) ↦ some (
                elim (exit r st).0 [ ok _ ↦ ok (exit r st).1.1 | err e ↦ err e ],
                (exit r st).1.0,
              )
            ]
          ])
      started c refused = record {
        result = err validation_error;
        state = s;
        runs = refl;
        settled = refl;
      }
      started c (fresh t h) =
          left (run_body opcodes precompiles fuel (s, t))
            (run_body-Ran opcodes precompiles able.each able.contracts fuel msg s t h lt)
