-- ===== src/Execution/Opens.antt =====
-- A computation keeps the snapshots that are open before it.
use veda_bvm.Code.{next_opcode}
use veda_bvm.Common.{
  ℕ, zero, suc, ◌≡◌, Bool, true, false, Option, none, some, ⊤, if◌then◌else◌, Bool-cases,
  Option-cases, inl, inr, ◌&&◌,
}
use veda_bvm.Exceptions.{Result, ok, err}
use veda_bvm.Execution.Messages.{ChainState}
use veda_bvm.Execution.Run.{
  Step, frame, has_more, is_halt, as_vm_error, exit, get_opcode_fn, invalid_opcode, run_code,
  run_body, initcode_gas, apply_computation, new_computation,
}
use veda_bvm.Execution.{Tree, tree}
use veda_bvm.Message.{Message, Address, is_create, same_address, code_address}

module _ {S : Type 0} (state : ChainState S) where
  -- Of a step: a snapshot that is open before it is open after it.
  abbrev pub KeepsOpen : Step S → Type 0
  KeepsOpen fn =
      (c : state.Snapshot) (s0 s : S) (t : Tree)
      → state.IsOpen c s0 s
      → state.IsOpen c s0 (fn (s, t)).1.0

  module _ (c : state.Snapshot) (s0 : S) where
    abbrev StillOpen : {R : Type 0} → Option (R × (S × Tree)) → Type 0
    StillOpen none = ⊤
    StillOpen (some (r, (s, t))) = state.IsOpen c s0 s

    abbrev pub Left : {R : Type 0} → Option (R × S) → Type 0
    Left none = ⊤
    Left (some (r, s)) = state.IsOpen c s0 s

    exit-IsOpen :
        (r : Result ⊤) (s : S) (t : Tree)
        → state.IsOpen c s0 s
        → state.IsOpen c s0 (exit r (s, t)).1.0
    unfolding exit
    exit-IsOpen (ok _) s (tree f cs) h = h
    exit-IsOpen (err raised) s (tree f cs) h = elim (Option-cases (as_vm_error raised)) [
      | inl other ↦ rw (exit, other) h
      | inr (e, is) ↦ rw (exit, is) h
    ]

    module _ (opcodes : ℕ → Option (Step S)) (precompiles : Address → Option (Step S))
        (each : (k : ℕ) (fn : Step S) → opcodes k ≡ some fn → KeepsOpen fn)
        (contracts : (a : Address) (fn : Step S) → precompiles a ≡ some fn → KeepsOpen fn) where
      get_opcode_fn-KeepsOpen : (k : ℕ) → KeepsOpen (get_opcode_fn opcodes precompiles k)
      unfolding get_opcode_fn invalid_opcode
      get_opcode_fn-KeepsOpen k = elim (Option-cases (opcodes k)) [
        | inl missing ↦ rw (get_opcode_fn, missing) (λ c s0 s t h. h)
        | inr (fn, found) ↦ rw (get_opcode_fn, found) (each k fn found)
      ]

      round-StillOpen :
          (r : Result ⊤) (after : S × Tree) (more : Bool) (rest : Option (Result ⊤ × (S × Tree)))
          → state.IsOpen c s0 after.0
          → StillOpen rest
          → StillOpen (elim r [
            | ok _ ↦ if more then rest else some (ok tt, after)
            | err e ↦ if is_halt e then some (ok tt, after) else some (err e, after)
          ])
      round-StillOpen (ok _) after true rest h k = k
      round-StillOpen (ok _) after false rest h k = h
      round-StillOpen (err e) after more rest h k = elim (Bool-cases (is_halt e)) [
        | inl halted ↦ rw halted h
        | inr other ↦ rw other h
      ]

      run_code-StillOpen :
          (fuel : ℕ) (s : S) (t : Tree)
          → state.IsOpen c s0 s
          → StillOpen (run_code opcodes precompiles fuel (s, t))
      unfolding run_code
      run_code-StillOpen zero s t h = tt
      run_code-StillOpen (suc fuel) s (tree f cs) h =
          let opcode = (next_opcode f.machine.code).0 in
          let code = (next_opcode f.machine.code).1 in
          let at = tree (record f { machine = record f.machine { code = code } }) cs in
          let fn = get_opcode_fn opcodes precompiles opcode in
          let kept = get_opcode_fn-KeepsOpen opcode c s0 s at h in
          let after = (fn (s, at)).1 in
          round-StillOpen (fn (s, at)).0 after (has_more f.machine.code)
            (run_code opcodes precompiles fuel after) kept
            (run_code-StillOpen fuel after.0 after.1 kept)

      initcode_gas-IsOpen :
          (s : S) (t : Tree)
          → state.IsOpen c s0 s
          → state.IsOpen c s0 (initcode_gas opcodes precompiles (s, t)).1.0
      unfolding initcode_gas
      initcode_gas-IsOpen s (tree f cs) h =
          elim (Bool-cases (is_create f.msg && same_address f.msg.sender f.origin)) [
            | inl pays ↦ rw (initcode_gas, pays) h
            | inr free ↦ rw (initcode_gas, free) h
          ]

      run_body-StillOpen :
          (fuel : ℕ) (s : S) (t : Tree)
          → state.IsOpen c s0 s
          → StillOpen (run_body opcodes precompiles fuel (s, t))
      unfolding run_body
      run_body-StillOpen fuel s t h =
          paid (initcode_gas opcodes precompiles (s, t)) (initcode_gas-IsOpen s t h)
        where
          paid :
              (p : Result ⊤ × (S × Tree))
              → state.IsOpen c s0 p.1.0
              → StillOpen (elim p.0 [
                | ok _ ↦ elim (precompiles (code_address (frame p.1.1).msg)) [
                  | some precompile ↦ some (precompile p.1)
                  | none ↦ run_code opcodes precompiles fuel p.1
                ]
                | err e ↦ some (err e, p.1)
              ])
          paid (err e, st) k = k
          paid (ok _, (s2, t2)) k =
              elim (Option-cases (precompiles (code_address (frame t2).msg))) [
                | inl none_there ↦ rw none_there (run_code-StillOpen fuel s2 t2 k)
                | inr (fn, found) ↦
                    rw found (contracts (code_address (frame t2).msg) fn found c s0 s2 t2 k)
              ]

      pub apply_computation-Left :
          (fuel : ℕ) (msg : Message) (origin : Address) (s : S)
          → state.IsOpen c s0 s
          → Left (apply_computation opcodes precompiles fuel msg origin s)
      unfolding apply_computation
      apply_computation-Left fuel msg origin s h = started (new_computation msg origin)
        where
          left :
              (o : Option (Result ⊤ × (S × Tree)))
              → StillOpen o
              → Left (elim o [
                | none ↦ none
                | some (r, st) ↦ some (
                  elim (exit r st).0 [ ok _ ↦ ok (exit r st).1.1 | err e ↦ err e ],
                  (exit r st).1.0,
                )
              ])
          left none k = tt
          left (some (r, (s2, t2))) k = exit-IsOpen r s2 t2 k

          started :
              (n : Result Tree)
              → Left (elim n [
                | err e ↦ some (err e, s)
                | ok computation ↦ elim (run_body opcodes precompiles fuel (s, computation)) [
                  | none ↦ none
                  | some (r, st) ↦ some (
                    elim (exit r st).0 [ ok _ ↦ ok (exit r st).1.1 | err e ↦ err e ],
                    (exit r st).1.0,
                  )
                ]
              ])
          started (err e) = h
          started (ok t) =
              left (run_body opcodes precompiles fuel (s, t)) (run_body-StillOpen fuel s t h)
