-- ===== src/Execution/Run.antt =====
-- The run of a computation: `apply_computation` and `__exit__`. The opcodes and the precompiled
-- contracts are those that a class of computations is configured with. They change the state of the
-- chain and the computation. The loop over the opcodes has fuel.
use veda_bvm.Code
use veda_bvm.Code.{CodeStream, next_opcode}
use veda_bvm.Common.{
  ℕ, zero, suc, ◌*◌, ◌/◌, Bool, true, false, ◌&&◌, Option, none, some, [], ⊤, ltb, if◌then◌else◌,
  length,
}
use veda_bvm.Common.Int.{pos}
use veda_bvm.Computation.{Computation, on_gas_meter}
use veda_bvm.Exceptions.{
  VmError, Exception, Result, ok, err, Action, raise, zoom, vm_error, halt, burns_gas,
  erases_return_data,
}
use veda_bvm.Execution.{Frame, Tree, tree, childless}
use veda_bvm.Gas
use veda_bvm.Gas.{GasMeter, consume_gas, RefundStrategy}
use veda_bvm.Message.{Message, Address, same_address, code_address, is_create}
use veda_bvm.Numeric.{ceil32}

-- The state of the chain beside the computation.
abbrev pub Step : Type 0 → Type 0
Step S = Action (S × Tree) ⊤

abbrev pub frame : Tree → Frame
frame (tree f cs) = f

abbrev pub on_frame : {S : Type 0} {A : Type 0} → Action Frame A → Action (S × Tree) A
on_frame m (s, tree f cs) = let (r, f') = m f in (r, (s, tree f' cs))

abbrev pub on_machine : {A : Type 0} → Action Computation A → Action Frame A
on_machine = zoom {C = Frame} (λ f. f.machine) (λ f c. record f { machine = c })

abbrev pub on_computation : {S : Type 0} {A : Type 0} → Action Computation A → Action (S × Tree) A
on_computation m = on_frame (on_machine m)

-- `VedaComputation._configure_gas_meter`
unfoldable pub configure_gas_meter : Message → Result GasMeter
unfolding Gas.new
configure_gas_meter msg = Gas.new (pos msg.gas) RefundStrategy.allow_negative

unfoldable pub new_computation : Message → Address → Result Tree
unfolding configure_gas_meter Code.new
new_computation msg origin = elim (configure_gas_meter msg) [
  | ok meter ↦ ok (
      tree
        (record {
          msg = msg;
          origin = origin;
          machine = record {
            stack = [];
            memory = [];
            gas_meter = meter;
            code = Code.new msg.code;
            return_data = [];
            output = [];
          };
          raised = none;
          accounts_to_delete = [];
          log_entries = [];
        })
        childless)
  | err e ↦ err e
]

-- The first part of `__exit__`, where the error of a computation is set.
unfoldable pub burn_gas : VmError → Action Frame ⊤
burn_gas e f =
    if burns_gas e
    then on_machine (on_gas_meter (consume_gas (pos f.machine.gas_meter.gas_remaining))) f
    else (ok tt, f)

unfoldable pub erase_return_data : VmError → Frame → Frame
erase_return_data e f =
    if erases_return_data e then record f { machine = record f.machine { return_data = [] } } else f

-- `__exit__` after a `VMError`, which it suppresses.
unfoldable pub exit_vm_error : VmError → Action Frame ⊤
unfolding burn_gas erase_return_data
exit_vm_error e f =
    let (r, burnt) = burn_gas e (record f { raised = some e }) in
    elim r [ ok _ ↦ (ok tt, erase_return_data e burnt) | err other ↦ (err other, burnt) ]

-- `isinstance(exc_value, VMError)`
unfoldable pub as_vm_error : Exception → Option VmError
as_vm_error (vm_error e) = some e
as_vm_error _ = none

unfoldable pub exit : {S : Type 0} → Result ⊤ → Action (S × Tree) ⊤
unfolding exit_vm_error as_vm_error
exit (ok _) st = (ok tt, st)
exit (err raised) st = elim (as_vm_error raised) [
  | some e ↦ on_frame (exit_vm_error e) st
  | none ↦ (err raised, st)
]

unfoldable pub invalid_opcode : {S : Type 0} → Step S
invalid_opcode = raise (vm_error VmError.invalid_instruction)

abbrev pub initcode_word_cost : ℕ
initcode_word_cost = 2

unfoldable pub consume_initcode_gas_cost : Action Frame ⊤
unfolding ceil32
consume_initcode_gas_cost f =
    on_machine
      (on_gas_meter (consume_gas (pos (initcode_word_cost * ceil32 (length f.msg.code) / 32)))) f

-- `except Halt`
unfoldable pub is_halt : Exception → Bool
is_halt halt = true
is_halt _ = false

-- Whether the iteration over the code goes on after the opcode that it yields.
unfoldable pub has_more : CodeStream → Bool
has_more s = ltb s.program_counter (length s.raw_code_bytes)

module _ {S : Type 0} (opcodes : ℕ → Option (Step S))
    (precompiles : Address → Option (Step S)) where
  unfoldable pub get_opcode_fn : ℕ → Step S
  unfolding invalid_opcode
  get_opcode_fn opcode = elim (opcodes opcode) [ some fn ↦ fn | none ↦ invalid_opcode ]

  -- `for opcode in computation.code`; `none` where the fuel is out.
  unfoldable pub run_code : ℕ → S × Tree → Option (Result ⊤ × (S × Tree))
  unfolding get_opcode_fn has_more is_halt next_opcode
  run_code zero st = none
  run_code (suc fuel) (s, tree f cs) =
      let (opcode, code) = next_opcode f.machine.code in
      let (r, after) =
        get_opcode_fn opcode
          (s, tree (record f { machine = record f.machine { code = code } }) cs) in
      elim r [
        | ok _ ↦ if has_more f.machine.code then run_code fuel after else some (ok tt, after)
        | err e ↦ if is_halt e then some (ok tt, after) else some (err e, after)
      ]

  unfoldable pub initcode_gas : Step S
  unfolding consume_initcode_gas_cost
  initcode_gas (s, tree f cs) =
      if is_create f.msg && same_address f.msg.sender f.origin
      then on_frame consume_initcode_gas_cost (s, tree f cs)
      else (ok tt, (s, tree f cs))

  -- The body of the `with` block.
  unfoldable pub run_body : ℕ → S × Tree → Option (Result ⊤ × (S × Tree))
  unfolding run_code initcode_gas code_address
  run_body fuel st =
      let (r, paid) = initcode_gas st in
      elim r [
        | ok _ ↦ elim (precompiles (code_address (frame paid.1).msg)) [
          | some precompile ↦ some (precompile paid)
          | none ↦ run_code fuel paid
        ]
        | err e ↦ some (err e, paid)
      ]

  unfoldable pub apply_computation : ℕ → Message → Address → S → Option (Result Tree × S)
  unfolding run_body exit new_computation
  apply_computation fuel msg origin s = elim (new_computation msg origin) [
    | err e ↦ some (err e, s)
    | ok computation ↦ elim (run_body fuel (s, computation)) [
      | none ↦ none
      | some (r, st) ↦
          let (left, (s', computation')) = exit r st in
          some (elim left [ ok _ ↦ ok computation' | err e ↦ err e ], s')
    ]
  ]
