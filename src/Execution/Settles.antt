-- ===== src/Execution/Settles.antt =====
-- What a computation leaves: `__exit__` and the whole of `apply_computation`.
use veda_bvm.Common.{
  ◌+◌, ◌-◌, ◌≤◌, ◌≡◌, refl, sym, ap, ◌∙◌, true, false, true≢false, none, some, [], ⊤, arith,
  Bool-cases, Option-cases, inl, inr,
}
use veda_bvm.Common.Int.{pos}
use veda_bvm.Exceptions.{VmError, Result, ok, err, burns_gas, erases_return_data}
use veda_bvm.Execution.Ends.{InUse}
use veda_bvm.Execution.Run.{frame, as_vm_error, exit, exit_vm_error, burn_gas, erase_return_data}
use veda_bvm.Execution.{
  Frame, Tree, tree, Children, get_gas_used, get_gas_remaining, should_burn_gas,
  should_erase_return_data, output,
}
use veda_bvm.Gas.Account.{consume_gas_lem}
use veda_bvm.Gas.{GasMeter, consume_gas}
use veda_bvm.Message.{Message}

-- The gas of the message is used or left, and an error that burns gas leaves neither gas nor data.
pub record Settled (msg : Message) (f : Frame) : Type 0 where
  same_message : f.msg ≡ msg
  pub gas_adds_up : get_gas_used f + get_gas_remaining f ≡ msg.gas
  burnt :
      should_burn_gas f ≡ true
      → (get_gas_used f ≡ msg.gas)
        × (f.machine.gas_meter.gas_remaining ≡ 0)
        × (output f ≡ [])
        × (f.machine.return_data ≡ [])

-- An error that burns gas erases the data that is returned.
burns-erases : (e : VmError) → burns_gas e ≡ true → erases_return_data e ≡ true
unfolding burns_gas erases_return_data
burns-erases (VmError.revert bs) h = cc
burns-erases VmError.out_of_gas h = refl
burns-erases VmError.insufficient_stack h = refl
burns-erases VmError.full_stack h = refl
burns-erases VmError.invalid_jump_destination h = refl
burns-erases VmError.invalid_instruction h = refl
burns-erases VmError.insufficient_funds h = refl
burns-erases VmError.stack_depth_limit h = refl
burns-erases VmError.contract_creation_collision h = refl
burns-erases VmError.incorrect_contract_creation_address h = refl
burns-erases VmError.write_protection h = refl
burns-erases VmError.out_of_bounds_read h = refl
burns-erases VmError.reserved_bytes_in_code h = refl

-- The computation after its error.
abbrev burnt_frame : VmError → Frame → Frame
burnt_frame e f = record f {
  raised = some e;
  machine = record f.machine {
    gas_meter = record f.machine.gas_meter { gas_remaining = 0 };
    return_data = [];
  };
}

consume_all :
    (m : GasMeter) → consume_gas (pos m.gas_remaining) m ≡ (ok tt, record m { gas_remaining = 0 })
consume_all m = elim (consume_gas_lem m.gas_remaining m) [
  | inl (_, taken) ↦
      let nothing : m.gas_remaining - m.gas_remaining ≡ 0 = omega arith in
      taken ∙ ap (λ n. (ok tt, record m { gas_remaining = n })) nothing
  | inr (less, _) ↦ absurd (omega arith)
]

burn_gas-all :
    (e : VmError) (f : Frame)
    → burns_gas e ≡ true
    → burn_gas e f ≡ (
      ok tt,
      record f {
        machine = record f.machine { gas_meter = record f.machine.gas_meter { gas_remaining = 0 } };
      },
    )
unfolding burn_gas
burn_gas-all e f h =
    rw (burn_gas, h)
      (ap (λ p. (p.0, record f { machine = record f.machine { gas_meter = p.1 } }))
        (consume_all f.machine.gas_meter))

burn_gas-none : (e : VmError) (f : Frame) → burns_gas e ≡ false → burn_gas e f ≡ (ok tt, f)
unfolding burn_gas
burn_gas-none e f h = rw (burn_gas, h) refl

after_burn : VmError → Result ⊤ × Frame → Result ⊤ × Frame
after_burn e p = elim p.0 [ ok _ ↦ (ok tt, erase_return_data e p.1) | err other ↦ (err other, p.1) ]

exit_burns :
    (e : VmError) (f : Frame) → burns_gas e ≡ true → exit_vm_error e f ≡ (ok tt, burnt_frame e f)
unfolding exit_vm_error erase_return_data after_burn
exit_burns e f h =
    ap (after_burn e) (burn_gas-all e (record f { raised = some e }) h) ∙ rw (burns-erases e h) refl

exit_keeps :
    (e : VmError) (f : Frame)
    → burns_gas e ≡ false
    → exit_vm_error e f ≡ (ok tt, erase_return_data e (record f { raised = some e }))
unfolding exit_vm_error after_burn
exit_keeps e f h = ap (after_burn e) (burn_gas-none e (record f { raised = some e }) h)

-- An exception that is no error of the machine goes on; otherwise the computation is settled.
abbrev pub Closed : Message → Result ⊤ → Frame → Type 0
Closed msg (ok _) f = Settled msg f
Closed msg (err e) f = as_vm_error e ≡ none

-- Without an error that burns gas.
unburnt-Settled :
    (msg : Message) (f : Frame)
    → f.msg ≡ msg
    → f.machine.gas_meter.start_gas ≡ msg.gas
    → f.machine.gas_meter.gas_remaining ≤ msg.gas
    → should_burn_gas f ≡ false
    → Settled msg f
unfolding get_gas_used get_gas_remaining
unburnt-Settled msg f same started bounded unburnt = record {
  same_message = same;
  gas_adds_up = rw (get_gas_used, get_gas_remaining, unburnt) (omega (arith, started, bounded));
  burnt = λ b. absurd (true≢false (sym b ∙ unburnt));
}

no_error-unburnt : (f : Frame) → f.raised ≡ none → should_burn_gas f ≡ false
unfolding should_burn_gas
no_error-unburnt f h = rw h refl

burnt-Settled :
    (msg : Message) (e : VmError) (f : Frame) (cs : Children)
    → burns_gas e ≡ true
    → InUse msg (tree f cs)
    → Settled msg (burnt_frame e f)
unfolding should_burn_gas get_gas_used get_gas_remaining output should_erase_return_data
burnt-Settled msg e f cs b h = record {
  same_message = h.same_message;
  gas_adds_up = rw b (omega (arith, h.started));
  burnt = λ _. (rw b h.started, refl, rw (burns-erases e b) refl, refl);
}

kept-Settled :
    (msg : Message) (e : VmError) (f : Frame) (cs : Children)
    → burns_gas e ≡ false
    → InUse msg (tree f cs)
    → Settled msg (erase_return_data e (record f { raised = some e }))
unfolding erase_return_data should_burn_gas
kept-Settled msg e f cs b h = elim (Bool-cases (erases_return_data e)) [
  | inl erased ↦
      rw (erase_return_data, erased) (unburnt-Settled msg _ h.same_message h.started h.bounded b)
  | inr same ↦
      rw (erase_return_data, same) (unburnt-Settled msg _ h.same_message h.started h.bounded b)
]

exit_vm_error-Closed :
    (msg : Message) (e : VmError) (f : Frame) (cs : Children)
    → InUse msg (tree f cs)
    → Closed msg (exit_vm_error e f).0 (exit_vm_error e f).1
exit_vm_error-Closed msg e f cs h = elim (Bool-cases (burns_gas e)) [
  | inl b ↦ rw (exit_burns e f b) (burnt-Settled msg e f cs b h)
  | inr b ↦ rw (exit_keeps e f b) (kept-Settled msg e f cs b h)
]

pub exit-Closed :
    {S : Type 0} (msg : Message) (r : Result ⊤) (s : S) (t : Tree)
    → InUse msg t
    → Closed msg (exit r (s, t)).0 (frame (exit r (s, t)).1.1)
unfolding exit
exit-Closed msg (ok _) s (tree f cs) h =
    unburnt-Settled msg f h.same_message h.started h.bounded (no_error-unburnt f h.no_error)
exit-Closed msg (err raised) s (tree f cs) h = elim (Option-cases (as_vm_error raised)) [
  | inl other ↦ rw (exit, other) other
  | inr (e, is) ↦ rw (exit, is) (exit_vm_error-Closed msg e f cs h)
]
