-- ===== src/Logic/Jumps.antt =====
-- Where a jump lands.
use veda_bvm.Code.{CodeStream, peek, is_valid_opcode, jumpdest_value, stop_value}
use veda_bvm.Code.Scan.{is_instruction}
use veda_bvm.Code.Valid.{IsRight, is_valid_opcode_lem}
use veda_bvm.Common.{
  ℕ, ◌≡◌, refl, sym, ap, subst, ◌∙◌, Bool, true, false, not, List, ◌∷◌, some, ⊤, arith, ◌==◌,
  if◌then◌else◌, length, get_or, Bool-cases, inl, inr, ltb,
}
use veda_bvm.Computation.{Computation, on_code}
use veda_bvm.Exceptions.{Result, ok, err, bind_ok, VmError, vm_error}
use veda_bvm.External.{EthUtils}
use veda_bvm.Logic.Flow.{jump, land, check_target, raise_unless_valid, is_valid_target, answered}
use veda_bvm.Logic.Laws.{get_or_past}
use veda_bvm.Stack.{Item, Stack, pop1_int, to_int}

-- What a jump to a position of the code raises or returns.
pub verdict : List ℕ → ℕ → Result ⊤
verdict code d =
    if get_or code d stop_value == jumpdest_value
    then if is_instruction code d then ok tt else err (vm_error VmError.invalid_instruction)
    else err (vm_error VmError.invalid_jump_destination)

-- The counter stands at the target, and nothing else that counts has changed.
pub record Lands (code : List ℕ) (d : ℕ) (c c' : Computation) : Type 0 where
  pub counter : c'.code.program_counter ≡ d
  pub right : IsRight code c'.code
  pub same_stack : c'.stack ≡ c.stack
  pub same_memory : c'.memory ≡ c.memory
  pub same_gas : c'.gas_meter ≡ c.gas_meter

peek_lem : (s : CodeStream) → peek s ≡ get_or s.raw_code_bytes s.program_counter stop_value
unfolding peek
peek_lem s = elim (Bool-cases (ltb s.program_counter (length s.raw_code_bytes))) [
  | inl within ↦ rw within refl
  | inr past ↦ rw past (sym (get_or_past s.raw_code_bytes s.program_counter 0 (ground arith)))
]

if_not :
    (b : Bool)
    → (if not b then err (vm_error VmError.invalid_instruction) else ok tt)
      ≡ (if b then ok tt else err (vm_error VmError.invalid_instruction))
if_not true = refl
if_not false = refl

module _ (d : ℕ) (c : Computation) where
  moved : CodeStream
  moved = record c.code { program_counter = d }

  land_elsewhere :
      peek moved == jumpdest_value ≡ false
      → land d c ≡ (err (vm_error VmError.invalid_jump_destination), record c { code = moved })
  unfolding land moved
  land_elsewhere h = rw h refl

  land_at :
      peek moved == jumpdest_value ≡ true → land d c ≡ check_target d (record c { code = moved })
  unfolding land moved
  land_at h = rw h refl

  check_target_lem :
      {b : Bool} {t : CodeStream}
      → is_valid_opcode d c.code ≡ some (b, t)
      → check_target d c ≡ (
        if not b then err (vm_error VmError.invalid_instruction) else ok tt,
        record c { code = t },
      )
  unfolding check_target raise_unless_valid is_valid_target answered
  check_target_lem e =
      bind_ok (on_code (is_valid_target d)) raise_unless_valid
        (ap (λ p. ((answered p c.code).0, record c { code = (answered p c.code).1 })) e)

-- A jump to a target returns, raises InvalidInstruction or raises InvalidJumpDestination.
pub land_lem :
    (code : List ℕ) (d : ℕ) (c : Computation)
    → IsRight code c.code
    → ((land d c).0 ≡ verdict code d) × Lands code d c (land d c).1
unfolding verdict moved
land_lem code d c h =
    let (t, e, ht, pc) =
      is_valid_opcode_lem code d (moved d c)
        (record { same_code = h.same_code; invalid = h.invalid; valid = h.valid }) in
    let byte : peek (moved d c) ≡ get_or code d stop_value =
      peek_lem (moved d c) ∙ ap (λ bs. get_or bs d stop_value) h.same_code in
    elim (Bool-cases (get_or code d stop_value == jumpdest_value)) [
      | inl there ↦
          let at =
            land_at d c (rw byte there) ∙ check_target_lem d (record c { code = moved d c }) e in
          subst (λ p. (p.0 ≡ verdict code d) × Lands code d c p.1) (sym at)
            (
              rw there (if_not (is_instruction code d)),
              record {
                counter = pc;
                right = ht;
                same_stack = refl;
                same_memory = refl;
                same_gas = refl;
              },
            )
      | inr other ↦
          subst (λ p. (p.0 ≡ verdict code d) × Lands code d c p.1)
            (sym (land_elsewhere d c (rw byte other)))
            (
              rw other refl,
              record {
                counter = refl;
                right = record { same_code = h.same_code; invalid = h.invalid; valid = h.valid };
                same_stack = refl;
                same_memory = refl;
                same_gas = refl;
              },
            )
    ]

-- JUMP with an item on the stack takes it for the target, moves the counter there and returns if
-- the byte there is a JUMPDEST that a scan of the code meets as an instruction. It raises
-- InvalidJumpDestination if the byte is another, and InvalidInstruction if it is data of a PUSH.
pub jump_lem :
    ⦃eth : EthUtils⦄ (code : List ℕ) (target : Item) (s : Stack) (c : Computation)
    → IsRight code c.code
    → ((jump (record c { stack = target ∷ s })).0 ≡ verdict code (to_int target))
      × Lands code
          (to_int target)
          (record c { stack = s })
          (jump (record c { stack = target ∷ s })).1
unfolding jump pop1_int
jump_lem code target s c h = land_lem code (to_int target) (record c { stack = s }) h
