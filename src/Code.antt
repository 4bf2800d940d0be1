-- ===== src/Code.antt =====
-- veda/vm/code_stream.py: the code of a computation, its program counter, and the test that a jump
-- target is an instruction and not the data of a PUSH. A set of positions is a list.
pub mod Scan
pub mod Valid
mod Tests
use veda_bvm.Common.{
  ℕ, zero, suc, ◌+◌, ◌-◌, min, Bool, true, false, ◌&&◌, ◌||◌, List, [], ◌∷◌, Option, none, some,
  ltb, leb, ◌==◌, if◌then◌else◌, length, get_or, take, drop,
}
use veda_bvm.Exceptions.{Action, Result, ok, err}

-- veda/vm/opcode_values.py
abbrev pub stop_value : ℕ
stop_value = 0x00

abbrev pub jumpdest_value : ℕ
jumpdest_value = 0x5b

abbrev pub push1_value : ℕ
push1_value = 0x60

abbrev pub push32_value : ℕ
push32_value = 0x7f

pub record CodeStream : Type 0 where
  pub program_counter : ℕ
  pub raw_code_bytes : List ℕ
  pub invalid_positions : List ℕ
  pub valid_positions : List ℕ

unfoldable pub new : List ℕ → CodeStream
new code_bytes = record {
  program_counter = 0;
  raw_code_bytes = code_bytes;
  invalid_positions = [];
  valid_positions = [];
}

unfoldable pub read : ℕ → CodeStream → List ℕ × CodeStream
read size s =
    let target_program_counter = s.program_counter + size in
    (
      take size (drop s.program_counter s.raw_code_bytes),
      record s { program_counter = target_program_counter },
    )

-- One round of `__iter__`: the opcode that it yields.
unfoldable pub next_opcode : CodeStream → ℕ × CodeStream
next_opcode s =
    let pc = s.program_counter in
    if ltb pc (length s.raw_code_bytes)
    then (get_or s.raw_code_bytes pc stop_value, record s { program_counter = pc + 1 })
    else (stop_value, s)

unfoldable pub peek : CodeStream → ℕ
peek s =
    let pc = s.program_counter in
    if ltb pc (length s.raw_code_bytes) then get_or s.raw_code_bytes pc stop_value else stop_value

-- `with code.seek(program_counter)`: the counter is put back afterwards.
unfoldable pub seek : {A : Type 0} → ℕ → (CodeStream → A × CodeStream) → CodeStream → A × CodeStream
seek program_counter body s =
    let (a, t) = body (record s { program_counter = program_counter }) in
    (a, record t { program_counter = s.program_counter })

unfoldable pub contains : ℕ → List ℕ → Bool
contains p [] = false
contains p (q ∷ qs) = p == q || contains p qs

-- The positions from `bytes_back` back to 1 back whose opcode is a PUSH that reaches `position`.
unfoldable pub disqualifying_from : List ℕ → ℕ → ℕ → List ℕ
disqualifying_from code position zero = []
disqualifying_from code position (suc back) =
    let earlier_position = position - suc back in
    let opcode = get_or code earlier_position stop_value in
    let nearer = disqualifying_from code position back in
    if leb (push1_value + back) opcode && leb opcode push32_value
    then earlier_position ∷ nearer
    else nearer

unfoldable pub potentially_disqualifying_opcode_positions : List ℕ → ℕ → List ℕ
unfolding disqualifying_from
potentially_disqualifying_opcode_positions code position =
    disqualifying_from code position (min 32 position)

-- The loop of `is_valid_opcode`, up to the first valid disqualifier; `none` means that the fuel of
-- the recursion ran out.
unfoldable pub any_valid :
    (ℕ → CodeStream → Option (Bool × CodeStream)) → List ℕ → CodeStream → Option (Bool × CodeStream)
any_valid test [] s = some (false, s)
any_valid test (disqualifier ∷ later) s = elim (test disqualifier s) [
  | none ↦ none
  | some (true, t) ↦ some (true, t)
  | some (false, t) ↦ any_valid test later t
]

unfoldable pub remember : Option (Bool × CodeStream) → ℕ → Option (Bool × CodeStream)
remember none position = none
remember (some (true, s)) position =
    some (false, record s { invalid_positions = position ∷ s.invalid_positions })
remember (some (false, s)) position =
    some (true, record s { valid_positions = position ∷ s.valid_positions })

unfoldable pub is_valid_fuel : ℕ → ℕ → CodeStream → Option (Bool × CodeStream)
unfolding contains potentially_disqualifying_opcode_positions any_valid remember
is_valid_fuel zero position s = none
is_valid_fuel (suc fuel) position s =
    let searched =
      remember
        (any_valid (is_valid_fuel fuel)
          (potentially_disqualifying_opcode_positions s.raw_code_bytes position) s)
        position in
    if leb (length s.raw_code_bytes) position
    then some (false, s)
    else if contains position s.invalid_positions
    then some (false, s)
    else if contains position s.valid_positions
    then some (true, s)
    else searched

-- A disqualifier stands before its position, so the calls go at most `position` deep.
unfoldable pub is_valid_opcode : ℕ → CodeStream → Option (Bool × CodeStream)
unfolding is_valid_fuel
is_valid_opcode position = is_valid_fuel (position + 1) position
