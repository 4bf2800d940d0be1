-- ===== src/Code/Tests.antt =====
-- Runs over a piece of code, and the theorem at it.
use veda_bvm.Common.{ℕ, ◌≡◌, refl, List, [], ◌∷◌, Option, none, some, true, false, Bool}
use veda_bvm.Code.{CodeStream, new, read, peek, next_opcode, seek, is_valid_opcode}
use veda_bvm.Code.Scan.{is_instruction}
use veda_bvm.Code.Valid.{IsRight, is_valid_opcode_lem}

-- PUSH1 0x5b; JUMPDEST; PUSH2 0x60 0x5b; JUMPDEST
abbrev code : List ℕ
code = 0x60 ∷ 0x5b ∷ 0x5b ∷ 0x61 ∷ 0x60 ∷ 0x5b ∷ 0x5b ∷ []

answer : ℕ → Option Bool
answer p = elim (is_valid_opcode p (new code)) [ none ↦ none | some (b, _) ↦ some b ]

answers :
    (answer 1 ≡ some false)
    × (answer 2 ≡ some true)
    × (answer 5 ≡ some false)
    × (answer 6 ≡ some true)
    × (answer 7 ≡ some false)
unfolding answer is_valid_opcode new
answers = (refl, refl, refl, refl, refl)

reads : (read 3 (record (new code) { program_counter = 5 })).0 ≡ 0x5b ∷ 0x5b ∷ []
unfolding read new
reads = refl

seeks : (seek 5 (read 1) (new code)) ≡ (0x5b ∷ [], new code)
unfolding read new seek
seeks = refl

yields :
    ((next_opcode (new code)).0 ≡ 0x60) × (peek (record (new code) { program_counter = 9 }) ≡ 0)
unfolding next_opcode peek new
yields = (refl, refl)

new-IsRight : IsRight code (new code)
unfolding new
new-IsRight = record { same_code = refl; invalid = tt; valid = tt }

is_valid_opcode_lem_example :
    (t : CodeStream) × (is_valid_opcode 5 (new code) ≡ some (is_instruction code 5, t))
    × IsRight code t
    × (t.program_counter ≡ (new code).program_counter)
is_valid_opcode_lem_example = is_valid_opcode_lem code 5 (new code) new-IsRight
