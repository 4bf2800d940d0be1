-- ===== src/Memory/Tests.antt =====
-- Runs of the memory's calls, and the theorems at a concrete memory.
use veda_bvm.Common.{
  ℕ, ◌+◌, ◌%◌, ◌≤◌, ◌<◌, ◌≡◌, refl, ◌⊎◌, arith, [], ◌∷◌, some, none, max, ltb, if◌then◌else◌,
  length, get_elem?, replicate,
}
use veda_bvm.Exceptions.{ok}
use veda_bvm.Numeric.{ceil32}
use veda_bvm.Memory.{Memory, extend, write, read_bytes}
use veda_bvm.Memory.Access.{write_lem, extend_lem}

abbrev word : Memory
word = replicate 32 0

read_bytes-clipped : read_bytes 30 5 word ≡ 0 ∷ 0 ∷ []
unfolding read_bytes
read_bytes-clipped = refl

length-extend : length (extend 31 2 word) ≡ 64
unfolding extend ceil32
length-extend = refl

write_lem_example :
    (m' : Memory) × (write 3 2 (7 ∷ 8 ∷ []) word ≡ (ok tt, m'))
    × (read_bytes 3 2 m' ≡ 7 ∷ 8 ∷ [])
    × (length m' ≡ length word)
    × ((i : ℕ) → (i < 3) ⊎ (3 + 2 ≤ i) → get_elem? m' i ≡ get_elem? word i)
write_lem_example =
    write_lem 3 2 (7 ∷ 8 ∷ []) word (omega arith) (omega arith) (omega arith) refl (omega arith)

extend_lem_example :
    (length (extend 40 1 word) ≡ max (length word) (ceil32 (40 + 1)))
    × (length (extend 40 1 word) % 32 ≡ 0)
    × (40 + 1 ≤ length (extend 40 1 word))
    × ((i : ℕ)
        → get_elem? (extend 40 1 word) i ≡ (
            if ltb i (length word)
            then get_elem? word i
            else if ltb i (length (extend 40 1 word))
            then some 0
            else none))
extend_lem_example = extend_lem 40 1 word (omega arith) refl
