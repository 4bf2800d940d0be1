-- ===== src/Logic/Push.antt =====
-- What the PUSH opcodes put on the stack.
use veda_bvm.Code.{read}
use veda_bvm.Common.{
  ℕ, zero, suc, ◌+◌, ◌-◌, ◌≤◌, ◌<◌, ◌≡◌, refl, sym, ap, ◌∙◌, List, [], ◌∷◌, ◌++◌, arith, length,
  get_or, take, drop, replicate, length-take, length-append, length-replicate,
}
use veda_bvm.Computation.{Computation}
use veda_bvm.Exceptions.{ok}
use veda_bvm.Logic.Flow.{push_xx}
use veda_bvm.Logic.Laws.{get_or_past}
use veda_bvm.Stack.{Stack, bytes, push_bytes}

get_or-padded : (bs : List ℕ) (k i : ℕ) → get_or (bs ++ replicate k 0) i 0 ≡ get_or bs i 0
get_or-padded [] zero i = refl
get_or-padded [] (suc k) zero = refl
get_or-padded [] (suc k) (suc i) = get_or-padded [] k i
get_or-padded (x ∷ bs) k zero = refl
get_or-padded (x ∷ bs) k (suc i) = get_or-padded bs k i

get_or-take : (n : ℕ) (bs : List ℕ) (i : ℕ) → i < n → get_or (take n bs) i 0 ≡ get_or bs i 0
get_or-take zero bs i h = absurd (omega arith)
get_or-take (suc n) [] i h = refl
get_or-take (suc n) (x ∷ bs) zero h = refl
get_or-take (suc n) (x ∷ bs) (suc i) h = get_or-take n bs i (omega arith)

get_or-drop : (n : ℕ) (bs : List ℕ) (i : ℕ) → get_or (drop n bs) i 0 ≡ get_or bs (n + i) 0
get_or-drop zero bs i = let same : i ≡ zero + i = omega arith in ap (λ k. get_or bs k 0) same
get_or-drop (suc n) [] i = sym (get_or_past [] (suc n + i) 0 (omega arith))
get_or-drop (suc n) (x ∷ bs) i =
    let same : suc (n + i) ≡ suc n + i = omega arith in
    get_or-drop n bs i ∙ ap (λ k. get_or (x ∷ bs) k 0) same

-- The bytes that follow a PUSH, with zeros where the code ends before them.
padded : ℕ → ℕ → List ℕ → List ℕ
padded size pc code =
    let raw_value = take size (drop pc code) in raw_value ++ replicate (size - length raw_value) 0

length-padded : (size pc : ℕ) (code : List ℕ) → length (padded size pc code) ≡ size
unfolding padded
length-padded size pc code =
    let raw_value = take size (drop pc code) in
    let taken = length-take size (drop pc code) in
    length-append raw_value (replicate (size - length raw_value) 0)
    ∙ omega (arith, taken, length-replicate {A = ℕ} (size - length raw_value) 0)

get_or-padded_code :
    (size pc i : ℕ) (code : List ℕ)
    → i < size
    → get_or (padded size pc code) i 0 ≡ get_or code (pc + i) 0
unfolding padded
get_or-padded_code size pc i code h =
    get_or-padded (take size (drop pc code)) _ i
    ∙ get_or-take size (drop pc code) i h
    ∙ get_or-drop pc code i

push_bytes_short :
    (bs : List ℕ) (s : Stack)
    → length bs ≤ 32
    → length s < 1024
    → push_bytes bs s ≡ (ok tt, bytes bs ∷ s)
unfolding push_bytes
push_bytes_short bs s short room = ground arith

runs :
    (size : ℕ) (c : Computation)
    → size ≤ 32
    → length c.stack < 1024
    → push_xx size c ≡ (
      ok tt,
      record c {
        stack = bytes (padded size c.code.program_counter c.code.raw_code_bytes) ∷ c.stack;
        code = record c.code { program_counter = c.code.program_counter + size };
      },
    )
unfolding push_xx read padded
runs size c small room =
    let bs = padded size c.code.program_counter c.code.raw_code_bytes in
    let len = length-padded size c.code.program_counter c.code.raw_code_bytes in
    rw (push_bytes_short bs c.stack (omega (arith, len)) room) refl

-- A PUSH of at most 32 bytes on a stack with room pushes that many bytes: those of the code from
-- the counter on, and zeros past its end. The counter goes on by as many, and nothing else changes.
pub push_xx_lem :
    (size : ℕ) (c : Computation)
    → size ≤ 32
    → length c.stack < 1024
    → (bs : List ℕ) × (push_xx size c ≡ (
      ok tt,
      record c {
        stack = bytes bs ∷ c.stack;
        code = record c.code { program_counter = c.code.program_counter + size };
      },
    ))
      × (length bs ≡ size)
      × ((i : ℕ)
          → i < size
          → get_or bs i 0 ≡ get_or c.code.raw_code_bytes (c.code.program_counter + i) 0)
push_xx_lem size c small room =
    let pc = c.code.program_counter in
    let code = c.code.raw_code_bytes in
    (
      padded size pc code,
      runs size c small room,
      length-padded size pc code,
      λ i h. get_or-padded_code size pc i code h,
    )
