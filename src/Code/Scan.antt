-- ===== src/Code/Scan.antt =====
-- What an instruction is, without looking back: one scan from the start of the code, which skips
-- the data of each PUSH.
use native.Mathlib.Decide.{ℕ_discrete}
use veda_bvm.Common.{
  ℕ, zero, suc, ◌+◌, ◌-◌, ◌≤◌, ◌<◌, ◌≡◌, refl, List, [], ◌∷◌, arith, Bool, ltb, leb, ◌==◌, ◌&&◌,
  if◌then◌else◌, length, get_or, Bool-cases, inl, inr,
}
use veda_bvm.Code.{push1_value, push32_value, stop_value}

-- The bytes of data behind an opcode.
unfoldable pub push_size : ℕ → ℕ
push_size opcode =
    if leb push1_value opcode && leb opcode push32_value then opcode - push1_value + 1 else 0

-- With `skip` bytes of data left at the start of the code, those that are left at a position.
unfoldable pub scan : List ℕ → ℕ → ℕ → ℕ
scan [] n skip = skip
scan (op ∷ code) zero skip = skip
scan (op ∷ code) (suc n) zero = scan code n (push_size op)
scan (op ∷ code) (suc n) (suc skip) = scan code n skip

-- A position of the code where an instruction stands.
unfoldable pub is_instruction : List ℕ → ℕ → Bool
is_instruction code position = ltb position (length code) && scan code position 0 == 0

step : ℕ → ℕ → ℕ
step opcode zero = push_size opcode
step opcode (suc skip) = skip

scan-suc :
    (code : List ℕ) (n skip : ℕ)
    → n < length code
    → scan code (suc n) skip ≡ step (get_or code n stop_value) (scan code n skip)
unfolding scan step
scan-suc [] n skip h = elim h [ ]
scan-suc (op ∷ []) zero zero h = refl
scan-suc (op ∷ []) zero (suc skip) h = refl
scan-suc (op ∷ op' ∷ code) zero zero h = refl
scan-suc (op ∷ op' ∷ code) zero (suc skip) h = refl
scan-suc (op ∷ code) (suc n) zero h = scan-suc code n (push_size op) (omega arith)
scan-suc (op ∷ code) (suc n) (suc skip) h = scan-suc code n skip (omega arith)

step_zero : (op skip : ℕ) → skip ≡ 0 → step op skip ≡ push_size op
unfolding step
step_zero op skip e = rw e

step_pos : (op skip : ℕ) → 0 < skip → step op skip + 1 ≡ skip
unfolding step
step_pos op zero h = absurd (omega arith)
step_pos op (suc skip) h = omega arith

module _ (code : List ℕ) where
  abbrev pub size_at : ℕ → ℕ
  size_at q = push_size (get_or code q stop_value)

  -- Data is left at a position only behind an instruction that reaches it.
  pub scan_reached :
      (n : ℕ)
      → n ≤ length code
      → 0 < scan code n 0
      → (q : ℕ) × (q < n) × (scan code q 0 ≡ 0) × (q + size_at q + 1 ≡ n + scan code n 0)
  scan_reached zero h d = absurd (start code d)
    where
      start : (c : List ℕ) → ¬ (0 < scan c 0 0)
      start [] = unfold scan in omega arith
      start (op ∷ c) = unfold scan in omega arith
  scan_reached (suc n) h d = elim (Bool-cases (scan code n 0 == 0)) [
    | inl fresh ↦
        let e : scan code n 0 ≡ 0 = ground arith in
        (
          n,
          omega arith,
          e,
          ground
              (arith, step_zero (get_or code n stop_value) (scan code n 0) e, scan-suc code n 0 h),
        )
    | inr inside ↦
        let (q, before, starts, reach) = scan_reached n (omega arith) (ground arith) in
        (
          q,
          omega arith,
          starts,
          ground (
            arith,
            step_pos (get_or code n stop_value) (scan code n 0),
            scan-suc code n 0 h,
            reach,
          ),
        )
  ]

  -- An instruction reaches all its data.
  pub scan_reaches :
      (q : ℕ)
      → scan code q 0 ≡ 0
      → (n : ℕ) → q < n
      → n ≤ length code
      → n ≤ q + size_at q
      → scan code n 0 + n ≡ q + size_at q + 1
  scan_reaches q e (suc n) before h reach = elim (ℕ_discrete q n) [
    | yes here ↦
        let e' : scan code n 0 ≡ 0 = rw (← here) e in
        rw here (
          omega
            (arith, step_zero (get_or code n stop_value) (scan code n 0) e', scan-suc code n 0 h))
    | no past ↦ omega (
      arith,
      scan_reaches q e n (omega arith) (omega arith) (omega arith),
      step_pos (get_or code n stop_value) (scan code n 0),
      scan-suc code n 0 h,
    )
  ]
  scan_reaches q e zero before h reach = elim before [ ]
