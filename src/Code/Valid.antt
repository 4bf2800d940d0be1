-- ===== src/Code/Valid.antt =====
-- `is_valid_opcode` finds, by looking back and with its caches, what the scan from the start finds.
use native.Mathlib.Decide.{ℕ_discrete, dec_lt}
use veda_bvm.Common.{
  ℕ, zero, suc, ◌+◌, ◌-◌, min, ◌≤◌, ◌<◌, ◌≡◌, refl, ◌∙◌, sym, ap, subst, List, [], ◌∷◌, Option,
  some, arith, Bool, true, false, not, leb, lt→leb, ◌==◌, ==_iff, ◌&&◌, ◌||◌, if◌then◌else◌, length,
  get_or, All, Bool-cases, inl, inr,
}
use veda_bvm.Code.{
  CodeStream, push1_value, push32_value, stop_value, contains, disqualifying_from,
  potentially_disqualifying_opcode_positions, any_valid, remember, is_valid_fuel, is_valid_opcode,
}
use veda_bvm.Code.Scan.{push_size, scan, is_instruction, size_at, scan_reached, scan_reaches}

-- The test of a candidate: its PUSH has at least that many bytes of data.
push_reaches :
    (opcode back : ℕ)
    → (leb (push1_value + back) opcode && leb opcode push32_value)
      ≡ leb (suc back) (push_size opcode)
unfolding push_size
push_reaches opcode back = ground arith

push_size-le : (opcode : ℕ) → push_size opcode ≤ 32
unfolding push_size
push_size-le opcode = ground arith

module _ (code : List ℕ) where
  any_instruction : List ℕ → Bool
  any_instruction [] = false
  any_instruction (q ∷ qs) = is_instruction code q || any_instruction qs

  any_if :
      (b : Bool) (q : ℕ) (qs : List ℕ)
      → any_instruction (if b then q ∷ qs else qs)
        ≡ (b && is_instruction code q || any_instruction qs)
  unfolding any_instruction
  any_if true q qs = refl
  any_if false q qs = refl

  any_candidate :
      (p back : ℕ)
      → any_instruction (disqualifying_from code p (suc back)) ≡ (
          leb (suc back) (size_at code (p - suc back)) && is_instruction code (p - suc back)
          || any_instruction (disqualifying_from code p back))
  any_candidate p back =
      rw (← push_reaches (get_or code (p - suc back) stop_value) back)
        (unfold disqualifying_from in any_if _ (p - suc back) (disqualifying_from code p back))

  -- A candidate that is an instruction covers the position by its data.
  candidate_found :
      (p back : ℕ)
      → p < length code
      → back ≤ p
      → any_instruction (disqualifying_from code p back) ≡ true
      → (q : ℕ) × (q < p) × (scan code q 0 ≡ 0) × (p ≤ q + size_at code q)
  candidate_found p zero h b e = absurd (unfold disqualifying_from any_instruction in cc)
  candidate_found p (suc back) h b e =
      elim (Bool-cases (any_instruction (disqualifying_from code p back))) [
        | inl nearer ↦ candidate_found p back h (omega arith) nearer
        | inr here ↦
            let found = any_candidate p back in
            (
              p - suc back,
              omega arith,
              unfold is_instruction in ground arith,
              unfold is_instruction in ground arith,
            )
      ]

  -- Where no candidate is an instruction, no instruction that is near enough covers the position.
  candidates_none :
      (p back : ℕ)
      → p < length code
      → back ≤ p
      → any_instruction (disqualifying_from code p back) ≡ false
      → (q : ℕ) → q < p
      → p ≤ q + back
      → scan code q 0 ≡ 0
      → q + size_at code q < p
  candidates_none p zero h b e q before near starts = absurd (omega arith)
  candidates_none p (suc back) h b e q before near starts =
      let found = any_candidate p back in
      elim (ℕ_discrete q (p - suc back)) [
        | yes here ↦
            unfold is_instruction in
            ground (arith, ap (size_at code) here, ap (λ n. scan code n 0) here)
        | no nearer ↦
            candidates_none p back h (omega arith) (ground arith) q before (omega arith) starts
      ]

  uncovered :
      (p : ℕ)
      → p < length code
      → any_instruction (potentially_disqualifying_opcode_positions code p) ≡ false
      → scan code p 0 ≡ 0
  unfolding potentially_disqualifying_opcode_positions
  uncovered p h none_found = elim (ℕ_discrete (scan code p 0) 0) [
    | yes starts ↦ starts
    | no inside ↦
        let (q, before, starts, reach) = scan_reached code p (omega arith) (omega arith) in
        let size : size_at code q ≤ 32 = push_size-le (get_or code q stop_value) in
        let some_data : 0 < scan code p 0 = omega arith in
        let short : q + size_at code q < p =
          candidates_none p (min 32 p) h (omega arith) none_found q before (omega arith) starts in
        absurd (omega arith)
  ]

  -- The scan and the look back agree.
  is_instruction-any :
      (p : ℕ)
      → p < length code
      → is_instruction code p
        ≡ not (any_instruction (potentially_disqualifying_opcode_positions code p))
  unfolding is_instruction
  is_instruction-any p h =
      let looked = potentially_disqualifying_opcode_positions code p in
      elim (Bool-cases (any_instruction looked)) [
        | inl some_push ↦
            let (q, before, starts, covers) =
              candidate_found p (min 32 p) h (omega arith)
                (unfold potentially_disqualifying_opcode_positions in some_push) in
            rw some_push (ground (arith, scan_reaches code q starts p before (omega arith) covers))
        | inr no_push ↦ rw no_push (ground (arith, uncovered p h no_push))
      ]

  -- The caches hold positions that are what they say, of this code.
  pub record IsRight (s : CodeStream) : Type 0 where
    pub same_code : s.raw_code_bytes ≡ code
    pub invalid : All (λ p. is_instruction code p ≡ false) s.invalid_positions
    pub valid : All (λ p. is_instruction code p ≡ true) s.valid_positions

  -- The result of a test of a position, which leaves the caches right and the counter alone.
  abbrev pub Answers : Bool → CodeStream → Option (Bool × CodeStream) → Type 0
  Answers b s result =
      (t : CodeStream) × (result ≡ some (b, t))
      × IsRight t
      × (t.program_counter ≡ s.program_counter)

  any_valid-Answers :
      (test : ℕ → CodeStream → Option (Bool × CodeStream)) (bound : ℕ)
      → ((q : ℕ) (s : CodeStream)
          → q < bound
          → IsRight s
          → Answers (is_instruction code q) s (test q s))
      → (qs : List ℕ) → All (λ q. q < bound) qs
      → (s : CodeStream) → IsRight s
      → Answers (any_instruction qs) s (any_valid test qs s)
  unfolding any_valid any_instruction
  any_valid-Answers test bound right [] below s h = (s, refl, h, refl)
  any_valid-Answers test bound right (q ∷ qs) below s h =
      let (t, e, ht, pc) = right q s below.0 h in
      let (u, e', hu, pc') = any_valid-Answers test bound right qs below.1 t ht in
      elim (Bool-cases (is_instruction code q)) [
        | inl found ↦ (t, ground arith, ht, pc)
        | inr missing ↦ (u, ground arith, hu, pc' ∙ pc)
      ]

  candidates_below : (p back : ℕ) → back ≤ p → All (λ q. q < p) (disqualifying_from code p back)
  unfolding disqualifying_from
  candidates_below p zero h = tt
  candidates_below p (suc back) h =
      elim (Bool-cases (
        leb (push1_value + back) (get_or code (p - suc back) stop_value)
        && leb (get_or code (p - suc back) stop_value) push32_value)) [
          | inl reaches ↦ rw reaches (omega arith, candidates_below p back (omega arith))
          | inr short ↦ rw short (candidates_below p back (omega arith))
        ]

  contains-All : (P : ℕ → Type 0) (p : ℕ) (qs : List ℕ) → All P qs → contains p qs ≡ true → P p
  unfolding contains
  contains-All P p [] h e = cc
  contains-All P p (q ∷ qs) h e = elim (Bool-cases (p == q)) [
    | inl here ↦ subst P (sym ((==_iff p q).0 here)) h.0
    | inr there ↦ contains-All P p qs h.1 (ground arith)
  ]

  remember-Answers :
      (p : ℕ)
      → p < length code
      → (s : CodeStream) (found : Option (Bool × CodeStream))
      → Answers (any_instruction (potentially_disqualifying_opcode_positions code p)) s found
      → Answers (is_instruction code p) s (remember found p)
  unfolding remember
  remember-Answers p h s found (t, e, ht, pc) =
      let agrees = is_instruction-any p h in
      let looked = any_instruction (potentially_disqualifying_opcode_positions code p) in
      elim (Bool-cases looked) [
        | inl some_push ↦
            let data_here : is_instruction code p ≡ false = rw some_push at agrees in
            (
              record t { invalid_positions = p ∷ t.invalid_positions },
              ground arith,
              record {
                same_code = ht.same_code;
                invalid = (data_here, ht.invalid);
                valid = ht.valid;
              },
              pc,
            )
        | inr no_push ↦
            let starts_here : is_instruction code p ≡ true = rw no_push at agrees in
            (
              record t { valid_positions = p ∷ t.valid_positions },
              ground arith,
              record {
                same_code = ht.same_code;
                invalid = ht.invalid;
                valid = (starts_here, ht.valid);
              },
              pc,
            )
      ]

  -- A test that no cache answers.
  searches :
      (fuel p : ℕ) (s : CodeStream)
      → s.raw_code_bytes ≡ code
      → p < length code
      → contains p s.invalid_positions ≡ false
      → contains p s.valid_positions ≡ false
      → is_valid_fuel (suc fuel) p s
        ≡ remember
            (any_valid (is_valid_fuel fuel) (potentially_disqualifying_opcode_positions code p) s)
            p
  searches fuel p s e h i v =
      rw (← e) (unfold is_valid_fuel in rw (lt→leb (length s.raw_code_bytes) p (rw e h), i, v))

  is_valid_fuel-Answers :
      (fuel p : ℕ) (s : CodeStream)
      → p < fuel
      → IsRight s
      → Answers (is_instruction code p) s (is_valid_fuel fuel p s)
  is_valid_fuel-Answers zero p s lt h = elim lt [ ]
  is_valid_fuel-Answers (suc fuel) p s lt h = elim (dec_lt p (length code)) [
    | no past ↦ (s, unfold is_valid_fuel is_instruction in ground (arith, h.same_code), h, refl)
    | yes within ↦ elim (Bool-cases (contains p s.invalid_positions)) [
      | inl cached ↦
          let data_here =
            contains-All (λ q. is_instruction code q ≡ false) p s.invalid_positions h.invalid
              cached in
          (s, rw data_here (unfold is_valid_fuel in ground (arith, h.same_code)), h, refl)
      | inr unknown ↦ elim (Bool-cases (contains p s.valid_positions)) [
        | inl cached ↦
            let starts_here =
              contains-All (λ q. is_instruction code q ≡ true) p s.valid_positions h.valid cached in
            (s, rw starts_here (unfold is_valid_fuel in ground (arith, h.same_code)), h, refl)
        | inr unseen ↦ rw (searches fuel p s h.same_code within unknown unseen) (
            remember-Answers p within s _ (
              any_valid-Answers (is_valid_fuel fuel) p
                (λ q t below right. is_valid_fuel-Answers fuel q t (omega arith) right)
                (potentially_disqualifying_opcode_positions code p)
                (unfold potentially_disqualifying_opcode_positions in
                  candidates_below p (min 32 p) (omega arith))
                s h))
      ]
    ]
  ]

-- The jump target test of a fresh or used stream ends, and answers whether the scan from the start
-- finds an instruction there. It leaves the code, the counter and the truth of the caches.
pub is_valid_opcode_lem :
    (code : List ℕ) (p : ℕ) (s : CodeStream)
    → IsRight code s
    → (t : CodeStream) × (is_valid_opcode p s ≡ some (is_instruction code p, t))
      × IsRight code t
      × (t.program_counter ≡ s.program_counter)
unfolding is_valid_opcode
is_valid_opcode_lem code p s h = is_valid_fuel-Answers code (p + 1) p s (omega arith) h
