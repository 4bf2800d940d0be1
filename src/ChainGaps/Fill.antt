-- ===== src/ChainGaps/Fill.antt =====
-- What `fill_gap` leaves.
use veda_bvm.ChainGaps.Order.{Rises, Rises-le, lower-Rises, IsOrdered, in_ranges-below}
use veda_bvm.ChainGaps.{
  Gap, ChainGaps, GapChange, in_ranges, is_block_number_in_gap, matching_gaps, updated_center,
  patched, patch_matching, fill_gap,
}
use veda_bvm.Common.{
  ℕ, suc, ◌+◌, ◌-◌, ◌≤◌, ◌<◌, ◌≡◌, refl, sym, ap, subst, ltb→lt, ◌∙◌, ◌⊎◌, inl, inr, Bool, true,
  false, not, ◌&&◌, List, [], ◌∷◌, ◌++◌, arith, leb, ltb, ◌==◌, if◌then◌else◌, take, drop,
  Bool-cases,
}
use veda_bvm.Exceptions.{ok}

-- What is left of a range without one of its numbers.
pieces : ℕ → Gap → List Gap
pieces n (a, b) =
    if a == n
    then if n == b then [] else (a + 1, b) ∷ []
    else if n == b
    then (a, b - 1) ∷ []
    else (a, n - 1) ∷ (n + 1, b) ∷ []

within : ℕ → Gap → Bool
within n (a, b) = leb a n && leb n b

-- The range that holds a number is cut at it.
cut : ℕ → List Gap → List Gap
cut n [] = []
cut n (gap ∷ gaps) =
    let rest = cut n gaps in if within n gap then pieces n gap ++ gaps else gap ∷ rest

pieces-Rises :
    (n a b low tip : ℕ) (gaps : List Gap)
    → low ≤ a
    → a ≤ n
    → n ≤ b
    → Rises (b + 2) gaps tip
    → Rises low (pieces n (a, b) ++ gaps) tip
unfolding pieces Rises
pieces-Rises n a b low tip gaps h ha hb r = elim (Bool-cases (a == n)) [
  | inl first ↦ rw first (elim (Bool-cases (n == b)) [
    | inl last ↦ rw last (lower-Rises gaps low (b + 2) tip (omega arith) r)
    | inr more ↦ rw more (omega arith, ground arith, r)
  ])
  | inr later ↦ rw later (elim (Bool-cases (n == b)) [
    | inl last ↦
        let weaker = lower-Rises gaps (b - 1 + 2) (b + 2) tip (omega arith) r in
        rw last (h, ground arith, weaker)
    | inr more ↦ rw more (h, ground arith, (ground arith, ground arith, r))
  ])
]

cut-Rises : (gaps : List Gap) (n low tip : ℕ) → Rises low gaps tip → Rises low (cut n gaps) tip
unfolding cut within Rises
cut-Rises [] n low tip r = r
cut-Rises ((a, b) ∷ gaps) n low tip (p, q, r) = elim (Bool-cases (leb a n && leb n b)) [
  | inl here ↦ rw here (pieces-Rises n a b low tip gaps p (ground arith) (ground arith) r)
  | inr other ↦ rw other (p, q, cut-Rises gaps n (b + 2) tip r)
]

in_ranges-cut :
    (gaps : List Gap) (b n low tip : ℕ)
    → Rises low gaps tip
    → n < tip
    → in_ranges b (cut n gaps) tip ≡ (in_ranges b gaps tip && not (b == n))
unfolding cut pieces within in_ranges Rises
in_ranges-cut [] b n low tip r h = ground arith
in_ranges-cut ((l, u) ∷ gaps) b n low tip (p, q, r) h = ground (
  arith,
  in_ranges-cut gaps b n (u + 2) tip r h,
  in_ranges-below gaps b (u + 2) tip r,
  in_ranges-below gaps n (u + 2) tip r,
)

matching_gaps-below :
    (gaps : List Gap) (n i low tip : ℕ) → Rises low gaps tip → n < low → matching_gaps n i gaps ≡ []
unfolding matching_gaps Rises
matching_gaps-below [] n i low tip r h = refl
matching_gaps-below ((a, b) ∷ gaps) n i low tip (p, q, r) h =
    ground (arith, matching_gaps-below gaps n (suc i) (b + 2) tip r)

-- The comprehension finds no range, and the number is not missing; or it finds one, and the slices
-- around its index are the ranges that are left when the number is cut out.
Matches : ℕ → ℕ → List Gap → ℕ → Type 0
Matches n i gaps tip =
    ((matching_gaps n i gaps ≡ []) × (in_ranges n gaps tip ≡ false) × (cut n gaps ≡ gaps))
    ⊎ ((k : ℕ) × (gap : Gap) × (matching_gaps n i gaps ≡ (i + k, gap) ∷ [])
        × (within n gap ≡ true)
        × (in_ranges n gaps tip ≡ true)
        × (take k gaps ++ pieces n gap ++ drop (suc k) gaps ≡ cut n gaps))

matching_gaps-Matches :
    (gaps : List Gap) (n i low tip : ℕ) → Rises low gaps tip → n < tip → Matches n i gaps tip
unfolding Matches matching_gaps cut within in_ranges Rises
matching_gaps-Matches [] n i low tip r h = inl (refl, ground arith, refl)
matching_gaps-Matches ((a, b) ∷ gaps) n i low tip (p, q, r) h =
    elim (Bool-cases (leb a n && leb n b)) [
      | inl here ↦ inr (
        0,
        (a, b),
        ground (arith, matching_gaps-below gaps n (suc i) (b + 2) tip r),
        here,
        ground arith,
        ground arith,
      )
      | inr other ↦ elim (matching_gaps-Matches gaps n (suc i) (b + 2) tip r h) [
        | inl (none, absent, same) ↦ inl (ground arith, ground arith, ground arith)
        | inr (k, gap, found, inside, missing, slices) ↦ inr (
          suc k,
          gap,
          ground (arith, found),
          inside,
          ground (arith, in_ranges-below gaps n (b + 2) tip r),
          ground (arith, slices),
        )
      ]
    ]

kind : ℕ → Gap → GapChange
kind n (a, b) =
    if a == n
    then if n == b then GapChange.gap_fill else GapChange.gap_left_shrink
    else if n == b
    then GapChange.gap_right_shrink
    else GapChange.gap_split

updated_center_lem :
    (n : ℕ) (gap : Gap) → within n gap ≡ true → updated_center n gap ≡ ok (kind n gap, pieces n gap)
unfolding updated_center within kind pieces
updated_center_lem n (a, b) h = ground arith

-- What `fill_gap` does, on every branch.
pub record Fills (n : ℕ) (gaps : ChainGaps) : Type 0 where
  pub change : GapChange
  pub filled : ChainGaps
  pub runs : fill_gap n gaps ≡ ok (change, filled)
  pub ordered : IsOrdered filled
  pub missing :
      (b : ℕ) → is_block_number_in_gap b filled ≡ (is_block_number_in_gap b gaps && not (b == n))

-- A number below the tip whose range is found.
fill_found :
    (n k : ℕ) (gap : Gap) (ranges : List Gap) (tip : ℕ)
    → n < tip
    → matching_gaps n 0 ranges ≡ (0 + k, gap) ∷ []
    → within n gap ≡ true
    → take k ranges ++ pieces n gap ++ drop (suc k) ranges ≡ cut n ranges
    → fill_gap n (record { gap_ranges = ranges; tip_child = tip })
      ≡ ok (kind n gap, record { gap_ranges = cut n ranges; tip_child = tip })
unfolding fill_gap patch_matching patched
fill_found n k gap ranges tip h found inside slices =
    let gaps : ChainGaps = record { gap_ranges = ranges; tip_child = tip } in
    let start : 0 + k ≡ k = omega arith in
    let next : k + 1 ≡ suc k = omega arith in
    let below : fill_gap n gaps ≡ patch_matching n gaps (matching_gaps n 0 ranges) = ground arith in
    below
    ∙ ap (patch_matching n gaps) (found ∙ ap (λ i. (i, gap) ∷ []) start)
    ∙ ap (patched k gaps) (updated_center_lem n gap inside)
    ∙ ap (λ rest. ok (kind n gap, record gaps { gap_ranges = rest }))
        (ap (λ i. take k ranges ++ pieces n gap ++ drop i ranges) next ∙ slices)

fill_below :
    (n : ℕ) (ranges : List Gap) (tip : ℕ)
    → Rises 0 ranges tip
    → n < tip
    → Matches n 0 ranges tip
    → Fills n (record { gap_ranges = ranges; tip_child = tip })
unfolding Matches fill_gap is_block_number_in_gap
fill_below n ranges tip r h (inl (none, absent, same)) = record {
  change = GapChange.no_change;
  filled = record { gap_ranges = ranges; tip_child = tip };
  runs = ground (arith, none);
  ordered = r;
  missing = λ b. ground (arith, in_ranges-cut ranges b n 0 tip r h, same);
}
fill_below n ranges tip r h (inr (k, gap, found, inside, missing, slices)) = record {
  change = kind n gap;
  filled = record { gap_ranges = cut n ranges; tip_child = tip };
  runs = fill_found n k gap ranges tip h found inside slices;
  ordered = cut-Rises ranges n 0 tip r;
  missing = λ b. in_ranges-cut ranges b n 0 tip r h;
}

snoc-Rises :
    (gaps : List Gap) (low tip n : ℕ)
    → Rises low gaps tip
    → tip < n
    → Rises low (gaps ++ (tip, n - 1) ∷ []) (n + 1)
unfolding Rises
snoc-Rises [] low tip n r h = (r, omega arith, omega arith)
snoc-Rises ((a, b) ∷ gaps) low tip n (p, q, r) h = (p, q, snoc-Rises gaps (b + 2) tip n r h)

in_ranges-snoc :
    (gaps : List Gap) (b low tip n : ℕ)
    → Rises low gaps tip
    → tip < n
    → in_ranges b (gaps ++ (tip, n - 1) ∷ []) (n + 1) ≡ (in_ranges b gaps tip && not (b == n))
unfolding Rises in_ranges
in_ranges-snoc [] b low tip n r h = ground arith
in_ranges-snoc ((l, u) ∷ gaps) b low tip n (p, q, r) h =
    ground (arith, in_ranges-snoc gaps b (u + 2) tip n r h, Rises-le gaps (u + 2) tip r)

-- The tip goes on by one.
pub tail-Rises : (gaps : List Gap) (low tip : ℕ) → Rises low gaps tip → Rises low gaps (tip + 1)
unfolding Rises
tail-Rises [] low tip r = omega arith
tail-Rises ((a, b) ∷ gaps) low tip (p, q, r) = (p, q, tail-Rises gaps (b + 2) tip r)

in_ranges-tail :
    (gaps : List Gap) (b low tip : ℕ)
    → Rises low gaps tip
    → in_ranges b gaps (tip + 1) ≡ (in_ranges b gaps tip && not (b == tip))
unfolding Rises in_ranges
in_ranges-tail [] b low tip r = ground arith
in_ranges-tail ((l, u) ∷ gaps) b low tip (p, q, r) =
    ground (arith, in_ranges-tail gaps b (u + 2) tip r, Rises-le gaps (u + 2) tip r)

fill_tail : (n : ℕ) (gaps : ChainGaps) → n == gaps.tip_child ≡ true → IsOrdered gaps → Fills n gaps
unfolding fill_gap is_block_number_in_gap
fill_tail n gaps h r =
    let e : gaps.tip_child ≡ n = ground arith in
    record {
      change = GapChange.tail_write;
      filled = record gaps { tip_child = n + 1 };
      runs = rw h refl;
      ordered = tail-Rises gaps.gap_ranges 0 n (subst (Rises 0 gaps.gap_ranges) e r);
      missing = λ b.
          in_ranges-tail gaps.gap_ranges b 0 n (subst (Rises 0 gaps.gap_ranges) e r)
          ∙ ap (λ t. in_ranges b gaps.gap_ranges t && not (b == n)) (sym e);
    }

fill_above : (n : ℕ) (gaps : ChainGaps) → gaps.tip_child < n → IsOrdered gaps → Fills n gaps
unfolding fill_gap is_block_number_in_gap
fill_above n gaps h r = record {
  change = GapChange.new_gap;
  filled = record {
    gap_ranges = gaps.gap_ranges ++ (gaps.tip_child, n - 1) ∷ [];
    tip_child = n + 1;
  };
  runs = ground arith;
  ordered = snoc-Rises gaps.gap_ranges 0 gaps.tip_child n r h;
  missing = λ b. in_ranges-snoc gaps.gap_ranges b 0 gaps.tip_child n r h;
}

-- On ordered gaps, storing a header succeeds, leaves ordered gaps, and takes the header's number
-- and no other from the missing ones.
pub fill_gap_lem : (n : ℕ) (gaps : ChainGaps) → IsOrdered gaps → Fills n gaps
fill_gap_lem n gaps r = elim (Bool-cases (n == gaps.tip_child)) [
  | inl tail ↦ fill_tail n gaps tail r
  | inr other ↦ elim (Bool-cases (ltb gaps.tip_child n)) [
    | inl above ↦ fill_above n gaps (ltb→lt gaps.tip_child n above) r
    | inr below ↦
        let h : n < gaps.tip_child = ground arith in
        fill_below n gaps.gap_ranges gaps.tip_child r h
          (matching_gaps-Matches gaps.gap_ranges n 0 0 gaps.tip_child r h)
  ]
]
