-- ===== src/ChainGaps/Reopen.antt =====
-- What `reopen_gap` leaves.
use veda_bvm.ChainGaps.Joins.{
  sorted-place, join, join_overlapping_gaps-place, extend, join-Rises, in_ranges-join,
}
use veda_bvm.ChainGaps.Order.{Rises, Rises-le, IsOrdered}
use veda_bvm.ChainGaps.{
  Gap, ChainGaps, in_ranges, is_block_number_in_gap, leb_Gap, join_overlapping_gaps, split_last,
  merge_tip, merge_joined, reopen_gap,
}
use veda_bvm.Common.{
  ℕ, ◌+◌, ◌≤◌, ◌<◌, ◌≡◌, refl, sym, ap, subst, ◌∙◌, inl, inr, true, false, ◌||◌, some, List, [],
  ◌∷◌, arith, leb, ◌==◌, max, if◌then◌else◌, Bool-cases,
}
use veda_bvm.Exceptions.{Result, ok, err}

-- What the merge of the last range with the tip leaves.
record Merged (low tip : ℕ) (gaps : List Gap) : Type 0 where
  merged : ChainGaps
  runs : merge_tip tip gaps ≡ ok merged
  ordered : Rises low merged.gap_ranges merged.tip_child
  missing : (b : ℕ) → is_block_number_in_gap b merged ≡ in_ranges b gaps tip

split_last-some :
    (a : Gap) (gaps : List Gap)
    → (before : List Gap) × (last : Gap) × (split_last (a ∷ gaps) ≡ some (before, last))
unfolding split_last
split_last-some a [] = ([], a, refl)
split_last-some a (b ∷ gaps) =
    let (before, last, e) = split_last-some b gaps in (a ∷ before, last, rw e refl)

abbrev prepend : Gap → Result ChainGaps → Result ChainGaps
prepend gap (ok g) = ok (record g { gap_ranges = gap ∷ g.gap_ranges })
prepend gap (err e) = err e

split_last-cons :
    (first a last : Gap) (gaps before : List Gap)
    → split_last (a ∷ gaps) ≡ some (before, last)
    → split_last (first ∷ a ∷ gaps) ≡ some (first ∷ before, last)
unfolding split_last
split_last-cons first a last gaps before e = rw e refl

-- The two outcomes of the merge.
after_merge : ℕ → List Gap → Gap → List Gap → ChainGaps
after_merge tip before (low, high) gaps =
    if leb tip (high + 1)
    then record { gap_ranges = before; tip_child = low }
    else record { gap_ranges = gaps; tip_child = tip }

merge_tip-last :
    (tip : ℕ) (gaps before : List Gap) (last : Gap)
    → split_last gaps ≡ some (before, last)
    → merge_tip tip gaps ≡ ok (after_merge tip before last gaps)
unfolding merge_tip after_merge
merge_tip-last tip gaps before (low, high) e = rw (merge_tip, e) refl

after_merge-cons :
    (first : Gap) (tip : ℕ) (before : List Gap) (last : Gap) (gaps : List Gap)
    → ok (after_merge tip (first ∷ before) last (first ∷ gaps))
      ≡ prepend first (ok (after_merge tip before last gaps))
unfolding after_merge
after_merge-cons first tip before (low, high) gaps = elim (Bool-cases (leb tip (high + 1))) [
  | inl touching ↦ rw touching refl
  | inr apart ↦ rw apart refl
]

merge_tip-cons :
    (first a : Gap) (gaps : List Gap) (tip : ℕ)
    → merge_tip tip (first ∷ a ∷ gaps) ≡ prepend first (merge_tip tip (a ∷ gaps))
merge_tip-cons first a gaps tip =
    let (before, last, e) = split_last-some a gaps in
    merge_tip-last tip (first ∷ a ∷ gaps) (first ∷ before) last
      (split_last-cons first a last gaps before e)
    ∙ after_merge-cons first tip before last (a ∷ gaps)
    ∙ ap (prepend first) (sym (merge_tip-last tip (a ∷ gaps) before last e))

merge_tip-Merged :
    (gaps : List Gap) (c d low tip : ℕ)
    → Rises low ((c, d) ∷ gaps) (tip + 1)
    → Merged low tip ((c, d) ∷ gaps)
unfolding merge_tip split_last Rises is_block_number_in_gap in_ranges
merge_tip-Merged [] c d low tip (p, q, r) = elim (Bool-cases (leb tip (d + 1))) [
  | inl touching ↦ record {
    merged = record { gap_ranges = []; tip_child = c };
    runs = rw touching refl;
    ordered = p;
    missing = λ b. ground arith;
  }
  | inr apart ↦ record {
    merged = record { gap_ranges = (c, d) ∷ []; tip_child = tip };
    runs = rw apart refl;
    ordered = (p, q, ground arith);
    missing = λ b. refl;
  }
]
merge_tip-Merged ((a, b) ∷ gaps) c d low tip (p, q, r) =
    let rest = merge_tip-Merged gaps a b (d + 2) tip r in
    record {
      merged = record rest.merged { gap_ranges = (c, d) ∷ rest.merged.gap_ranges };
      runs = merge_tip-cons (c, d) (a, b) gaps tip ∙ ap (prepend (c, d)) rest.runs;
      ordered = (p, q, rest.ordered);
      missing = λ n. ground (arith, rest.missing n);
    }

abbrev IsCons : List Gap → Type 0
IsCons gaps = (c : ℕ) × (d : ℕ) × (rest : List Gap) × (gaps ≡ (c, d) ∷ rest)

extend-IsCons : (a h : ℕ) (gaps : List Gap) → IsCons (extend a h gaps)
unfolding extend
extend-IsCons a h [] = (a, h, [], refl)
extend-IsCons a h ((c, d) ∷ gaps) = elim (Bool-cases (leb c (h + 1))) [
  | inl touching ↦ rw touching (a, max d h, gaps, refl)
  | inr apart ↦ rw apart (a, h, (c, d) ∷ gaps, refl)
]

join-IsCons : (n : ℕ) (gaps : List Gap) → IsCons (join n gaps)
unfolding join
join-IsCons n [] = (n, n, [], refl)
join-IsCons n ((a, b) ∷ gaps) = elim (Bool-cases (leb_Gap (a, b) (n, n))) [
  | inl before ↦ elim (Bool-cases (leb n (b + 1))) [
    | inl near ↦ rw (before, near) (extend-IsCons a (max n b) gaps)
    | inr far ↦ rw (before, far) (a, b, join n gaps, refl)
  ]
  | inr after ↦ rw after (extend-IsCons n n ((a, b) ∷ gaps))
]

-- What `reopen_gap` does, on every branch.
pub record Reopens (n : ℕ) (gaps : ChainGaps) : Type 0 where
  pub reopened : ChainGaps
  pub runs : reopen_gap n gaps ≡ ok reopened
  pub ordered : IsOrdered reopened
  pub missing :
      (b : ℕ) → is_block_number_in_gap b reopened ≡ (is_block_number_in_gap b gaps || b == n)

reopen_below : (n : ℕ) (gaps : ChainGaps) → n < gaps.tip_child → IsOrdered gaps → Reopens n gaps
unfolding reopen_gap is_block_number_in_gap
reopen_below n gaps h r =
    let ranges = gaps.gap_ranges in
    let tip = gaps.tip_child in
    let (c, d, rest, e) = join-IsCons n ranges in
    let joined = join-Rises ranges n 0 tip r (omega arith) h in
    let m = merge_tip-Merged rest c d 0 tip (subst (λ l. Rises 0 l (tip + 1)) e joined) in
    let below : leb tip n ≡ false = ground arith in
    record {
      reopened = m.merged;
      runs = rw below (
          ap (λ l. merge_joined tip (join_overlapping_gaps l)) (sorted-place ranges n 0 tip r)
          ∙ ap (merge_joined tip) (join_overlapping_gaps-place ranges n 0 tip r)
          ∙ ap (merge_tip tip) e
          ∙ m.runs);
      ordered = m.ordered;
      missing = λ b.
          m.missing b ∙ ap (λ l. in_ranges b l tip) (sym e) ∙ in_ranges-join ranges b n 0 tip r h;
    }

in_ranges-above :
    (gaps : List Gap) (b low tip : ℕ) → Rises low gaps tip → tip ≤ b → in_ranges b gaps tip ≡ true
unfolding in_ranges Rises
in_ranges-above [] b low tip r h = ground arith
in_ranges-above ((c, d) ∷ gaps) b low tip (p, q, r) h =
    ground (arith, in_ranges-above gaps b (d + 2) tip r h, Rises-le gaps (d + 2) tip r)

reopen_above : (n : ℕ) (gaps : ChainGaps) → gaps.tip_child ≤ n → IsOrdered gaps → Reopens n gaps
unfolding reopen_gap is_block_number_in_gap
reopen_above n gaps h r = record {
  reopened = gaps;
  runs = ground arith;
  ordered = r;
  missing = λ b.
      let above = in_ranges-above gaps.gap_ranges n 0 gaps.tip_child r h in
      elim (Bool-cases (b == n)) [
        | inl same ↦ let e : b ≡ n = ground arith in rw (same, e, above) refl
        | inr other ↦ rw other (ground arith)
      ];
}

-- On ordered gaps, giving up the header of a number succeeds, leaves ordered gaps, and adds the
-- number and no other to the missing ones.
pub reopen_gap_lem : (n : ℕ) (gaps : ChainGaps) → IsOrdered gaps → Reopens n gaps
reopen_gap_lem n gaps r = elim (Bool-cases (leb gaps.tip_child n)) [
  | inl above ↦ reopen_above n gaps (ground arith) r
  | inr below ↦ reopen_below n gaps (ground arith) r
]
