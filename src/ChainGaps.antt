-- ===== src/ChainGaps.antt =====
-- veda/db/chain_gaps.py: the ranges of block numbers whose headers are missing. A block number is a
-- natural number. `joined_gaps` of `reopen_gap` is never empty, since it joins one range at least.
pub mod Order
pub mod Fill
pub mod Joins
pub mod Reopen
mod Tests
use veda_bvm.Common.{
  ℕ, zero, suc, ◌+◌, ◌-◌, max, Bool, true, false, ◌&&◌, ◌||◌, List, [], ◌∷◌, ◌++◌, Option, none,
  some, ltb, leb, ◌==◌, if◌then◌else◌, take, drop,
}
use veda_bvm.Exceptions.{
  Exception, Result, ok, err, validation_error, gap_tracking_corrupted, invariant_broken,
}

pub data GapChange : Type 0 where
  no_change new_gap gap_fill gap_split gap_left_shrink gap_right_shrink tail_write : GapChange

-- `BlockRange`
abbrev pub Gap : Type 0
Gap = ℕ × ℕ

pub record ChainGaps : Type 0 where
  pub gap_ranges : List Gap
  pub tip_child : ℕ

abbrev pub genesis_chain_gaps : ChainGaps
genesis_chain_gaps = record { gap_ranges = []; tip_child = 1 }

abbrev pub cons_ok : Gap → Result (List Gap) → Result (List Gap)
cons_ok gap (ok gaps) = ok (gap ∷ gaps)
cons_ok gap (err e) = err e

-- The loop of `_join_overlapping_gaps`, where a range waits to be yielded.
unfoldable pub join_from : ℕ → ℕ → List Gap → Result (List Gap)
join_from unyielded_low unyielded_high [] = ok ((unyielded_low, unyielded_high) ∷ [])
join_from unyielded_low unyielded_high ((low, high) ∷ gaps) =
    let joined = join_from unyielded_low (max high unyielded_high) gaps in
    let next = cons_ok (unyielded_low, unyielded_high) (join_from low high gaps) in
    if ltb low unyielded_low
    then err validation_error
    else if leb unyielded_low low && leb low (unyielded_high + 1)
    then joined
    else next

unfoldable pub join_overlapping_gaps : List Gap → Result (List Gap)
unfolding join_from
join_overlapping_gaps [] = ok []
join_overlapping_gaps ((low, high) ∷ gaps) = join_from low high gaps

-- Python's order of pairs, and `sorted`.
abbrev pub leb_Gap : Gap → Gap → Bool
leb_Gap (a, b) (c, d) = ltb a c || (a == c && leb b d)

unfoldable pub insert_sorted : Gap → List Gap → List Gap
insert_sorted gap [] = gap ∷ []
insert_sorted gap (first ∷ gaps) =
    let rest = insert_sorted gap gaps in
    if leb_Gap gap first then gap ∷ first ∷ gaps else first ∷ rest

unfoldable pub sorted : List Gap → List Gap
unfolding insert_sorted
sorted [] = []
sorted (gap ∷ gaps) = insert_sorted gap (sorted gaps)

-- `gaps[:-1]` and `gaps[-1]`
unfoldable pub split_last : List Gap → Option (List Gap × Gap)
split_last [] = none
split_last (gap ∷ gaps) = elim (split_last gaps) [
  | none ↦ some ([], gap)
  | some (before, last) ↦ some (gap ∷ before, last)
]

unfoldable pub merge_tip : ℕ → List Gap → Result ChainGaps
unfolding split_last
merge_tip tip_child joined_gaps = elim (split_last joined_gaps) [
  | none ↦ err invariant_broken
  | some (before, (low, high)) ↦ ok (
      if leb tip_child (high + 1)
      then record { gap_ranges = before; tip_child = low }
      else record { gap_ranges = joined_gaps; tip_child = tip_child })
]

abbrev pub merge_joined : ℕ → Result (List Gap) → Result ChainGaps
merge_joined tip_child (ok gaps) = merge_tip tip_child gaps
merge_joined tip_child (err e) = err e

unfoldable pub reopen_gap : ℕ → ChainGaps → Result ChainGaps
unfolding sorted join_overlapping_gaps merge_tip
reopen_gap decanonicalized base_gaps =
    if leb base_gaps.tip_child decanonicalized
    then ok base_gaps
    else merge_joined base_gaps.tip_child (
        join_overlapping_gaps
          (sorted (base_gaps.gap_ranges ++ (decanonicalized, decanonicalized) ∷ [])))

unfoldable pub in_ranges : ℕ → List Gap → ℕ → Bool
in_ranges block_number [] tip_child = leb tip_child block_number
in_ranges block_number ((low, high) ∷ gaps) tip_child =
    let rest = in_ranges block_number gaps tip_child in
    if ltb block_number low then false else if leb block_number high then true else rest

unfoldable pub is_block_number_in_gap : ℕ → ChainGaps → Bool
unfolding in_ranges
is_block_number_in_gap block_number gaps = in_ranges block_number gaps.gap_ranges gaps.tip_child

-- The comprehension over `enumerate(current_gaps)`, from an index on.
unfoldable pub matching_gaps : ℕ → ℕ → List Gap → List (ℕ × Gap)
matching_gaps newly_persisted index [] = []
matching_gaps newly_persisted index ((low, high) ∷ gaps) =
    let rest = matching_gaps newly_persisted (suc index) gaps in
    if leb low newly_persisted && leb newly_persisted high
    then (index, (low, high)) ∷ rest
    else rest

-- `updated_center`, and the kind of change.
unfoldable pub updated_center : ℕ → Gap → Result (GapChange × List Gap)
updated_center newly_persisted (low, high) =
    if (newly_persisted == low) && (newly_persisted == high)
    then ok (GapChange.gap_fill, [])
    else if newly_persisted == low
    then ok (GapChange.gap_left_shrink, (low + 1, high) ∷ [])
    else if newly_persisted == high
    then ok (GapChange.gap_right_shrink, (low, high - 1) ∷ [])
    else if ltb low newly_persisted && ltb newly_persisted high
    then ok (GapChange.gap_split, (low, newly_persisted - 1) ∷ (newly_persisted + 1, high) ∷ [])
    else err invariant_broken

-- The slices around the gap at an index.
unfoldable pub patched :
    ℕ → ChainGaps → Result (GapChange × List Gap) → Result (GapChange × ChainGaps)
patched gap_index base_gaps (err e) = err e
patched gap_index base_gaps (ok (gap_change, center)) = ok (
  gap_change,
  record base_gaps {
    gap_ranges =
        take gap_index base_gaps.gap_ranges ++ center ++ drop (gap_index + 1) base_gaps.gap_ranges;
  },
)

unfoldable pub patch_matching : ℕ → ChainGaps → List (ℕ × Gap) → Result (GapChange × ChainGaps)
unfolding updated_center patched
patch_matching newly_persisted base_gaps [] = ok (GapChange.no_change, base_gaps)
patch_matching newly_persisted base_gaps ((gap_index, gap) ∷ []) =
    patched gap_index base_gaps (updated_center newly_persisted gap)
patch_matching newly_persisted base_gaps (first ∷ second ∷ others) = err gap_tracking_corrupted

unfoldable pub fill_gap : ℕ → ChainGaps → Result (GapChange × ChainGaps)
unfolding matching_gaps patch_matching
fill_gap newly_persisted base_gaps =
    if newly_persisted == base_gaps.tip_child
    then ok (GapChange.tail_write, record base_gaps { tip_child = newly_persisted + 1 })
    else if ltb base_gaps.tip_child newly_persisted
    then ok (
      GapChange.new_gap,
      record {
        gap_ranges = base_gaps.gap_ranges ++ (base_gaps.tip_child, newly_persisted - 1) ∷ [];
        tip_child = newly_persisted + 1;
      },
    )
    else patch_matching newly_persisted base_gaps
        (matching_gaps newly_persisted 0 base_gaps.gap_ranges)
