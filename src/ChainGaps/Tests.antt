-- ===== src/ChainGaps/Tests.antt =====
-- Gaps at concrete chains, and the theorem there.
use veda_bvm.ChainGaps.Fill.{Fills, fill_gap_lem}
use veda_bvm.ChainGaps.Order.{IsOrdered, Rises}
use veda_bvm.ChainGaps.Reopen.{Reopens, reopen_gap_lem}
use veda_bvm.ChainGaps.{ChainGaps, GapChange, fill_gap, reopen_gap, genesis_chain_gaps}
use veda_bvm.Common.{◌≡◌, refl, arith, [], ◌∷◌}
use veda_bvm.Exceptions.{ok}

abbrev one_gap : ChainGaps
one_gap = record { gap_ranges = (3, 7) ∷ []; tip_child = 10 }

fill_gap-genesis :
    fill_gap 4 genesis_chain_gaps
    ≡ ok (GapChange.new_gap, record { gap_ranges = (1, 3) ∷ []; tip_child = 5 })
unfolding fill_gap
fill_gap-genesis = refl

fill_gap-split :
    fill_gap 5 one_gap
    ≡ ok (GapChange.gap_split, record one_gap { gap_ranges = (3, 4) ∷ (6, 7) ∷ [] })
unfolding fill_gap
fill_gap-split = refl

reopen_gap-joins : reopen_gap 8 one_gap ≡ ok (record one_gap { gap_ranges = (3, 8) ∷ [] })
unfolding reopen_gap
reopen_gap-joins = refl

reopen_gap-tip : reopen_gap 9 one_gap ≡ ok (record one_gap { tip_child = 9 })
unfolding reopen_gap
reopen_gap-tip = refl

one_gap-IsOrdered : IsOrdered one_gap
unfolding Rises
one_gap-IsOrdered = omega arith

fill_gap_lem_example : Fills 5 one_gap
fill_gap_lem_example = fill_gap_lem 5 one_gap one_gap-IsOrdered

reopen_gap_lem_example : Reopens 8 one_gap
reopen_gap_lem_example = reopen_gap_lem 8 one_gap one_gap-IsOrdered
