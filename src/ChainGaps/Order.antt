-- ===== src/ChainGaps/Order.antt =====
-- Gaps in order, and the block numbers that are missing.
use veda_bvm.Common.{ℕ, ◌+◌, ◌≤◌, ◌<◌, ◌≡◌, false, List, [], ◌∷◌, arith}
use veda_bvm.ChainGaps.{Gap, ChainGaps, in_ranges}

-- The ranges rise from `low` on, a number that is present between any two, and end below the tip.
unfoldable pub Rises : ℕ → List Gap → ℕ → Type 0
Rises low [] tip = low ≤ tip
Rises low ((a, b) ∷ gaps) tip = (low ≤ a) × (a ≤ b) × Rises (b + 2) gaps tip

abbrev pub IsOrdered : ChainGaps → Type 0
IsOrdered gaps = Rises 0 gaps.gap_ranges gaps.tip_child

pub lower-Rises : (gaps : List Gap) (m n tip : ℕ) → m ≤ n → Rises n gaps tip → Rises m gaps tip
unfolding Rises
lower-Rises [] m n tip h r = omega arith
lower-Rises ((a, b) ∷ gaps) m n tip h (p, q, r) = (omega arith, q, r)

pub Rises-le : (gaps : List Gap) (low tip : ℕ) → Rises low gaps tip → low ≤ tip
unfolding Rises
Rises-le [] low tip r = r
Rises-le ((a, b) ∷ gaps) low tip (p, q, r) = omega (arith, Rises-le gaps (b + 2) tip r)

-- Nothing below the first range is missing.
pub in_ranges-below :
    (gaps : List Gap) (n low tip : ℕ) → Rises low gaps tip → n < low → in_ranges n gaps tip ≡ false
unfolding Rises in_ranges
in_ranges-below [] n low tip r h = ground arith
in_ranges-below ((a, b) ∷ gaps) n low tip (p, q, r) h = ground arith
