-- ===== src/ChainGaps/Joins.antt =====
-- The ranges that are joined with a number, in their order.
use veda_bvm.ChainGaps.Fill.{tail-Rises}
use veda_bvm.ChainGaps.Order.{Rises, Rises-le, lower-Rises, in_ranges-below}
use veda_bvm.ChainGaps.{
  Gap, in_ranges, leb_Gap, insert_sorted, sorted, join_from, join_overlapping_gaps, cons_ok,
}
use veda_bvm.Common.{
  ℕ, ◌+◌, ◌≤◌, ◌<◌, ◌≡◌, refl, sym, ap, subst, ◌∙◌, inl, inr, false, ◌||◌, ◌&&◌, List, [], ◌∷◌,
  ◌++◌, arith, leb, ◌==◌, max, if◌then◌else◌, Bool-cases,
}
use veda_bvm.Exceptions.{ok}

-- A number at its place in the order of pairs.
unfoldable pub place : ℕ → List Gap → List Gap
place n [] = (n, n) ∷ []
place n (gap ∷ gaps) =
    let rest = place n gaps in if leb_Gap gap (n, n) then gap ∷ rest else (n, n) ∷ gap ∷ gaps

place-below :
    (gaps : List Gap) (n low tip : ℕ) → Rises low gaps tip → n < low → place n gaps ≡ (n, n) ∷ gaps
unfolding place Rises
place-below [] n low tip r h = refl
place-below ((a, b) ∷ gaps) n low tip (p, q, r) h = ground arith

insert_sorted-Rises :
    (gaps : List Gap) (a b tip : ℕ)
    → a ≤ b
    → Rises (b + 2) gaps tip
    → insert_sorted (a, b) gaps ≡ (a, b) ∷ gaps
unfolding insert_sorted Rises
insert_sorted-Rises [] a b tip h r = refl
insert_sorted-Rises ((c, d) ∷ gaps) a b tip h (p, q, r) = ground arith

insert_sorted-place :
    (gaps : List Gap) (a b n tip : ℕ)
    → a ≤ b
    → Rises (b + 2) gaps tip
    → insert_sorted (a, b) (place n gaps) ≡ place n ((a, b) ∷ gaps)
unfolding insert_sorted place Rises
insert_sorted-place [] a b n tip h r = ground arith
insert_sorted-place ((c, d) ∷ gaps) a b n tip h (p, q, r) = ground arith

pub sorted-place :
    (gaps : List Gap) (n low tip : ℕ)
    → Rises low gaps tip
    → sorted (gaps ++ (n, n) ∷ []) ≡ place n gaps
unfolding sorted insert_sorted place Rises
sorted-place [] n low tip r = refl
sorted-place ((a, b) ∷ gaps) n low tip (p, q, r) =
    ap (insert_sorted (a, b)) (sorted-place gaps n (b + 2) tip r)
    ∙ insert_sorted-place gaps a b n tip q r

-- A range that may touch or overlap the next one.
unfoldable pub extend : ℕ → ℕ → List Gap → List Gap
extend a h [] = (a, h) ∷ []
extend a h ((c, d) ∷ gaps) = if leb c (h + 1) then (a, max d h) ∷ gaps else (a, h) ∷ (c, d) ∷ gaps

-- The ranges with a number.
unfoldable pub join : ℕ → List Gap → List Gap
unfolding extend
join n [] = (n, n) ∷ []
join n ((a, b) ∷ gaps) =
    let rest = join n gaps in
    if leb_Gap (a, b) (n, n)
    then if leb n (b + 1) then extend a (max n b) gaps else (a, b) ∷ rest
    else extend n n ((a, b) ∷ gaps)

join_from-Rises :
    (gaps : List Gap) (a b tip : ℕ)
    → a ≤ b
    → Rises (b + 2) gaps tip
    → join_from a b gaps ≡ ok ((a, b) ∷ gaps)
unfolding join_from Rises
join_from-Rises [] a b tip h r = refl
join_from-Rises ((c, d) ∷ gaps) a b tip h (p, q, r) =
    ground (arith, join_from-Rises gaps c d tip q r)

join_from-extend :
    (gaps : List Gap) (a h tip : ℕ)
    → a ≤ h
    → Rises h gaps tip
    → join_from a h gaps ≡ ok (extend a h gaps)
unfolding join_from extend Rises
join_from-extend [] a h tip le r = refl
join_from-extend ((c, d) ∷ gaps) a h tip le (p, q, r) =
    let reach : max d h ≡ d = ground arith in
    let touching : join_from a (max d h) gaps ≡ ok ((a, max d h) ∷ gaps) =
      join_from-Rises gaps a (max d h) tip (omega arith)
        (subst (λ m. Rises (m + 2) gaps tip) (sym reach) r) in
    let apart = join_from-Rises gaps c d tip q r in ground (arith, touching, apart)

join_from-near :
    (gaps : List Gap) (a b n tip : ℕ)
    → a ≤ b
    → a ≤ n
    → n ≤ b + 1
    → Rises (b + 2) gaps tip
    → join_from a b ((n, n) ∷ gaps) ≡ ok (extend a (max n b) gaps)
unfolding join_from
join_from-near gaps a b n tip le from to r =
    let joined =
      join_from-extend gaps a (max n b) tip (ground arith)
        (lower-Rises gaps (max n b) (b + 2) tip (ground arith) r) in
    ground (arith, joined)

join_from-apart :
    (gaps : List Gap) (a b c d : ℕ)
    → a ≤ b
    → b + 2 ≤ c
    → join_from a b ((c, d) ∷ gaps) ≡ cons_ok (a, b) (join_from c d gaps)
unfolding join_from
join_from-apart gaps a b c d le apart = ground arith

join_from-place :
    (gaps : List Gap) (a b n tip : ℕ)
    → a ≤ b
    → a ≤ n
    → Rises (b + 2) gaps tip
    → join_from a b (place n gaps)
      ≡ ok (if leb n (b + 1) then extend a (max n b) gaps else (a, b) ∷ join n gaps)
unfolding place join Rises
join_from-place [] a b n tip le from r = elim (Bool-cases (leb n (b + 1))) [
  | inl near ↦ rw near (join_from-near [] a b n tip le from (ground arith) r)
  | inr far ↦ rw far (
      join_from-apart [] a b n n le (ground arith)
      ∙ ap (cons_ok (a, b))
          (join_from-Rises [] n n (n + 2) (omega arith) (unfold Rises in omega arith)))
]
join_from-place ((c, d) ∷ gaps) a b n tip le from (p, q, r) =
    elim (Bool-cases (leb_Gap (c, d) (n, n))) [
      | inl before ↦
          let rest = join_from-place gaps c d n tip q (ground arith) r in
          let far : leb n (b + 1) ≡ false = ground arith in
          rw (before, far) (join_from-apart (place n gaps) a b c d le p ∙ ap (cons_ok (a, b)) rest)
      | inr after ↦
          let rest = join_from-extend ((c, d) ∷ gaps) n n tip (omega arith) (ground arith, q, r) in
          elim (Bool-cases (leb n (b + 1))) [
            | inl near ↦
                rw (after, near)
                  (join_from-near ((c, d) ∷ gaps) a b n tip le from (ground arith) (p, q, r))
            | inr far ↦
                rw (after, far)
                  (join_from-apart ((c, d) ∷ gaps) a b n n le (ground arith)
                    ∙ ap (cons_ok (a, b)) rest)
          ]
    ]

pub join_overlapping_gaps-place :
    (gaps : List Gap) (n low tip : ℕ)
    → Rises low gaps tip
    → join_overlapping_gaps (place n gaps) ≡ ok (join n gaps)
unfolding join_overlapping_gaps place join join_from Rises
join_overlapping_gaps-place [] n low tip r = refl
join_overlapping_gaps-place ((c, d) ∷ gaps) n low tip (p, q, r) =
    elim (Bool-cases (leb_Gap (c, d) (n, n))) [
      | inl before ↦ rw before (join_from-place gaps c d n tip q (ground arith) r)
      | inr after ↦
          rw after (join_from-extend ((c, d) ∷ gaps) n n tip (omega arith) (ground arith, q, r))
    ]

pub extend-Rises :
    (gaps : List Gap) (low a h tip : ℕ)
    → low ≤ a
    → a ≤ h
    → h < tip
    → Rises h gaps tip
    → Rises low (extend a h gaps) (tip + 1)
unfolding extend Rises
extend-Rises [] low a h tip p le below r = (p, le, omega arith)
extend-Rises ((c, d) ∷ gaps) low a h tip p le below (p', q, r) =
    let more = tail-Rises gaps (d + 2) tip r in
    elim (Bool-cases (leb c (h + 1))) [
      | inl touching ↦
          let reach : max d h ≡ d = ground arith in rw (touching, reach) (p, omega arith, more)
      | inr apart ↦ rw apart (p, le, (ground arith, q, more))
    ]

in_ranges-extend :
    (gaps : List Gap) (b a h tip : ℕ)
    → a ≤ h
    → Rises h gaps tip
    → in_ranges b (extend a h gaps) tip ≡ ((leb a b && leb b h) || in_ranges b gaps tip)
unfolding extend in_ranges Rises
in_ranges-extend [] b a h tip le r = ground arith
in_ranges-extend ((c, d) ∷ gaps) b a h tip le (p, q, r) = ground arith

pub join-Rises :
    (gaps : List Gap) (n low tip : ℕ)
    → Rises low gaps tip
    → low ≤ n
    → n < tip
    → Rises low (join n gaps) (tip + 1)
unfolding join Rises
join-Rises [] n low tip r le h = (le, omega arith, omega arith)
join-Rises ((a, b) ∷ gaps) n low tip (p, q, r) le h = elim (Bool-cases (leb_Gap (a, b) (n, n))) [
  | inl before ↦ elim (Bool-cases (leb n (b + 1))) [
    | inl near ↦
        let from = lower-Rises gaps (max n b) (b + 2) tip (ground arith) r in
        rw (before, near)
          (extend-Rises gaps low a (max n b) tip p (ground arith)
            (ground (arith, Rises-le gaps (b + 2) tip r)) from)
    | inr far ↦ rw (before, far) (p, q, join-Rises gaps n (b + 2) tip r (ground arith) h)
  ]
  | inr after ↦
      rw after (extend-Rises ((a, b) ∷ gaps) low n n tip le (omega arith) h (ground arith, q, r))
]

pub in_ranges-join :
    (gaps : List Gap) (b n low tip : ℕ)
    → Rises low gaps tip
    → n < tip
    → in_ranges b (join n gaps) tip ≡ (in_ranges b gaps tip || b == n)
unfolding join in_ranges Rises
in_ranges-join [] b n low tip r h = ground arith
in_ranges-join ((c, d) ∷ gaps) b n low tip (p, q, r) h =
    let below = in_ranges-below gaps b (d + 2) tip r in
    elim (Bool-cases (leb_Gap (c, d) (n, n))) [
      | inl before ↦ elim (Bool-cases (leb n (d + 1))) [
        | inl near ↦
            let from = lower-Rises gaps (max n d) (d + 2) tip (ground arith) r in
            let joined = in_ranges-extend gaps b c (max n d) tip (ground arith) from in
            rw (before, near) (joined ∙ ground (arith, below))
        | inr far ↦
            let rest = in_ranges-join gaps b n (d + 2) tip r h in
            rw (before, far) (ground (arith, rest))
      ]
      | inr after ↦
          let joined =
            in_ranges-extend ((c, d) ∷ gaps) b n n tip (omega arith) (ground arith, q, r) in
          rw after (joined ∙ ground arith)
    ]
