-- ===== src/Computation/MemoryGas.antt =====
-- What memory costs: the gas left and the cost of the memory held add up to the same before and
-- after each extension.
use native.Mathlib.Nat.{pow-le-pow_left}
use veda_bvm.Common.{
  ℕ, ◌+◌, ◌-◌, ◌*◌, ◌/◌, ◌%◌, ◌^◌, ◌≤◌, ◌<◌, ◌≡◌, sym, ◌∙◌, ap, ◌⊎◌, arith, ltb, leb, ◌==◌, length,
  Bool-cases, ==_iff, inl, inr,
}
use veda_bvm.Computation.{Computation, memory_gas_cost, extend_memory}
use veda_bvm.Exceptions.{ok, err}
use veda_bvm.Gas.{out_of_gas, consume_gas}
use veda_bvm.Memory.{Memory, extend}
use veda_bvm.Memory.Access.{extend_lem}
use veda_bvm.Numeric.{ceil32}

ceil32_whole : (n : ℕ) → ceil32 n % 32 ≡ 0
unfolding ceil32
ceil32_whole n = ground arith

-- More words cost more.
cost_strict : (w v : ℕ) → w < v → w * 3 + w ^ 2 / 512 < v * 3 + v ^ 2 / 512
cost_strict w v h =
    let squares : w ^ 2 ≤ v ^ 2 = pow-le-pow_left (omega arith) 2 in omega (arith, squares)

pub memory_gas_cost_strict : (m n : ℕ) → ceil32 m < ceil32 n → memory_gas_cost m < memory_gas_cost n
unfolding memory_gas_cost
memory_gas_cost_strict m n h = cost_strict (ceil32 m / 32) (ceil32 n / 32) (
    let wm : ceil32 m % 32 ≡ 0 = ceil32_whole m in
    let wn : ceil32 n % 32 ≡ 0 = ceil32_whole n in omega (arith, h, wm, wn))

pub memory_gas_cost_weak : (m n : ℕ) → ceil32 m ≤ ceil32 n → memory_gas_cost m ≤ memory_gas_cost n
unfolding memory_gas_cost
memory_gas_cost_weak m n h = elim (Bool-cases (ltb (ceil32 m) (ceil32 n))) [
  | inl less ↦ omega (arith, memory_gas_cost_strict m n (ground arith))
  | inr same ↦ let e : ceil32 m ≡ ceil32 n = ground arith in rw e (omega arith)
]

ceil32_words : (n : ℕ) → n % 32 ≡ 0 → ceil32 n ≡ n
unfolding ceil32
ceil32_words n h = ground arith

extend_nothing : (start size : ℕ) (m : Memory) → size ≡ 0 → extend start size m ≡ m
unfolding extend
extend_nothing start size m h = ground arith

module _ (start size : ℕ) (c : Computation) (hs : start < 2 ^ 256) (hz : size < 2 ^ 256) where
  before_cost : ℕ
  before_cost = memory_gas_cost (ceil32 (length c.memory))

  after_cost : ℕ
  after_cost = memory_gas_cost (ceil32 (start + size))

  extend_memory_nothing : size ≡ 0 → extend_memory start size c ≡ (ok tt, c)
  unfolding extend_memory
  extend_memory_nothing h = ground arith

  extend_memory_paid :
      0 < size
      → after_cost ≤ before_cost
      → extend_memory start size c ≡ (ok tt, record c { memory = extend start size c.memory })
  unfolding extend_memory before_cost after_cost
  extend_memory_paid h free = ground arith

  extend_memory_charged :
      0 < size
      → before_cost < after_cost
      → after_cost - before_cost ≤ c.gas_meter.gas_remaining
      → extend_memory start size c ≡ (
        ok tt,
        record c {
          memory = extend start size c.memory;
          gas_meter = record c.gas_meter {
            gas_remaining = c.gas_meter.gas_remaining - (after_cost - before_cost);
          };
        },
      )
  unfolding extend_memory before_cost after_cost consume_gas
  extend_memory_charged h more enough = ground arith

  extend_memory_short :
      0 < size
      → before_cost < after_cost
      → c.gas_meter.gas_remaining < after_cost - before_cost
      → extend_memory start size c ≡ (err out_of_gas, c)
  unfolding extend_memory before_cost after_cost consume_gas
  extend_memory_short h more short = ground arith

  module _ (whole : length c.memory % 32 ≡ 0) where
    before_cost_whole : before_cost ≡ memory_gas_cost (length c.memory)
    unfolding before_cost
    before_cost_whole = ap memory_gas_cost (ceil32_words (length c.memory) whole)

    -- The end of the range lies in memory, and so nothing grows, or beyond it.
    costs :
        0 < size
        → ((after_cost ≤ before_cost)
            × (memory_gas_cost (length (extend start size c.memory)) ≡ before_cost))
          ⊎ ((before_cost < after_cost)
              × (memory_gas_cost (length (extend start size c.memory)) ≡ after_cost))
    unfolding before_cost after_cost
    costs h =
        let grown = (extend_lem start size c.memory h whole).0 in
        let same_words = ceil32_words (length c.memory) whole in
        let end = ceil32_words (ceil32 (start + size)) (ceil32_whole (start + size)) in
        let old = ceil32_words (ceil32 (length c.memory)) (ceil32_whole (length c.memory)) in
        elim (Bool-cases (ltb (ceil32 (length c.memory)) (ceil32 (start + size)))) [
          | inl more ↦ inr (
            memory_gas_cost_strict _ _ (ground (arith, end, old)),
            ap memory_gas_cost (ground (arith, grown, same_words)),
          )
          | inr fits ↦ inl (
            memory_gas_cost_weak _ _ (ground (arith, end, old)),
            ap memory_gas_cost (ground (arith, grown, same_words)),
          )
        ]

-- What `extend_memory` takes for granted, and what it leaves, on every branch.
pub extend_memory_lem :
    (start size : ℕ) (c : Computation)
    → start < 2 ^ 256
    → size < 2 ^ 256
    → length c.memory % 32 ≡ 0
    → ((left : ℕ) × (extend_memory start size c ≡ (
      ok tt,
      record c {
        memory = extend start size c.memory;
        gas_meter = record c.gas_meter { gas_remaining = left };
      },
    ))
        × (left + memory_gas_cost (length (extend start size c.memory))
            ≡ c.gas_meter.gas_remaining + memory_gas_cost (length c.memory)))
      ⊎ ((0 < size)
          × (c.gas_meter.gas_remaining + memory_gas_cost (length c.memory)
              < memory_gas_cost (ceil32 (start + size)))
          × (extend_memory start size c ≡ (err out_of_gas, c)))
extend_memory_lem start size c hs hz whole = elim (Bool-cases (size == 0)) [
  | inl nothing ↦
      let e : size ≡ 0 = (==_iff size 0).0 nothing in
      let same = extend_nothing start size c.memory e in
      inl (
        c.gas_meter.gas_remaining,
        extend_memory_nothing start size c hs hz e
            ∙ ap (λ m. (ok tt, record c { memory = m })) (sym same),
        ap (λ m. c.gas_meter.gas_remaining + memory_gas_cost (length m)) same,
      )
  | inr other ↦
      let positive : 0 < size = ground arith in
      let before = before_cost_whole start size c hs hz whole in
      elim (costs start size c hs hz whole positive) [
        | inl (free, same) ↦ inl (
          c.gas_meter.gas_remaining,
          extend_memory_paid start size c hs hz positive free,
          omega (arith, same, before),
        )
        | inr (more, same) ↦
            elim (Bool-cases (
              leb (after_cost start size c hs hz - before_cost start size c hs hz)
                c.gas_meter.gas_remaining)) [
                  | inl enough ↦
                      let h : after_cost start size c hs hz - before_cost start size c hs hz
                          ≤ c.gas_meter.gas_remaining =
                        ground arith in
                      inl (
                        c.gas_meter.gas_remaining
                            - (after_cost start size c hs hz - before_cost start size c hs hz),
                        extend_memory_charged start size c hs hz positive more h,
                        omega (arith, same, before, more, h),
                      )
                  | inr short ↦
                      let h : c.gas_meter.gas_remaining
                          < after_cost start size c hs hz - before_cost start size c hs hz =
                        ground arith in
                      inr (
                        positive,
                        (unfold after_cost in omega (arith, before, more, h)),
                        extend_memory_short start size c hs hz positive more h,
                      )
                ]
      ]
]
