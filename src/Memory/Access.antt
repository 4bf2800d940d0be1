-- ===== src/Memory/Access.antt =====
-- What is read from memory after a write or an extension.
use native.Mathlib.Decide.{dec_lt, ℕ_discrete}
use veda_bvm.Common.{
  ℕ, suc, ◌+◌, ◌-◌, ◌%◌, ◌^◌, ◌≤◌, ◌<◌, ◌≡◌, refl, ap, ◌∙◌, ◌⊎◌, max, List, [], ◌∷◌, ◌++◌, none,
  some, arith, ltb, leb, if◌then◌else◌, length, length-set, length-append, length-replicate, set,
  get_elem?, get_elem?-set_self, get_elem?-set_ne, get_elem?-ext, get_elem?-take, get_elem?-drop,
  get_elem?-append, get_elem?-replicate, get_elem?-none, replicate,
}
use veda_bvm.Exceptions.{ok}
use veda_bvm.Numeric.{ceil32}
use veda_bvm.Numeric.Laws.{ceil_xx_least}
use veda_bvm.Memory.{Memory, extend, write_bytes, write, read_bytes}

length-write_bytes :
    (p : ℕ) (value : List ℕ) (m : Memory) → length (write_bytes p value m) ≡ length m
unfolding write_bytes
length-write_bytes p [] m = refl
length-write_bytes p (v ∷ value) m =
    omega (arith, length-write_bytes (p + 1) value (set m p v), length-set m p v)

-- A byte of the range that is written comes from the value, any other from before.
get_elem?-write_bytes :
    (p : ℕ) (value : List ℕ) (m : Memory) (i : ℕ)
    → p + length value ≤ length m
    → get_elem? (write_bytes p value m) i ≡ (
        if ltb i p
        then get_elem? m i
        else if ltb i (p + length value)
        then get_elem? value (i - p)
        else get_elem? m i)
unfolding write_bytes
get_elem?-write_bytes p [] m i h = ground arith
get_elem?-write_bytes p (v ∷ value) m i h =
    let rest =
      get_elem?-write_bytes (p + 1) value (set m p v) i (omega (arith, length-set m p v)) in
    elim (dec_lt i p) [
      | yes before ↦ ground (arith, rest, get_elem?-set_ne m {i = p} {j = i} v (omega arith))
      | no from ↦ elim (ℕ_discrete i p) [
        | yes here ↦
            let zero_offset : i - p ≡ 0 = omega arith in
            rw (zero_offset, here)
              (ground (arith, rw here at rest, get_elem?-set_self m p v (omega arith)))
        | no past ↦
            let offset : i - p ≡ suc (i - (p + 1)) = omega arith in
            rw offset (ground (arith, rest, get_elem?-set_ne m {i = p} {j = i} v (omega arith)))
      ]
    ]

read_bytes-write_bytes :
    (p : ℕ) (value : List ℕ) (m : Memory)
    → p + length value ≤ length m
    → read_bytes p (length value) (write_bytes p value m) ≡ value
unfolding read_bytes
read_bytes-write_bytes p value m h = get_elem?-ext _ value λ i.
    get_elem?-take (length value) _ i
    ∙ ground (
      arith,
      get_elem?-drop p (write_bytes p value m) i,
      get_elem?-write_bytes p value m (p + i) h,
      ap (get_elem? value) (omega_sub p i),
      get_elem?-none value i,
    )
  where
    omega_sub : (a b : ℕ) → a + b - a ≡ b
    omega_sub a b = omega arith

-- A write in range succeeds: reading the range back gives the value, every other byte and the
-- length are as they were.
pub write_lem :
    (start size : ℕ) (value : List ℕ) (m : Memory)
    → 0 < size
    → start < 2 ^ 256
    → size < 2 ^ 256
    → length value ≡ size
    → start + size ≤ length m
    → (m' : Memory) × (write start size value m ≡ (ok tt, m'))
      × (read_bytes start size m' ≡ value)
      × (length m' ≡ length m)
      × ((i : ℕ) → (i < start) ⊎ (start + size ≤ i) → get_elem? m' i ≡ get_elem? m i)
unfolding write
write_lem start size value m pos hs hz e fit = (
  write_bytes start value m,
  ground arith,
  rw (← e) (read_bytes-write_bytes start value m (omega arith)),
  length-write_bytes start value m,
  λ i outside. ground (arith, get_elem?-write_bytes start value m i (omega arith)),
)

-- `extend` up to a length `n`.
grow : ℕ → Memory → Memory
grow n m = if leb n (length m) then m else m ++ replicate (n - length m) 0

length-grow : (n : ℕ) (m : Memory) → length (grow n m) ≡ max (length m) n
unfolding grow
length-grow n m =
    ground (
      arith,
      length-append m (replicate (n - length m) 0),
      length-replicate {A = ℕ} (n - length m) 0,
    )

get_elem?-grow :
    (n : ℕ) (m : Memory) (i : ℕ)
    → get_elem? (grow n m) i ≡ (
        if ltb i (length m)
        then get_elem? m i
        else if ltb i (length (grow n m))
        then some 0
        else none)
get_elem?-grow n m i = rw length-grow (
    unfold grow in
    ground (
      arith,
      get_elem?-append m (replicate (n - length m) 0) i,
      get_elem?-replicate {A = ℕ} (n - length m) 0 (i - length m),
      get_elem?-none m i,
    ))

extend-grow :
    (start size : ℕ) (m : Memory) → 0 < size → extend start size m ≡ grow (ceil32 (start + size)) m
unfolding extend grow
extend-grow start size m pos = ground arith

ceil32_least : (n : ℕ) → (ceil32 n % 32 ≡ 0) × (n ≤ ceil32 n) × (ceil32 n < n + 32)
unfolding ceil32
ceil32_least n = ceil_xx_least n 32 (omega arith)

-- An extension keeps every byte, adds zeros, and ends at the next word boundary of the range.
pub extend_lem :
    (start size : ℕ) (m : Memory)
    → 0 < size
    → length m % 32 ≡ 0
    → (length (extend start size m) ≡ max (length m) (ceil32 (start + size)))
      × (length (extend start size m) % 32 ≡ 0)
      × (start + size ≤ length (extend start size m))
      × ((i : ℕ)
          → get_elem? (extend start size m) i ≡ (
              if ltb i (length m)
              then get_elem? m i
              else if ltb i (length (extend start size m))
              then some 0
              else none))
extend_lem start size m pos words =
    let n : ℕ = ceil32 (start + size) in
    let len : length (grow n m) ≡ max (length m) n = length-grow n m in
    rw (extend-grow start size m pos) (
      len,
      ground (arith, len, ceil32_least (start + size)),
      omega (arith, len, ceil32_least (start + size)),
      get_elem?-grow n m,
    )
