-- ===== src/Stack/Views.antt =====
-- The stack as the list of the numbers that its items stand for. What a call gives back is compared
-- as numbers too: that it is an integer or bytes, and how many bytes, is forgotten.
use veda_bvm.Common.{
  ℕ, zero, suc, ◌≡◌, refl, List, [], ◌∷◌, Option, none, some, map, arith, ltb, leb, ◌==◌,
  if◌then◌else◌, length, get_elem?, set, take, drop, length-map, map-take, map-drop, map-set,
  get_elem?-map, Option-cases, inl, inr,
}
use veda_bvm.Common.Int.{ℤ, pos, negsuc}
use veda_bvm.Exceptions.{Result, ok, err, Action, ◌>>=◌, ◌>>◌, pure, validation_error}
use veda_bvm.External.{EthUtils}
use veda_bvm.Numeric.{uint_256_max}
use veda_bvm.Stack.Bounds.{Fits}
use veda_bvm.Stack.Calls.{Call}
use veda_bvm.Stack.{
  Item, Stack, int, bytes, full_stack, insufficient_stack, push_int, push_bytes, swap, dup,
  pop1_int, pop1_bytes, pop1_any, pop_ints, pop_bytes, pop_any, to_int, to_bytes,
}

-- The same calls on a list of numbers, with the exceptions that they raise.
spec_push : ℕ → Action (List ℕ) (List ℕ)
spec_push value ws = if ltb 1023 (length ws) then (err full_stack, ws) else (ok [], value ∷ ws)

spec_refuse : Action (List ℕ) (List ℕ)
spec_refuse ws = (if ltb 1023 (length ws) then err full_stack else err validation_error, ws)

spec_pop : ℕ → Action (List ℕ) (List ℕ)
spec_pop n ws =
    if ltb (length ws) n then (err insufficient_stack, ws) else (ok (take n ws), drop n ws)

-- Asked for no item at all, the popping calls give up the whole stack.
spec_pop_all : Action (List ℕ) (List ℕ)
spec_pop_all ws = (ok ws, [])

spec_swap : ℕ → Option ℕ → Action (List ℕ) (List ℕ)
spec_swap n (some w) (top ∷ ws) = (ok [], set (w ∷ ws) n top)
spec_swap n _ ws = (err insufficient_stack, ws)

spec_dup : Option ℕ → Action (List ℕ) (List ℕ)
spec_dup peeked ws =
    if ltb 1023 (length ws)
    then (err full_stack, ws)
    else elim peeked [ none ↦ (err insufficient_stack, ws) | some w ↦ (ok [], w ∷ ws) ]

module _ ⦃eth : EthUtils⦄ where
  pub spec : Call → Action (List ℕ) (List ℕ)
  spec (Call.push_int (pos n)) ws = if leb n uint_256_max then spec_push n ws else spec_refuse ws
  spec (Call.push_int (negsuc n)) ws = spec_refuse ws
  spec (Call.push_bytes bs) ws =
      if leb (length bs) 32 then spec_push (eth.big_endian_to_int bs) ws else spec_refuse ws
  spec Call.pop1_int ws = spec_pop 1 ws
  spec Call.pop1_bytes ws = spec_pop 1 ws
  spec Call.pop1_any ws = spec_pop 1 ws
  spec (Call.pop_ints n) ws = if n == 0 then spec_pop_all ws else spec_pop n ws
  spec (Call.pop_bytes n) ws = if n == 0 then spec_pop_all ws else spec_pop n ws
  spec (Call.pop_any n) ws = if n == 0 then spec_pop_all ws else spec_pop n ws
  spec (Call.swap n) ws = spec_swap n (get_elem? ws n) ws
  spec (Call.dup zero) ws = (ok [], ws)
  spec (Call.dup (suc n)) ws = spec_dup (get_elem? ws n) ws

  -- A call, with the numbers that its results stand for.
  pub run : Call → Action Stack (List ℕ)
  run (Call.push_int z) = do push_int z; pure []
  run (Call.push_bytes bs) = do push_bytes bs; pure []
  run Call.pop1_int = do n ← pop1_int; pure (n ∷ [])
  run Call.pop1_bytes = do bs ← pop1_bytes; pure (eth.big_endian_to_int bs ∷ [])
  run Call.pop1_any = do item ← pop1_any; pure (to_int item ∷ [])
  run (Call.pop_ints n) = pop_ints n
  run (Call.pop_bytes n) = do all ← pop_bytes n; pure (map eth.big_endian_to_int all)
  run (Call.pop_any n) = do all ← pop_any n; pure (map to_int all)
  run (Call.swap n) = do swap n; pure []
  run (Call.dup n) = do dup n; pure []

  abbrev pub numbers : Result (List ℕ) × Stack → Result (List ℕ) × List ℕ
  numbers (r, s) = (r, map to_int s)

  to_int-to_bytes : (item : Item) → eth.big_endian_to_int (to_bytes item) ≡ to_int item
  unfolding to_int to_bytes
  to_int-to_bytes (int value) = eth.to_int-to_bytes value
  to_int-to_bytes (bytes value) = refl

  run-push_int :
      (z : ℤ) (s : Stack)
      → numbers (run (Call.push_int z) s) ≡ spec (Call.push_int z) (map to_int s)
  unfolding run spec spec_push spec_refuse push_int to_int
  run-push_int (pos n) s = ground (arith, length-map to_int s)
  run-push_int (negsuc n) s = ground (arith, length-map to_int s)

  run-push_bytes :
      (bs : List ℕ) (s : Stack)
      → numbers (run (Call.push_bytes bs) s) ≡ spec (Call.push_bytes bs) (map to_int s)
  unfolding run spec spec_push spec_refuse push_bytes to_int
  run-push_bytes bs s = ground (arith, length-map to_int s)

  run-swap : (n : ℕ) (s : Stack) → numbers (run (Call.swap n) s) ≡ spec (Call.swap n) (map to_int s)
  unfolding run spec spec_swap swap to_int
  run-swap n [] = ground arith
  run-swap n (top ∷ s) = elim (Option-cases (get_elem? (top ∷ s) n)) [
    | inl missing ↦ ground (arith, get_elem?-map to_int (top ∷ s) n)
    | inr (item, e) ↦
        ground (arith, get_elem?-map to_int (top ∷ s) n, map-set to_int (item ∷ s) n top)
  ]

  run-dup :
      (n : ℕ) (s : Stack)
      → numbers (run (Call.dup (suc n)) s) ≡ spec (Call.dup (suc n)) (map to_int s)
  unfolding run spec spec_dup dup to_int
  run-dup n s = elim (Option-cases (get_elem? s n)) [
    | inl missing ↦ ground (arith, get_elem?-map to_int s n, length-map to_int s)
    | inr (item, e) ↦ ground (arith, get_elem?-map to_int s n, length-map to_int s)
  ]

  map-to_bytes :
      (items : List Item) → map eth.big_endian_to_int (map to_bytes items) ≡ map to_int items
  map-to_bytes [] = refl
  map-to_bytes (item ∷ items) = cc (to_int-to_bytes item, map-to_bytes items)

  run-pop_any :
      (n : ℕ) (s : Stack) → numbers (run (Call.pop_any n) s) ≡ spec (Call.pop_any n) (map to_int s)
  unfolding run spec spec_pop spec_pop_all pop_any
  run-pop_any n s = ground (arith, length-map to_int s, map-take to_int n s, map-drop to_int n s)

  run-pop_ints :
      (n : ℕ) (s : Stack)
      → numbers (run (Call.pop_ints n) s) ≡ spec (Call.pop_ints n) (map to_int s)
  unfolding run spec spec_pop spec_pop_all pop_ints
  run-pop_ints n s = ground (arith, length-map to_int s, map-take to_int n s, map-drop to_int n s)

  run-pop_bytes :
      (n : ℕ) (s : Stack)
      → numbers (run (Call.pop_bytes n) s) ≡ spec (Call.pop_bytes n) (map to_int s)
  unfolding run spec spec_pop spec_pop_all pop_bytes
  run-pop_bytes n s = ground (
    arith,
    length-map to_int s,
    map-take to_int n s,
    map-drop to_int n s,
    map-to_bytes s,
    map-to_bytes (take n s),
  )

  -- Read as numbers, what a call returns and the stack that it leaves are those of its counterpart on
  -- the numbers of the items, and it raises the same exception. The arguments fit, and a dup of
  -- position 0 is excluded.
  pub run-spec :
      (call : Call) (s : Stack) → Fits call → numbers (run call s) ≡ spec call (map to_int s)
  run-spec (Call.push_int z) s f = run-push_int z s
  run-spec (Call.push_bytes bs) s f = run-push_bytes bs s
  run-spec Call.pop1_int [] f = unfold run spec spec_pop pop1_int in refl
  run-spec Call.pop1_bytes [] f = unfold run spec spec_pop pop1_bytes in refl
  run-spec Call.pop1_any [] f = unfold run spec spec_pop pop1_any in refl
  run-spec Call.pop1_int (item ∷ s) f = unfold run spec spec_pop pop1_int in ground arith
  run-spec Call.pop1_bytes (item ∷ s) f =
      unfold run spec spec_pop pop1_bytes in ground (arith, to_int-to_bytes item)
  run-spec Call.pop1_any (item ∷ s) f = unfold run spec spec_pop pop1_any in ground arith
  run-spec (Call.pop_ints n) s f = run-pop_ints n s
  run-spec (Call.pop_bytes n) s f = run-pop_bytes n s
  run-spec (Call.pop_any n) s f = run-pop_any n s
  run-spec (Call.swap n) s f = run-swap n s
  run-spec (Call.dup zero) s f = elim f [ ]
  run-spec (Call.dup (suc n)) s f = run-dup n s
