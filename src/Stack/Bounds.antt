-- ===== src/Stack/Bounds.antt =====
-- The well-formedness of a stack, and what the calls keep of it.
use veda_bvm.Common.{
  ℕ, zero, suc, ◌^◌, ◌≤◌, ◌<◌, sym, subst, List, [], ◌∷◌, map, ⊤, arith, length, get_elem?, All,
  All-drop, All-set, All-get_elem?, length-drop, length-set, Option-cases, inl, inr,
}
use veda_bvm.Common.Int.{ℤ, pos, negsuc}
use veda_bvm.Exceptions.{bind_pure-state}
use veda_bvm.External.{EthUtils, IsBytes}
use veda_bvm.Stack.Calls.{Call}
use veda_bvm.Stack.{
  pop_typed, Item, int, bytes, Stack, push_int, push_bytes, pop_slice, swap, dup, pop1_int,
  pop1_bytes, pop1_any, pop_ints, pop_bytes, pop_any, to_int, to_bytes,
}

-- An item that fits a 256-bit word: an integer below the ceiling, or at most 32 bytes.
abbrev pub IsWord : Item → Type 0
IsWord (int value) = value < 2 ^ 256
IsWord (bytes value) = (length value ≤ 32) × IsBytes value

pub record IsValid (s : Stack) : Type 0 where
  pub bounded : length s ≤ 1024
  pub words : All IsWord s

push_int-IsValid : (z : ℤ) (s : Stack) → IsValid s → IsValid (push_int z s).1
unfolding push_int
push_int-IsValid (pos n) s h = ground arith
push_int-IsValid (negsuc n) s h = ground arith

push_bytes-IsValid :
    (bs : List ℕ) (s : Stack) → IsBytes bs → IsValid s → IsValid (push_bytes bs s).1
unfolding push_bytes
push_bytes-IsValid bs s hb h = ground arith

pop_typed-IsValid : (s : Stack) → IsValid s → IsValid (pop_typed s).1
unfolding pop_typed
pop_typed-IsValid [] h = h
pop_typed-IsValid (item ∷ s) h = ground arith

pop_slice-IsValid : (n : ℕ) (s : Stack) → IsValid s → IsValid (pop_slice n s).1
unfolding pop_slice
pop_slice-IsValid n s h = ground (arith, length-drop n s, All-drop IsWord n s h.words)

dup-IsValid : (n : ℕ) (s : Stack) → IsValid s → IsValid (dup (suc n) s).1
unfolding dup
dup-IsValid n s h = elim (Option-cases (get_elem? s n)) [
  | inl missing ↦ ground arith
  | inr (item, e) ↦ ground (arith, All-get_elem? IsWord s n h.words e)
]

swap-IsValid : (n : ℕ) (s : Stack) → IsValid s → IsValid (swap n s).1
unfolding swap
swap-IsValid n [] h = ground arith
swap-IsValid n (top ∷ s) h = elim (Option-cases (get_elem? (top ∷ s) n)) [
  | inl missing ↦ ground arith
  | inr (item, e) ↦
      let word : IsWord item = All-get_elem? IsWord (top ∷ s) n h.words e in
      rw e (record {
        bounded = omega (arith, length-set (item ∷ s) n top, h.bounded);
        words = All-set IsWord (item ∷ s) n top (word, h.words.1) h.words.0;
      })
]

-- What Python's types promise of the arguments, and that `dup` is not asked for position 0.
abbrev pub Fits : Call → Type 0
Fits (Call.push_bytes bs) = IsBytes bs
Fits (Call.dup n) = 0 < n
Fits _ = ⊤

module _ ⦃eth : EthUtils⦄ where
  -- The stack that a call leaves, whether it returns or raises.
  pub after : Call → Stack → Stack
  after (Call.push_int z) s = (push_int z s).1
  after (Call.push_bytes bs) s = (push_bytes bs s).1
  after Call.pop1_int s = (pop1_int s).1
  after Call.pop1_bytes s = (pop1_bytes s).1
  after Call.pop1_any s = (pop1_any s).1
  after (Call.pop_ints n) s = (pop_ints n s).1
  after (Call.pop_bytes n) s = (pop_bytes n s).1
  after (Call.pop_any n) s = (pop_any n s).1
  after (Call.swap n) s = (swap n s).1
  after (Call.dup n) s = (dup n s).1

  -- Every call, returning or raising, leaves at most 1024 items, all of them words.
  pub after-IsValid : (call : Call) (s : Stack) → Fits call → IsValid s → IsValid (after call s)
  unfolding after pop1_int pop1_bytes pop1_any pop_ints pop_bytes pop_any
  after-IsValid (Call.push_int z) s f h = push_int-IsValid z s h
  after-IsValid (Call.push_bytes bs) s f h = push_bytes-IsValid bs s f h
  after-IsValid Call.pop1_int s f h =
      subst IsValid (sym (bind_pure-state pop_typed to_int s)) (pop_typed-IsValid s h)
  after-IsValid Call.pop1_bytes s f h =
      subst IsValid (sym (bind_pure-state pop_typed to_bytes s)) (pop_typed-IsValid s h)
  after-IsValid Call.pop1_any s f h = pop_typed-IsValid s h
  after-IsValid (Call.pop_ints n) s f h =
      subst IsValid (sym (bind_pure-state (pop_slice n) (map to_int) s)) (pop_slice-IsValid n s h)
  after-IsValid (Call.pop_bytes n) s f h =
      subst IsValid (sym (bind_pure-state (pop_slice n) (map to_bytes) s)) (pop_slice-IsValid n s h)
  after-IsValid (Call.pop_any n) s f h = pop_slice-IsValid n s h
  after-IsValid (Call.swap n) s f h = swap-IsValid n s h
  after-IsValid (Call.dup (suc n)) s f h = dup-IsValid n s h
  after-IsValid (Call.dup zero) s f h = elim f [ ]
