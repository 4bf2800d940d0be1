-- ===== src/Stack.antt =====
-- veda/vm/stack.py: the stack of a computation, with the value tests of veda/validation.py that it
-- applies. The list `values` of the source ends with the top; here the top comes first.
pub mod Calls
pub mod Bounds
pub mod Views
mod Tests
use mathlib.Core.List.{get_last?}
use veda_bvm.Common.{
  ℕ, zero, suc, List, [], ◌∷◌, Option, none, some, map, ⊤, ltb, leb, ◌==◌, if◌then◌else◌, length,
  get_elem?, set, take, drop,
}
use veda_bvm.Common.Int.{ℤ, pos, negsuc}
use veda_bvm.Exceptions.{
  Exception, VmError, Result, ok, err, Action, ◌>>=◌, ◌>>◌, vm_error, validation_error, pure,
  raise_if, gets, modify, lift,
}
use veda_bvm.External.{EthUtils}
use veda_bvm.Numeric.{uint_256_max}

-- The pairs `(int, value)` and `(bytes, value)` of `values`. An integer on the stack has passed
-- `validate_stack_int`, so it is no negative number.
pub data Item : Type 0 where
  int : ℕ → Item
  bytes : List ℕ → Item

abbrev pub Stack : Type 0
Stack = List Item

abbrev pub full_stack : Exception
full_stack = vm_error VmError.full_stack

abbrev pub insufficient_stack : Exception
insufficient_stack = vm_error VmError.insufficient_stack

unfoldable pub validate_stack_int : ℤ → Result ℕ
validate_stack_int (pos value) = if leb value uint_256_max then ok value else err validation_error
validate_stack_int (negsuc _) = err validation_error

unfoldable pub validate_stack_bytes : List ℕ → Result ⊤
validate_stack_bytes value = if leb (length value) 32 then ok tt else err validation_error

unfoldable pub push_int : ℤ → Action Stack ⊤
unfolding validate_stack_int
push_int value = do
  size ← gets length
  raise_if (ltb 1023 size) full_stack
  item ← lift (validate_stack_int value)
  modify (◌∷◌ (int item))

unfoldable pub push_bytes : List ℕ → Action Stack ⊤
unfolding validate_stack_bytes
push_bytes value = do
  size ← gets length
  raise_if (ltb 1023 size) full_stack
  lift (validate_stack_bytes value)
  modify (◌∷◌ (bytes value))

-- `self._pop_typed()` behind the test for an empty stack.
unfoldable pub pop_typed : Action Stack Item
pop_typed [] = (err insufficient_stack, [])
pop_typed (item ∷ rest) = (ok item, rest)

-- The slice and the `del` of the methods that pop several items, the top item first. With
-- `num_items == 0` the slice `values[-0:]` is the whole list.
unfoldable pub pop_slice : ℕ → Action Stack (List Item)
pop_slice num_items = do
  size ← gets length
  raise_if (ltb size num_items) insufficient_stack
  all_popped ← gets (λ s. if num_items == 0 then s else take num_items s)
  modify (λ s. if num_items == 0 then [] else drop num_items s)
  pure all_popped

-- `values[-n]`, where `values[-0]` is the item at the bottom.
unfoldable pub from_end : ℕ → Stack → Option Item
from_end zero s = get_last? s
from_end (suc n) s = get_elem? s n

unfoldable pub or_insufficient : Option Item → Result Item
or_insufficient none = err insufficient_stack
or_insufficient (some item) = ok item

unfoldable pub swap : ℕ → Action Stack ⊤
unfolding from_end or_insufficient
swap position = do
  other ← gets (from_end (suc position))
  item ← lift (or_insufficient other)
  last ← gets (from_end 1)
  top ← lift (or_insufficient last)
  modify (λ s. set (set s 0 item) position top)

unfoldable pub dup : ℕ → Action Stack ⊤
unfolding from_end or_insufficient
dup position = do
  size ← gets length
  raise_if (ltb 1023 size) full_stack
  peeked ← gets (from_end position)
  item ← lift (or_insufficient peeked)
  modify (◌∷◌ item)

module _ ⦃eth : EthUtils⦄ where
  unfoldable pub to_int : Item → ℕ
  to_int (int value) = value
  to_int (bytes value) = eth.big_endian_to_int value

  unfoldable pub to_bytes : Item → List ℕ
  to_bytes (int value) = eth.int_to_big_endian value
  to_bytes (bytes value) = value

  unfoldable pub pop1_bytes : Action Stack (List ℕ)
  unfolding pop_typed to_bytes
  pop1_bytes = do item ← pop_typed; pure (to_bytes item)

  unfoldable pub pop1_int : Action Stack ℕ
  unfolding pop_typed to_int
  pop1_int = do item ← pop_typed; pure (to_int item)

  unfoldable pub pop_ints : ℕ → Action Stack (List ℕ)
  unfolding pop_slice to_int
  pop_ints num_items = do all_popped ← pop_slice num_items; pure (map to_int all_popped)

  unfoldable pub pop_bytes : ℕ → Action Stack (List (List ℕ))
  unfolding pop_slice to_bytes
  pop_bytes num_items = do all_popped ← pop_slice num_items; pure (map to_bytes all_popped)

unfoldable pub pop1_any : Action Stack Item
unfolding pop_typed
pop1_any = pop_typed

unfoldable pub pop_any : ℕ → Action Stack (List Item)
unfolding pop_slice
pop_any = pop_slice
