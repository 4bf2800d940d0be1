-- ===== src/Stack/Tests.antt =====
-- Runs of the stack's calls, and the theorems at concrete stacks.
use veda_bvm.Common.{◌≡◌, refl, arith, [], ◌∷◌, map}
use veda_bvm.Common.Int.{negsuc}
use veda_bvm.Exceptions.{ok, err, validation_error}
use veda_bvm.External.Reference.{reference, read, write}
use veda_bvm.Stack.{
  Stack, int, bytes, insufficient_stack, push_int, swap, dup, pop_ints, pop_bytes, to_int,
}
use veda_bvm.Stack.Bounds.{IsValid, after, after-IsValid}
use veda_bvm.Stack.Calls.{Call}
use veda_bvm.Stack.Views.{run, numbers, spec, run-spec}

abbrev three_items : Stack
three_items = int 7 ∷ bytes (1 ∷ 2 ∷ []) ∷ int 9 ∷ []

swap-three_items : swap 2 three_items ≡ (ok tt, int 9 ∷ bytes (1 ∷ 2 ∷ []) ∷ int 7 ∷ [])
unfolding swap
swap-three_items = refl

dup-three_items : dup 4 three_items ≡ (err insufficient_stack, three_items)
unfolding dup
dup-three_items = refl

pop_ints-three_items : pop_ints 2 three_items ≡ (ok (7 ∷ 258 ∷ []), int 9 ∷ [])
unfolding pop_ints read
pop_ints-three_items = refl

pop_bytes-three_items : pop_bytes 1 (int 258 ∷ []) ≡ (ok ((1 ∷ 2 ∷ []) ∷ []), [])
unfolding pop_bytes write
pop_bytes-three_items = refl

push_int-negative : push_int (negsuc 0) three_items ≡ (err validation_error, three_items)
unfolding push_int
push_int-negative = refl

three_items-IsValid : IsValid three_items
three_items-IsValid = omega arith

after-IsValid_example : IsValid (after (Call.push_bytes (0xff ∷ [])) three_items)
after-IsValid_example =
    after-IsValid (Call.push_bytes (0xff ∷ [])) three_items (omega arith) three_items-IsValid

run-spec_example :
    numbers (run (Call.pop_bytes 2) three_items) ≡ spec (Call.pop_bytes 2) (map to_int three_items)
run-spec_example = run-spec (Call.pop_bytes 2) three_items tt
