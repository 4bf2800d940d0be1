-- ===== src/Stack/Calls.antt =====
-- The calls of the class `Stack`, as data.
use veda_bvm.Common.{ℕ, List}
use veda_bvm.Common.Int.{ℤ}

pub data Call : Type 0 where
  push_int : ℤ → Call
  push_bytes : List ℕ → Call
  pop1_int pop1_bytes pop1_any : Call
  pop_ints pop_bytes pop_any : ℕ → Call
  swap dup : ℕ → Call
