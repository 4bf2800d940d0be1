-- ===== src/Execution/Refunds.antt =====
-- The gas refund of a computation, over it and its children.
use veda_bvm.Common.{
  ◌≡◌, refl, sym, ap, ◌∙◌, List, [], ◌∷◌, ◌++◌, arith, if◌then◌else◌, Bool-cases, inl, inr,
}
use veda_bvm.Common.Int.{ℤ, pos, negsuc, ◌+ℤ◌}
use veda_bvm.Execution.{
  Frame, Tree, tree, Children, childless, append, is_error, get_gas_refund, get_gas_refunds,
}

add_zero : (a : ℤ) → pos 0 +ℤ a ≡ a
unfolding ◌+ℤ◌
add_zero (pos n) = ground arith
add_zero (negsuc n) = ground arith

add_assoc : (a b c : ℤ) → (a +ℤ b) +ℤ c ≡ a +ℤ (b +ℤ c)
unfolding ◌+ℤ◌
add_assoc (pos a) (pos b) (pos c) = ground arith
add_assoc (pos a) (pos b) (negsuc c) = ground arith
add_assoc (pos a) (negsuc b) (pos c) = ground arith
add_assoc (pos a) (negsuc b) (negsuc c) = ground arith
add_assoc (negsuc a) (pos b) (pos c) = ground arith
add_assoc (negsuc a) (pos b) (negsuc c) = ground arith
add_assoc (negsuc a) (negsuc b) (pos c) = ground arith
add_assoc (negsuc a) (negsuc b) (negsuc c) = ground arith

-- The computations without an error, in none of the computations above them either.
unfoldable mutual
  pub survivors : Tree → List Frame
  survivors (tree f cs) = let below = survivors_of cs in if is_error f then [] else f ∷ below

  pub survivors_of : Children → List Frame
  survivors_of childless = []
  survivors_of (append cs child) = survivors_of cs ++ survivors child

abbrev pub total_refund : List Frame → ℤ
total_refund [] = pos 0
total_refund (f ∷ fs) = f.machine.gas_meter.gas_refunded +ℤ total_refund fs

total_refund-append :
    (xs ys : List Frame) → total_refund (xs ++ ys) ≡ total_refund xs +ℤ total_refund ys
total_refund-append [] ys = sym (add_zero (total_refund ys))
total_refund-append (f ∷ xs) ys =
    ap (λ n. f.machine.gas_meter.gas_refunded +ℤ n) (total_refund-append xs ys)
    ∙ sym (add_assoc f.machine.gas_meter.gas_refunded (total_refund xs) (total_refund ys))

mutual
  unfolding get_gas_refund survivors

  refund_of : (t : Tree) → get_gas_refund t ≡ total_refund (survivors t)
  refund_of (tree f cs) =
      let below = refunds_of cs in
      elim (Bool-cases (is_error f)) [
        | inl failed ↦ rw failed refl
        | inr fine ↦ rw fine (ap (λ n. f.machine.gas_meter.gas_refunded +ℤ n) below)
      ]

  refunds_of : (cs : Children) → get_gas_refunds cs ≡ total_refund (survivors_of cs)
  refunds_of childless = refl
  refunds_of (append cs child) =
      ap (λ n. n +ℤ get_gas_refund child) (refunds_of cs)
      ∙ ap (λ n. total_refund (survivors_of cs) +ℤ n) (refund_of child)
      ∙ sym (total_refund-append (survivors_of cs) (survivors child))

-- The gas refund of a computation is the sum of the refund counters of the computations in its tree
-- that have no error, in themselves or in a computation above them.
pub get_gas_refund_lem : (t : Tree) → get_gas_refund t ≡ total_refund (survivors t)
get_gas_refund_lem t = refund_of t
