-- ===== src/Logic/Total.antt =====
-- What an opcode of arithmetic or comparison does to a computation, on every branch.
use native.Mathlib.Nat.{pow-le-pow_right}
use veda_bvm.Common.{
  ℕ, ◌^◌, ◌≤◌, ◌<◌, ◌≡◌, refl, ap, ◌∙◌, ◌⊎◌, inl, inr, [], ◌∷◌, map, arith, length, take, drop,
}
use veda_bvm.Common.Int.{ℤ, pos, negsuc, pos_part}
use veda_bvm.Computation.{Computation, on_stack}
use veda_bvm.Exceptions.{Exception, Result, Action, ok, err, bind_ok, bind_err}
use veda_bvm.External.{EthUtils}
use veda_bvm.Logic.Ops.{Op, arity, result, run, result1, result2, result3}
use veda_bvm.Logic.Words.{IsWord, result1-IsWord, result2-IsWord, result3-IsWord}
use veda_bvm.Logic.{binary, ternary, push_binary, push_ternary}
use veda_bvm.Stack.{
  Item, int, bytes, Stack, insufficient_stack, push_int, pop_ints, pop1_int, to_int,
}
use veda_bvm.Stack.Bounds.{IsValid}

word_of : (z : ℤ) → IsWord z → z ≡ pos (pos_part z)
word_of (pos n) h = refl
word_of (negsuc n) h = absurd (omega arith)

push_int_word :
    (z : ℤ) (s : Stack) → IsWord z → length s < 1024 → push_int z s ≡ (ok tt, int (pos_part z) ∷ s)
unfolding push_int
push_int_word (pos n) s h room = ground arith
push_int_word (negsuc n) s h room = absurd (omega arith)

on_stack_result :
    {A : Type 0} (m : Action Stack A) (c : Computation) {r : Result A} {s : Stack}
    → m c.stack ≡ (r, s)
    → on_stack m c ≡ (r, record c { stack = s })
on_stack_result m c h = ap (λ p. (p.0, record c { stack = p.1 })) h

module _ ⦃eth : EthUtils⦄ where
  to_int_lt : (item : Item) → veda_bvm.Stack.Bounds.IsWord item → to_int item < 2 ^ 256
  unfolding to_int
  to_int_lt (int n) h = h
  to_int_lt (bytes bs) (short, h) =
      let top : 256 ^ length bs ≤ 256 ^ 32 = pow-le-pow_right (omega arith) short in
      omega (arith, eth.to_int-lt bs h, top)

  pop_ints_short : (n : ℕ) (s : Stack) → length s < n → pop_ints n s ≡ (err insufficient_stack, s)
  unfolding pop_ints
  pop_ints_short n s h = ground arith

  pop_ints_two :
      (x y : Item) (s : Stack) → pop_ints 2 (x ∷ y ∷ s) ≡ (ok (to_int x ∷ to_int y ∷ []), s)
  unfolding pop_ints
  pop_ints_two x y s = ground arith

  pop_ints_three :
      (x y z : Item) (s : Stack)
      → pop_ints 3 (x ∷ y ∷ z ∷ s) ≡ (ok (to_int x ∷ to_int y ∷ to_int z ∷ []), s)
  unfolding pop_ints
  pop_ints_three x y z s = ground arith

  -- The runs of the shared shape, from what the stack does.
  module _ (c : Computation) {s : Stack} where
    binary_runs :
        (f : ℕ → ℕ → ℤ) {a b : ℕ} {t : Stack}
        → pop_ints 2 c.stack ≡ (ok (a ∷ b ∷ []), s)
        → push_int (f a b) s ≡ (ok tt, t)
        → binary f c ≡ (ok tt, record c { stack = t })
    unfolding binary push_binary
    binary_runs f {a} {b} h k =
        bind_ok (on_stack (pop_ints 2)) (push_binary f) (on_stack_result (pop_ints 2) c h)
        ∙ on_stack_result (push_int (f a b)) (record c { stack = s }) k

    binary_refused :
        (f : ℕ → ℕ → ℤ) {e : Exception}
        → pop_ints 2 c.stack ≡ (err e, s)
        → binary f c ≡ (err e, record c { stack = s })
    unfolding binary push_binary
    binary_refused f h =
        bind_err (on_stack (pop_ints 2)) (push_binary f) (on_stack_result (pop_ints 2) c h)

    ternary_runs :
        (f : ℕ → ℕ → ℕ → ℤ) {x y z : ℕ} {t : Stack}
        → pop_ints 3 c.stack ≡ (ok (x ∷ y ∷ z ∷ []), s)
        → push_int (f x y z) s ≡ (ok tt, t)
        → ternary f c ≡ (ok tt, record c { stack = t })
    unfolding ternary push_ternary
    ternary_runs f {x} {y} {z} h k =
        bind_ok (on_stack (pop_ints 3)) (push_ternary f) (on_stack_result (pop_ints 3) c h)
        ∙ on_stack_result (push_int (f x y z)) (record c { stack = s }) k

    ternary_refused :
        (f : ℕ → ℕ → ℕ → ℤ) {e : Exception}
        → pop_ints 3 c.stack ≡ (err e, s)
        → ternary f c ≡ (err e, record c { stack = s })
    unfolding ternary push_ternary
    ternary_refused f h =
        bind_err (on_stack (pop_ints 3)) (push_ternary f) (on_stack_result (pop_ints 3) c h)

  -- The operands are there and make way for the result, which is a word.
  pub record Replaces (op : Op) (c : Computation) : Type 0 where
    pub enough : arity op ≤ length c.stack
    pub word : ℕ
    pub word_lt : word < 2 ^ 256
    pub of_operands : result op (map to_int (take (arity op) c.stack)) ≡ pos word
    pub runs : run op c ≡ (ok tt, record c { stack = int word ∷ drop (arity op) c.stack })

  pub Outcome : Op → Computation → Type 0
  Outcome op c =
      Replaces op c ⊎ ((length c.stack < arity op) × (run op c ≡ (err insufficient_stack, c)))

  -- On a valid stack, an opcode with enough operands replaces them by its result, a word, and one
  -- without raises InsufficientStack and leaves all as it was.
  pub run-Outcome : (op : Op) (c : Computation) → IsValid c.stack → Outcome op c
  unfolding Outcome run pop1_int
  run-Outcome (Op.unary op) c h = go c.stack h
    where
      go : (s : Stack) → IsValid s → Outcome (Op.unary op) (record c { stack = s })
      go [] v = inr (omega arith, refl)
      go (x ∷ s) v =
          let word = result1-IsWord op (to_int x) (to_int_lt x v.words.0) in
          inl (record {
            enough = omega arith;
            word = pos_part (result1 op (to_int x));
            word_lt = word.1;
            of_operands = word_of (result1 op (to_int x)) word;
            runs = rw (push_int_word (result1 op (to_int x)) s word (ground arith)) refl;
          })
  run-Outcome (Op.binary op) c h = go c.stack h
    where
      few : (s : Stack) → length s < 2 → Outcome (Op.binary op) (record c { stack = s })
      few s short =
          inr
            (short, binary_refused (record c { stack = s }) (result2 op) (pop_ints_short 2 s short))

      go : (s : Stack) → IsValid s → Outcome (Op.binary op) (record c { stack = s })
      go [] v = few [] (omega arith)
      go (x ∷ []) v = few (x ∷ []) (omega arith)
      go (x ∷ y ∷ s) v =
          let hx = to_int_lt x v.words.0 in
          let hy = to_int_lt y v.words.1.0 in
          let z = result2 op (to_int x) (to_int y) in
          let word = result2-IsWord op (to_int x) (to_int y) hx hy in
          inl (record {
            enough = omega arith;
            word = pos_part z;
            word_lt = word.1;
            of_operands = word_of z word;
            runs =
                binary_runs (record c { stack = x ∷ y ∷ s }) (result2 op) (pop_ints_two x y s)
                  (push_int_word z s word (ground arith));
          })
  run-Outcome (Op.ternary op) c h = go c.stack h
    where
      few : (s : Stack) → length s < 3 → Outcome (Op.ternary op) (record c { stack = s })
      few s short =
          inr (
            short,
            ternary_refused (record c { stack = s }) (result3 op) (pop_ints_short 3 s short),
          )

      go : (s : Stack) → IsValid s → Outcome (Op.ternary op) (record c { stack = s })
      go [] v = few [] (omega arith)
      go (x ∷ []) v = few (x ∷ []) (omega arith)
      go (x ∷ y ∷ []) v = few (x ∷ y ∷ []) (omega arith)
      go (x ∷ y ∷ n ∷ s) v =
          let hn = to_int_lt n v.words.1.1.0 in
          let z = result3 op (to_int x) (to_int y) (to_int n) in
          let word = result3-IsWord op (to_int x) (to_int y) (to_int n) hn in
          inl (record {
            enough = omega arith;
            word = pos_part z;
            word_lt = word.1;
            of_operands = word_of z word;
            runs =
                ternary_runs (record c { stack = x ∷ y ∷ n ∷ s }) (result3 op)
                  (pop_ints_three x y n s) (push_int_word z s word (ground arith));
          })
