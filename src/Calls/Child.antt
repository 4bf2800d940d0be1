-- ===== src/Calls/Child.antt =====
-- What a call that was paid for gives back.
use veda_bvm.Calls.{
  ChainAccounts, CallParams, must_refuse, refuse_call, run_child, deliver, settle_child,
  copy_output, return_child_gas, give_back, clear_return_data, apply_child_computation, prepare,
  child_message,
}
use veda_bvm.Common.{ℕ, ◌≤◌, ◌≡◌, refl, subst, inl, inr, List, ⊤, if◌then◌else◌, arith, Bool-cases}
use veda_bvm.Common.Int.{pos}
use veda_bvm.Computation.{on_stack}
use veda_bvm.Exceptions.{Result, ok, err, Action, ◌>>=◌, ◌>>◌, pure}
use veda_bvm.Execution.Run.{frame, on_computation}
use veda_bvm.Execution.Within.{
  Grown, Within, pure-Within, bind-Within, on_stack-Within, on_memory-Within, return_gas-Within,
  weaken-Within, known-Within,
}
use veda_bvm.Execution.{
  Frame, Tree, tree, is_error, should_burn_gas, should_erase_return_data, get_gas_remaining,
  add_child_computation, prepare_child_message,
}
use veda_bvm.Message.{Message, Address, new_message}
use veda_bvm.Stack.{push_int}

-- The gas that a child has left is no more than that of its message.
abbrev pub Honest : {S : Type 0} → ChainAccounts S → Type 0
Honest {S} chain =
    (msg : Message) (origin : Address) (s : S) (child : Tree)
    → (chain.generate_child_computation msg origin s).0 ≡ ok child
    → get_gas_remaining (frame child) ≤ msg.gas

module _ {S : Type 0} (chain : ChainAccounts S) where
  pub clear_return_data-Within : Within 0 (clear_return_data chain)
  unfolding clear_return_data
  clear_return_data-Within s (tree f cs) = record {
    same_message = refl;
    same_error = refl;
    same_start = refl;
    bounded = omega arith;
  }

  refuse_call-Within : (n : ℕ) → Within n (refuse_call chain n)
  unfolding refuse_call give_back
  refuse_call-Within n =
      let push : Action (S × Tree) ⊤ = on_computation (on_stack (push_int (pos 0))) in
      bind-Within (clear_return_data chain) (λ _. give_back chain n >> push) {j = 0} {k = n}
        (omega arith) clear_return_data-Within
        (λ _.
          bind-Within (give_back chain n) (λ _. push) {j = n} {k = 0} (omega arith)
            (return_gas-Within n) (λ _. on_stack-Within (push_int (pos 0))))

  copy_output-Within : (p : CallParams) (child : Frame) → Within 0 (copy_output chain p child)
  unfolding copy_output
  copy_output-Within p child = elim (Bool-cases (should_erase_return_data child)) [
    | inl erase ↦ rw erase (pure-Within tt)
    | inr keep ↦ rw keep (on_memory-Within _)
  ]

  return_child_gas-Within :
      (n : ℕ) (child : Frame)
      → get_gas_remaining child ≤ n
      → Within n (return_child_gas chain child)
  unfolding return_child_gas give_back
  return_child_gas-Within n child le = elim (Bool-cases (should_burn_gas child)) [
    | inl burnt ↦ rw burnt (weaken-Within (pure tt) (omega arith) (pure-Within tt))
    | inr left ↦ rw left (
        weaken-Within (give_back chain (get_gas_remaining child)) le
          (return_gas-Within (get_gas_remaining child)))
  ]

  settle_child-Within :
      (n : ℕ) (p : CallParams) (child : Tree)
      → get_gas_remaining (frame child) ≤ n
      → Within n (settle_child chain p child)
  unfolding settle_child
  settle_child-Within n p child le =
      let answer = push_int (pos (if is_error (frame child) then 0 else 1)) in
      bind-Within (on_computation (on_stack answer))
        (λ _. copy_output chain p (frame child) >> return_child_gas chain (frame child)) {j = 0}
        {k = n} (omega arith) (on_stack-Within answer)
        (λ _.
          bind-Within (copy_output chain p (frame child))
            (λ _. return_child_gas chain (frame child)) {j = 0} {k = n} (omega arith)
            (copy_output-Within p (frame child)) (λ _. return_child_gas-Within n (frame child) le))

  -- The message that is prepared has the gas that was set aside for it.
  prepare-gas :
      (p : CallParams) (call_data : List ℕ) (n : ℕ) (s : S) (t : Tree) (msg : Message)
      → (prepare chain p call_data n (s, t)).0 ≡ ok msg
      → msg.gas ≡ n
  unfolding prepare prepare_child_message new_message child_message
  prepare-gas p call_data n s t msg h = ground arith

  prepare-Within :
      (p : CallParams) (call_data : List ℕ) (n : ℕ) → Within 0 (prepare chain p call_data n)
  unfolding prepare
  prepare-Within p call_data n s t = record {
    same_message = refl;
    same_error = refl;
    same_start = refl;
    bounded = omega arith;
  }

  add_child-Grown : (child t : Tree) → Grown 0 t (add_child_computation child t)
  unfolding add_child_computation
  add_child-Grown (tree c below) (tree f cs) = record {
    same_message = refl;
    same_error = refl;
    same_start = refl;
    bounded = omega arith;
  }

  module _ (msg : Message) where
    applied :
        (s' : S) (t : Tree) (r : Result Tree)
        → Grown 0 t
            (elim r as (λ _. Result Tree × (S × Tree)) [
              | ok child ↦ (ok child, (s', add_child_computation child t))
              | err e ↦ (err e, (s', t))
            ]).1.1
    applied s' t (ok child) = add_child-Grown child t
    applied s' t (err e) = record {
      same_message = refl;
      same_error = refl;
      same_start = refl;
      bounded = omega arith;
    }

    pub apply_child-Within : Within 0 (apply_child_computation chain msg)
    unfolding apply_child_computation
    apply_child-Within s t =
        let p = chain.generate_child_computation msg (frame t).origin s in applied p.1 t p.0

    child_of :
        (s' : S) (t : Tree) (r : Result Tree) (child : Tree)
        → (elim r as (λ _. Result Tree × (S × Tree)) [
          | ok child ↦ (ok child, (s', add_child_computation child t))
          | err e ↦ (err e, (s', t))
        ]).0
          ≡ ok child
        → r ≡ ok child
    child_of s' t (ok c) child h = h
    child_of s' t (err e) child h = cc

    pub apply_child-ok :
        (s : S) (t : Tree) (child : Tree)
        → (apply_child_computation chain msg (s, t)).0 ≡ ok child
        → (chain.generate_child_computation msg (frame t).origin s).0 ≡ ok child
    unfolding apply_child_computation
    apply_child-ok s t child =
        let p = chain.generate_child_computation msg (frame t).origin s in child_of p.1 t p.0 child

  run_child-Within :
      Honest chain
      → (p : CallParams) (call_data : List ℕ) (n : ℕ) → Within n (run_child chain p call_data n)
  unfolding run_child
  run_child-Within honest p call_data n =
      known-Within (prepare chain p call_data n)
        (λ msg. apply_child_computation chain msg >>= settle_child chain p) {j = 0} {k = n}
        (omega arith) (prepare-Within p call_data n)
        (λ s t msg prepared.
          known-Within (apply_child_computation chain msg) (settle_child chain p) {j = 0} {k = n}
            (omega arith) (apply_child-Within msg)
            (λ s' t' child ran. settle_child-Within n p child (
              subst (λ k. get_gas_remaining (frame child) ≤ k)
                (prepare-gas p call_data n s t msg prepared)
                (honest msg (frame t').origin s' child (apply_child-ok msg s' t' child ran)))))

  -- A call that is refused, and one whose child runs, give back no more than was set aside.
  pub deliver-Within :
      Honest chain
      → (p : CallParams) (call_data : List ℕ) (n : ℕ) → Within n (deliver chain p call_data n)
  unfolding deliver
  deliver-Within honest p call_data n s t = elim (Bool-cases (must_refuse chain p (s, t))) [
    | inl refused ↦ rw refused (refuse_call-Within n s t)
    | inr runs ↦ rw runs (run_child-Within honest p call_data n s t)
  ]
