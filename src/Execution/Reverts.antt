-- ===== src/Execution/Reverts.antt =====
-- A message whose computation fails leaves the accounts of the state as they were.
use veda_bvm.Common.{
  ℕ, ◌≡◌, refl, sym, ◌∙◌, ap, true, false, true≢false, Option, none, some, List, [], ◌∷◌, ⊤,
  Bool-cases, inl, inr, length, ◌*◌,
}
use veda_bvm.Common.Int.{pos}
use veda_bvm.Computation.{on_gas_meter}
use veda_bvm.Gas.{consume_gas}
use veda_bvm.Exceptions.{VmError, Exception, Result, ok, err}
use veda_bvm.Execution.Messages.{
  ChainState, reverting, committing, close, deposit_code, create_from, pay_for_code,
  validate_contract_code, gas_codedeposit,
}
use veda_bvm.Execution.Run.{frame, on_machine, as_vm_error}
use veda_bvm.Execution.{Frame, Tree, tree, Children, is_error, set_error, output}
use veda_bvm.Message.{Message, storage_address}

-- The computation of a result, if there is one, is not one with an error.
pub NoError : Result Tree → Type 0
NoError r = (t : Tree) → r ≡ ok t → is_error (frame t) ≡ false

pub err-NoError : (e : Exception) → NoError (err e)
unfolding NoError
err-NoError e t h = cc

ok-NoError : (t : Tree) → is_error (frame t) ≡ false → NoError (ok t)
unfolding NoError
ok-NoError t fine u h =
    ap (λ r. elim r [ ok x ↦ is_error (frame x) | err _ ↦ false ]) (sym h) ∙ fine

paid-is_error : (code : List ℕ) (f : Frame) → is_error (pay_for_code code f).1 ≡ is_error f
unfolding pay_for_code is_error
paid-is_error code f = checked (validate_contract_code code)
  where
    checked :
        (r : Result ⊤)
        → is_error
            (elim r as (λ r. Result ⊤ × Frame) [
              | ok _ ↦
                  on_machine (on_gas_meter (consume_gas (pos (length code * gas_codedeposit)))) f
              | err e ↦ (err e, f)
            ]).1
          ≡ is_error f
    checked (ok _) = refl
    checked (err e) = refl

module _ {S : Type 0} (state : ChainState S) where
  -- If the result is a computation with an error, the accounts are those of `s`.
  abbrev pub Undone : S → Result Tree × S → Type 0
  Undone s p = (t : Tree) → p.0 ≡ ok t → is_error (frame t) ≡ true → state.Same s p.1

  pub NoError-Undone : (s : S) (p : Result Tree × S) → NoError p.0 → Undone s p
  unfolding NoError
  NoError-Undone s p fine t h e = absurd (true≢false (sym e ∙ fine t h))

  module _ (snap : state.Snapshot) (s : S) where
    reverting-Undone :
        (t : Tree) (u : S) → state.IsOpen snap s u → Undone s (reverting state snap t u)
    unfolding reverting
    reverting-Undone t u h v p e = (state.revert-Same snap s u h).1

    committing-Undone :
        (t : Tree) (u : S)
        → state.IsOpen snap s u
        → is_error (frame t) ≡ false
        → Undone s (committing state snap t u)
    unfolding committing
    committing-Undone t u h fine =
        NoError-Undone s _ (rw (state.commit_ok snap s u h) (ok-NoError t fine))

    pub close-Undone : (t : Tree) (u : S) → state.IsOpen snap s u → Undone s (close state snap t u)
    unfolding close
    close-Undone t u h = elim (Bool-cases (is_error (frame t))) [
      | inl failed ↦ rw (close, failed) (reverting-Undone t u h)
      | inr fine ↦ rw (close, fine) (committing-Undone t u h fine)
    ]

    deposit_code-Undone :
        (msg : Message) (code : List ℕ) (f : Frame) (cs : Children) (u : S)
        → state.IsOpen snap s u
        → is_error f ≡ false
        → Undone s (deposit_code state snap msg code (tree f cs) u)
    unfolding deposit_code
    deposit_code-Undone msg code f cs u h fine =
        paid (pay_for_code code f).0 (pay_for_code code f).1 (paid-is_error code f ∙ fine)
      where
        stored :
            (q : Result ⊤) (g : Frame) (v : S)
            → is_error g ≡ false
            → state.IsOpen snap s v
            → Undone s (elim q [ ok _ ↦ committing state snap (tree g cs) v | err e ↦ (err e, v) ])
        stored (ok _) g v fine k = committing-Undone (tree g cs) v k fine
        stored (err e) g v fine k = NoError-Undone s (err e, v) (err-NoError e)

        failed :
            (q : Result ⊤) (g : Frame)
            → Undone s (elim q [ ok _ ↦ reverting state snap (tree g cs) u | err e ↦ (err e, u) ])
        failed (ok _) g = reverting-Undone (tree g cs) u h
        failed (err e) g = NoError-Undone s (err e, u) (err-NoError e)

        refused :
            (o : Option VmError) (raised : Exception) (g : Frame)
            → Undone s (elim o [
              | none ↦ (err raised, u)
              | some e ↦ elim (set_error e g).0 [
                | ok _ ↦ reverting state snap (tree (set_error e g).1 cs) u
                | err other ↦ (err other, u)
              ]
            ])
        refused none raised g = NoError-Undone s (err raised, u) (err-NoError raised)
        refused (some e) raised g = failed (set_error e g).0 (set_error e g).1

        paid :
            (r : Result ⊤) (g : Frame)
            → is_error g ≡ false
            → Undone s (elim r [
              | ok _ ↦ elim (state.set_code (storage_address msg) code u).0 [
                | ok _ ↦
                    committing state snap
                      (tree g cs)
                      (state.set_code (storage_address msg) code u).1
                | err e ↦ (err e, (state.set_code (storage_address msg) code u).1)
              ]
              | err raised ↦ elim (as_vm_error raised) [
                | none ↦ (err raised, u)
                | some e ↦ elim (set_error e g).0 [
                  | ok _ ↦ reverting state snap (tree (set_error e g).1 cs) u
                  | err other ↦ (err other, u)
                ]
              ]
            ])
        paid (ok _) g fine =
            stored (state.set_code (storage_address msg) code u).0 g
              (state.set_code (storage_address msg) code u).1 fine
              (state.set_code-IsOpen snap s u (storage_address msg) code h)
        paid (err raised) g fine = refused (as_vm_error raised) raised g

    pub create_from-Undone :
        (msg : Message) (t : Tree) (u : S)
        → state.IsOpen snap s u
        → Undone s (create_from state snap msg t u)
    unfolding create_from
    create_from-Undone msg (tree f cs) u h = elim (Bool-cases (is_error f)) [
      | inl failed ↦ rw (create_from, failed) (reverting-Undone (tree f cs) u h)
      | inr fine ↦ rw (create_from, fine) (by_code (output f) fine)
    ]
      where
        by_code :
            (code : List ℕ)
            → is_error f ≡ false
            → Undone s (elim code [
              | [] ↦ committing state snap (tree f cs) u
              | b ∷ bs ↦ deposit_code state snap msg (b ∷ bs) (tree f cs) u
            ])
        by_code [] fine = committing-Undone (tree f cs) u h fine
        by_code (b ∷ bs) fine = deposit_code-Undone msg (b ∷ bs) f cs u h fine
