-- ===== src/Estimator/Answers.antt =====
-- What the state of a search answers to a transaction.
use veda_bvm.Common.{◌≡◌, refl, ◌∙◌, Option, ⊤}
use veda_bvm.Estimator.{Transaction, get_computation_error}
use veda_bvm.Exceptions.{VmError, Result, ok, err, Action}
use veda_bvm.Execution.Messages.{ChainState}
use veda_bvm.Execution.Run.{frame}
use veda_bvm.Execution.{Tree}

-- What a transaction came to: an exception, or its computation's error, if it has one.
unfoldable pub error_in : Result Tree → Result (Option VmError)
error_in (err e) = err e
error_in (ok computation) = ok (frame computation).raised

-- The answer to each transaction, be it an exception, is the same in all states of a search.
pub record Settled {S : Type 0} (error_of : Transaction → Action S (Option VmError))
    (InSearch : S → Type 0) (answer : Transaction → Result (Option VmError)) : Type 0 where
  pub answers : (t : Transaction) (s : S) → InSearch s → (error_of t s).0 ≡ answer t
  pub stays : (t : Transaction) (s : S) → InSearch s → InSearch (error_of t s).1

-- Applying a transaction leaves the snapshot before it open, whether it raises or not, and comes to
-- the same in all states of a search, which are those whose accounts are the same.
pub record Repeats {S : Type 0} (state : ChainState S)
    (apply_transaction : Transaction → Action S Tree) (InSearch : S → Type 0)
    (answer : Transaction → Result (Option VmError)) : Type 0 where
  pub opens :
      (t : Transaction) (s : S)
      → InSearch s
      → state.IsOpen (state.snapshot s).0 s (apply_transaction t (state.snapshot s).1).1
  pub repeats :
      (t : Transaction) (s : S)
      → InSearch s
      → error_in (apply_transaction t (state.snapshot s).1).0 ≡ answer t
  pub same : (s s' : S) → InSearch s → state.Same s s' → InSearch s'

pub get_computation_error-Settled :
    {S : Type 0} (state : ChainState S) (apply_transaction : Transaction → Action S Tree)
    (InSearch : S → Type 0) (answer : Transaction → Result (Option VmError))
    → Repeats state apply_transaction InSearch answer
    → Settled (get_computation_error state apply_transaction) InSearch answer
unfolding get_computation_error error_in
get_computation_error-Settled {S} state apply_transaction InSearch answer r = record {
  answers = λ t s i. reported _ _ (reverted t s i).0 ∙ r.repeats t s i;
  stays = λ t s i. r.same s _ i (reverted t s i).1;
}
  where
    reverted :
        (t : Transaction) (s : S)
        → InSearch s
        → ((state.revert (state.snapshot s).0 (apply_transaction t (state.snapshot s).1).1).0
            ≡ ok tt)
          × state.Same s
              (state.revert (state.snapshot s).0 (apply_transaction t (state.snapshot s).1).1).1
    reverted t s i =
        state.revert-Same (state.snapshot s).0 s (apply_transaction t (state.snapshot s).1).1
          (r.opens t s i)

    reported :
        (back : Result ⊤) (o : Result Tree)
        → back ≡ ok tt
        → ◌≡◌ {A = Result (Option VmError)}
            (elim back [
              | err e ↦ err e
              | ok _ ↦ elim o [ err e ↦ err e | ok computation ↦ ok (frame computation).raised ]
            ])
            (error_in o)
    reported (err e) o h = cc
    reported (ok _) (err e) h = refl
    reported (ok _) (ok c) h = refl
