-- ===== src/Execution/Copies.antt =====
-- A state that keeps a copy of its accounts for each snapshot, as an example of the state that
-- messages are applied to.
use veda_bvm.Common.{
  ℕ, suc, ◌-◌, ◌≡◌, refl, ap, ◌∙◌, List, [], ◌∷◌, ◌++◌, ⊤, arith, length, drop, length-append,
}
use veda_bvm.Exceptions.{Result, ok, err, Action, validation_error}
use veda_bvm.Execution.Messages.{ChainState}
use veda_bvm.Message.{Address}

-- What was written to the accounts, the latest first.
abbrev pub Accounts : Type 0
Accounts = List (Address × List ℕ)

abbrev pub Copies : Type 0
Copies = Accounts × List Accounts

-- The copies from a snapshot down.
abbrev pub from_snapshot : ℕ → Copies → List Accounts
from_snapshot c s = drop (length s.1 - suc c) s.1

abbrev pub reverted_to : List Accounts → Copies → Result ⊤ × Copies
reverted_to [] s = (err validation_error, s)
reverted_to (accounts ∷ older) s = (ok tt, (accounts, older))

abbrev pub committed_to : List Accounts → Copies → Result ⊤ × Copies
committed_to [] s = (err validation_error, s)
committed_to (_ ∷ older) s = (ok tt, (s.0, older))

abbrev pub written : Address → List ℕ → Action Copies ⊤
written a bs s = (ok tt, ((a, bs) ∷ s.0, s.1))

pub record IsCopy (c : ℕ) (s t : Copies) : Type 0 where
  pub numbered : c ≡ length s.1
  pub later : List Accounts
  pub kept : t.1 ≡ later ++ (s.0 ∷ s.1)

drop-later :
    (later rest : List Accounts)
    → drop (length (later ++ rest) - length rest) (later ++ rest) ≡ rest
drop-later [] rest = ap (λ n. drop n rest) same
  where
    same : length rest - length rest ≡ 0
    same = omega arith
drop-later (x ∷ later) rest = ap (λ n. drop n (x ∷ later ++ rest)) count ∙ drop-later later rest
  where
    count : length (x ∷ later ++ rest) - length rest ≡ suc (length (later ++ rest) - length rest)
    count = omega (arith, length-append later rest)

pub from_snapshot_lem : (c : ℕ) (s t : Copies) → IsCopy c s t → from_snapshot c t ≡ s.0 ∷ s.1
from_snapshot_lem c s t h =
    ap (λ l. drop (length l - suc c) l) h.kept
    ∙ ap (λ n. drop (length (h.later ++ (s.0 ∷ s.1)) - suc n) (h.later ++ (s.0 ∷ s.1))) h.numbered
    ∙ drop-later h.later (s.0 ∷ s.1)

pub snapshot-IsCopy : (s : Copies) → IsCopy (length s.1) s (s.0, s.0 ∷ s.1)
snapshot-IsCopy s = record { numbered = refl; later = []; kept = refl }

abbrev pub copies_state : ChainState Copies
copies_state = record {
  Snapshot = ℕ;
  snapshot = λ s. (length s.1, (s.0, s.0 ∷ s.1));
  revert = λ c s. reverted_to (from_snapshot c s) s;
  commit = λ c s. committed_to (from_snapshot c s) s;
  touch_account = λ a. written a [];
  increment_nonce = λ a. written a [];
  set_code = written;
  IsOpen = IsCopy;
  Same = λ s t. s.0 ≡ t.0;
  snapshot-IsOpen = snapshot-IsCopy;
  revert-Same = λ c s t h. rw (from_snapshot_lem c s t h) (refl, refl);
  commit_ok = λ c s t h. rw (from_snapshot_lem c s t h) refl;
  later-IsOpen = λ c s t h. record {
    numbered = h.numbered;
    later = t.0 ∷ h.later;
    kept = ap (λ l. t.0 ∷ l) h.kept;
  };
  touch_account-IsOpen =
      λ c s t a h. record { numbered = h.numbered; later = h.later; kept = h.kept };
  increment_nonce-IsOpen =
      λ c s t a h. record { numbered = h.numbered; later = h.later; kept = h.kept };
  set_code-IsOpen =
      λ c s t a code h. record { numbered = h.numbered; later = h.later; kept = h.kept };
  reverted-IsOpen = λ c d s t u h k.
      rw (from_snapshot_lem d t u k)
        (record { numbered = h.numbered; later = h.later; kept = h.kept });
  committed-IsOpen = λ c d s t u h k.
      rw (from_snapshot_lem d t u k)
        (record { numbered = h.numbered; later = h.later; kept = h.kept });
}
