-- ===== src/Journal/Ideal.antt =====
-- What a journal promises: the current changes, and with each open checkpoint a copy of what they
-- were when it was recorded.
use veda_bvm.Common.{
  ℕ, suc, Bool, true, false, Option, none, some, List, [], ◌∷◌, ⊤, ◌==◌, if◌then◌else◌,
}
use veda_bvm.Exceptions.{ok, err, Action, validation_error}
use veda_bvm.Journal.{Change, value, delete_wrapped, revert_to_wrapped}

-- The change that is pending for a key. A key that is given back to the wrapped database counts as
-- one that was never changed.
abbrev pub Pending : Type 0
Pending = ℕ → Option Change

-- The pending changes, and whether the wrapped database is to be ignored.
abbrev pub Copy : Type 0
Copy = Pending × Bool

pub record Ideal : Type 0 where
  pub pending : Pending
  pub ignore_wrapped_db : Bool
  pub copies : List (ℕ × Copy)
  pub next_checkpoint : ℕ

abbrev pub new : ℕ → Ideal
new next_checkpoint = record {
  pending = λ q. none;
  ignore_wrapped_db = false;
  copies = [];
  next_checkpoint = next_checkpoint;
}

abbrev pub normal : Change → Option Change
normal (value bs) = some (value bs)
normal delete_wrapped = some delete_wrapped
normal revert_to_wrapped = none

unfoldable pub write : ℕ → Change → Ideal → Ideal
write key change i = record i { pending = λ q. if q == key then normal change else i.pending q }

unfoldable pub open_checkpoint : ℕ → Ideal → Ideal
open_checkpoint checkpoint i = record i {
  copies = (checkpoint, (i.pending, i.ignore_wrapped_db)) ∷ i.copies;
}

-- A checkpoint that the caller chose, or the next of the counter.
unfoldable pub record_checkpoint : Option ℕ → Action Ideal ℕ
unfolding open_checkpoint
record_checkpoint (some custom_checkpoint) i =
    (ok custom_checkpoint, open_checkpoint custom_checkpoint i)
record_checkpoint none i =
    let checkpoint = i.next_checkpoint in
    (ok checkpoint, open_checkpoint checkpoint (record i { next_checkpoint = suc checkpoint }))

unfoldable pub clear : Ideal → Ideal
clear i = record i {
  pending = λ q. none;
  ignore_wrapped_db = true;
  next_checkpoint = suc i.next_checkpoint;
}

-- The copy of a checkpoint, and those that are older.
unfoldable pub find : ℕ → List (ℕ × Copy) → Option (Copy × List (ℕ × Copy))
find checkpoint [] = none
find checkpoint ((c, copy) ∷ older) =
    let rest = find checkpoint older in if c == checkpoint then some (copy, older) else rest

unfoldable pub discard_found : Option (Copy × List (ℕ × Copy)) → Action Ideal ⊤
discard_found none i = (err validation_error, record i { copies = [] })
discard_found (some (copy, older)) i =
    (ok tt, record i { pending = copy.0; ignore_wrapped_db = copy.1; copies = older })

unfoldable pub discard : ℕ → Action Ideal ⊤
unfolding find discard_found
discard checkpoint i = discard_found (find checkpoint i.copies) i

unfoldable pub commit_found : Option (Copy × List (ℕ × Copy)) → Action Ideal ⊤
commit_found none i = (err validation_error, i)
commit_found (some (_, [])) i = (err validation_error, i)
commit_found (some (_, c ∷ older)) i = (ok tt, record i { copies = c ∷ older })

unfoldable pub commit_checkpoint : ℕ → Action Ideal ⊤
unfolding find commit_found
commit_checkpoint checkpoint i = commit_found (find checkpoint i.copies) i
