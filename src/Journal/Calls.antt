-- ===== src/Journal/Calls.antt =====
-- The calls of a journal, as data: of the class, and of its ideal counterpart.
use veda_bvm.Common.{ℕ, ◌<◌, ◌≡◌, ⊤, Bool, true, false, Option, none, some, List, [], ◌∷◌}
use veda_bvm.Dict.{contains}
use veda_bvm.Exceptions.{Action, ◌>>=◌, ◌>>◌, pure, modify}
use veda_bvm.Journal.Ideal.{Ideal}
use veda_bvm.Journal.{Change, Changeset, Journal}

pub data Call : Type 0 where
  write : ℕ → Change → Call
  record_checkpoint : Option ℕ → Call
  discard commit_checkpoint : ℕ → Call
  clear : Call

-- A call, with the checkpoint that it returns.
unfoldable pub call : Call → Action Journal (Option ℕ)
call (Call.write key change) = do veda_bvm.Journal.write key change; pure none
call (Call.record_checkpoint custom) = do
  checkpoint ← veda_bvm.Journal.record_checkpoint custom
  pure (some checkpoint)
call (Call.discard checkpoint) = do veda_bvm.Journal.discard checkpoint; pure none
call (Call.commit_checkpoint checkpoint) = do
  veda_bvm.Journal.commit_checkpoint checkpoint
  pure none
call Call.clear = do modify veda_bvm.Journal.clear; pure none

-- The same call of the ideal journal.
unfoldable pub spec : Call → Action Ideal (Option ℕ)
spec (Call.write key change) = do modify (veda_bvm.Journal.Ideal.write key change); pure none
spec (Call.record_checkpoint custom) = do
  checkpoint ← veda_bvm.Journal.Ideal.record_checkpoint custom
  pure (some checkpoint)
spec (Call.discard checkpoint) = do veda_bvm.Journal.Ideal.discard checkpoint; pure none
spec (Call.commit_checkpoint checkpoint) = do
  veda_bvm.Journal.Ideal.commit_checkpoint checkpoint
  pure none
spec Call.clear = do modify veda_bvm.Journal.Ideal.clear; pure none

unfoldable pub has_layer : List (ℕ × Changeset) → Bool
has_layer [] = false
has_layer (layer ∷ older) = true

-- A change needs a layer to note it in. A checkpoint that the caller chooses has come from the
-- counter and is in no layer.
unfoldable pub Ready : Call → Journal → Type 0
unfolding has_layer
Ready (Call.write key change) j = has_layer j.journal_data ≡ true
Ready (Call.record_checkpoint (some c)) j =
    (c < j.next_checkpoint) × (contains c j.journal_data ≡ false)
Ready _ j = ⊤
