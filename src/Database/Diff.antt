-- ===== src/Database/Diff.antt =====
-- veda/db/diff.py: `DBDiffTracker` and `DBDiff`, both a dictionary of changes.
use veda_bvm.Common.{ℕ, Bool, true, false, none, some, List, [], ◌∷◌, ⊤}
use veda_bvm.Database.{Database}
use veda_bvm.Dict.{Dict, lookup, insert}
use veda_bvm.Exceptions.{ok, err, Action, ◌>>◌, pure, modify, key_error}

-- A value, or the reason `DELETED`.
pub data Entry : Type 0 where
  value : List ℕ → Entry
  deleted : Entry

abbrev pub DbDiff : Type 0
DbDiff = Dict Entry

-- `DiffMissingError` carries whether the key was deleted.
pub data Missing : Type 0 where
  never_inserted was_deleted : Missing

pub data Found : Type 0 where
  found : List ℕ → Found
  diff_missing : Missing → Found

unfoldable pub get_item : ℕ → DbDiff → Found
unfolding lookup
get_item key changes = elim (lookup key changes) [
  | none ↦ Found.diff_missing Missing.never_inserted
  | some (value bs) ↦ Found.found bs
  | some deleted ↦ Found.diff_missing Missing.was_deleted
]

unfoldable pub contains_item : ℕ → DbDiff → Bool
unfolding get_item
contains_item key changes = elim (get_item key changes) [
  | Found.found _ ↦ true
  | Found.diff_missing _ ↦ false
]

unfoldable pub set_item : ℕ → List ℕ → DbDiff → DbDiff
unfolding insert
set_item key bs changes = insert key (value bs) changes

unfoldable pub del_item : ℕ → DbDiff → DbDiff
unfolding insert
del_item key changes = insert key deleted changes

unfoldable pub deleted_keys : DbDiff → List ℕ
deleted_keys [] = []
deleted_keys ((key, value _) ∷ changes) = deleted_keys changes
deleted_keys ((key, deleted) ∷ changes) = key ∷ deleted_keys changes

unfoldable pub pending_keys : DbDiff → List ℕ
pending_keys [] = []
pending_keys ((key, value _) ∷ changes) = key ∷ pending_keys changes
pending_keys ((key, deleted) ∷ changes) = pending_keys changes

unfoldable pub pending_items : DbDiff → List (ℕ × List ℕ)
pending_items [] = []
pending_items ((key, value bs) ∷ changes) = (key, bs) ∷ pending_items changes
pending_items ((key, deleted) ∷ changes) = pending_items changes

-- `try: … except KeyError: pass`
unfoldable pub pass_key_error : {S : Type 0} → Action S ⊤ → Action S ⊤
pass_key_error m s =
    let (r, t) = m s in (elim r [ ok _ ↦ ok tt | err key_error ↦ ok tt | err other ↦ err other ], t)

module _ {D : Type 0} ⦃db : Database D⦄ where
  unfoldable pub apply_entry : Bool → ℕ → Entry → Action D ⊤
  unfolding pass_key_error
  apply_entry apply_deletes key (value bs) = modify (db.put key bs)
  apply_entry true key deleted = pass_key_error (db.del key)
  apply_entry false key deleted = pure tt

  unfoldable pub apply_to : Bool → DbDiff → Action D ⊤
  unfolding apply_entry
  apply_to apply_deletes [] = pure tt
  apply_to apply_deletes ((key, entry) ∷ changes) =
      apply_entry apply_deletes key entry >> apply_to apply_deletes changes

-- Applying a diff to a tracker, which raises nothing.
unfoldable pub track : DbDiff → DbDiff → DbDiff
unfolding set_item del_item
track [] tracker = tracker
track ((key, value bs) ∷ changes) tracker = track changes (set_item key bs tracker)
track ((key, deleted) ∷ changes) tracker = track changes (del_item key tracker)

unfoldable pub join_onto : DbDiff → List DbDiff → DbDiff
unfolding track
join_onto tracker [] = tracker
join_onto tracker (diff ∷ diffs) = join_onto (track diff tracker) diffs

unfoldable pub join : List DbDiff → DbDiff
unfolding join_onto
join = join_onto []
