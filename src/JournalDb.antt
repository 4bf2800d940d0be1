-- ===== src/JournalDb.antt =====
-- The class `JournalDB` of veda/db/journal.py: a database whose changes wait in a journal until they
-- are persisted, and `diff` of the journal.
pub mod Sound
pub mod Calls
pub mod Persist
pub mod Pending
mod Tests
use veda_bvm.Common.{ℕ, Bool, true, false, not, Option, none, some, List, [], ◌∷◌, ⊤, if◌then◌else◌}
use veda_bvm.Database.{Database, exists}
use veda_bvm.Database.Diff
use veda_bvm.Database.Diff.{DbDiff}
use veda_bvm.Exceptions.{
  Result, ok, err, Action, pure, raise, modify, zoom, key_error, stop_iteration,
}
use veda_bvm.Journal
use veda_bvm.Journal.{Change, value, delete_wrapped, revert_to_wrapped, Changeset, Journal}

pub record JournalDb (D : Type 0) : Type 0 where
  pub wrapped_db : D
  pub journal : Journal

-- `Journal._exists`
unfoldable pub in_journal : ℕ → Journal → Bool
unfolding Journal.get_item
in_journal key j = elim (Journal.get_item key j) [
  | none ↦ false
  | some (value _) ↦ true
  | some delete_wrapped ↦ false
  | some revert_to_wrapped ↦ false
]

-- The loop of `Journal.diff`.
unfoldable pub diff_onto : DbDiff → Changeset → DbDiff
unfolding Diff.set_item Diff.del_item
diff_onto tracker [] = tracker
diff_onto tracker ((key, value bs) ∷ changes) = diff_onto (Diff.set_item key bs tracker) changes
diff_onto tracker ((key, delete_wrapped) ∷ changes) = diff_onto (Diff.del_item key tracker) changes
diff_onto tracker ((key, revert_to_wrapped) ∷ changes) = diff_onto tracker changes

-- `root_checkpoint` of the journal
unfoldable pub root_of : List (ℕ × Changeset) → Result ℕ
root_of [] = err stop_iteration
root_of ((checkpoint, _) ∷ []) = ok checkpoint
root_of (_ ∷ layer ∷ older) = root_of (layer ∷ older)

module _ {D : Type 0} where
  -- A method of the journal.
  abbrev pub on_journal : {A : Type 0} → Action Journal A → Action (JournalDb D) A
  on_journal = zoom (λ s. s.journal) (λ s j. record s { journal = j })

  unfoldable pub diff : JournalDb D → DbDiff
  unfolding diff_onto
  diff s = diff_onto [] s.journal.current_values

  unfoldable pub reset : JournalDb D → JournalDb D
  unfolding Journal.pop_all
  reset s = record s { journal = (Journal.pop_all s.journal).1 }

  -- `JournalDB(wrapped_db)`, where the counter of checkpoints has come to `next_checkpoint`.
  unfoldable pub new_db : D → ℕ → JournalDb D
  unfolding reset
  new_db d next_checkpoint =
      reset (record { wrapped_db = d; journal = Journal.new next_checkpoint })

  unfoldable pub has_clear : JournalDb D → Result Bool
  unfolding root_of Journal.has_clear
  has_clear s = elim (root_of s.journal.journal_data) [
    | ok checkpoint ↦ Journal.has_clear checkpoint s.journal
    | err e ↦ err e
  ]

  unfoldable pub set_item : ℕ → List ℕ → Action (JournalDb D) ⊤
  unfolding Journal.set_item
  set_item key bs = on_journal (Journal.set_item key bs)

  unfoldable pub clear : JournalDb D → JournalDb D
  unfolding Journal.clear
  clear s = record s { journal = Journal.clear s.journal }

  -- The loop stops at a change that raises.
  unfoldable pub reapply : Changeset → Action (JournalDb D) ⊤
  unfolding Journal.write
  reapply [] s = (ok tt, s)
  reapply ((key, change) ∷ changes) s =
      let (r, after) = on_journal (Journal.write key change) s in
      elim r [ ok _ ↦ reapply changes after | err e ↦ (err e, after) ]

module _ {D : Type 0} ⦃db : Database D⦄ where
  unfoldable pub get_item : ℕ → JournalDb D → Option (List ℕ)
  unfolding Journal.get_item
  get_item key s = elim (Journal.get_item key s.journal) [
    | none ↦ db.get key s.wrapped_db
    | some (value bs) ↦ some bs
    | some delete_wrapped ↦ none
    | some revert_to_wrapped ↦ none
  ]

  unfoldable pub contains_item : ℕ → JournalDb D → Bool
  unfolding Journal.get_item exists
  contains_item key s = elim (Journal.get_item key s.journal) [
    | none ↦ exists key s.wrapped_db
    | some (value _) ↦ true
    | some delete_wrapped ↦ false
    | some revert_to_wrapped ↦ false
  ]

  unfoldable pub del_item : ℕ → Action (JournalDb D) ⊤
  unfolding exists in_journal Journal.delete_wrapped_item Journal.delete_local_item
  del_item key s =
      if exists key s.wrapped_db
      then on_journal (Journal.delete_wrapped_item key) s
      else if in_journal key s.journal
      then on_journal (Journal.delete_local_item key) s
      else raise key_error s

  -- One round of the loop of `persist`.
  unfoldable pub persist_one : ℕ → Change → Action D ⊤
  persist_one key (value bs) = modify (db.put key bs)
  persist_one key delete_wrapped = db.del key
  persist_one key revert_to_wrapped = pure tt

  -- An exception is raised again, with the changes back in the journal.
  unfoldable pub persist_from : Changeset → Changeset → Action (JournalDb D) ⊤
  unfolding persist_one reapply
  persist_from journal_data [] s = (ok tt, s)
  persist_from journal_data ((key, change) ∷ changes) s =
      let (r, written) = persist_one key change s.wrapped_db in
      let after = record s { wrapped_db = written } in
      elim r [
        | ok _ ↦ persist_from journal_data changes after
        | err e ↦
            let (again, restored) = reapply journal_data after in
            (elim again [ ok _ ↦ err e | err other ↦ err other ], restored)
      ]

  unfoldable pub persist : Action (JournalDb D) ⊤
  unfolding Journal.pop_all persist_from reset
  persist s =
      let journal_data = s.journal.current_values in
      persist_from journal_data journal_data (reset s)
