-- ===== src/Journal.antt =====
-- The class `Journal` of veda/db/journal.py: a dictionary of changes with checkpoints to go back to.
-- `journal_data` and `checkpoint_stack` have the latest entry in front. `next_checkpoint` is the
-- counter behind `get_next_checkpoint`, which all journals of the process share.
pub mod Ideal
pub mod Undo
pub mod Tracks
pub mod Discards
pub mod Commits
pub mod Calls
pub mod Layers
pub mod Refines
pub mod Runs
mod Tests
use veda_bvm.Common.{
  ℕ, suc, ◌+◌, Bool, true, false, ◌||◌, Option, none, some, List, [], ◌∷◌, ⊤, ltb, ◌==◌, length,
  if◌then◌else◌,
}
use veda_bvm.Dict.{Dict, lookup, contains, insert, erase}
use veda_bvm.Exceptions.{Result, ok, err, Action, validation_error, stop_iteration}

-- `ChangesetValue`: bytes or one of the two marks of deletion.
pub data Change : Type 0 where
  value : List ℕ → Change
  delete_wrapped revert_to_wrapped : Change

abbrev pub Changeset : Type 0
Changeset = Dict Change

pub record Journal : Type 0 where
  pub current_values : Changeset
  pub journal_data : List (ℕ × Changeset)
  pub clears_at : List ℕ
  pub ignore_wrapped_db : Bool
  pub checkpoint_stack : List ℕ
  pub next_checkpoint : ℕ

-- `Journal()`, where the counter has come to `next_checkpoint`.
abbrev pub new : ℕ → Journal
new next_checkpoint = record {
  current_values = [];
  journal_data = [];
  clears_at = [];
  ignore_wrapped_db = false;
  checkpoint_stack = [];
  next_checkpoint = next_checkpoint;
}

-- `x in s`, for a list or a set of checkpoints
unfoldable pub member : ℕ → List ℕ → Bool
member c [] = false
member c (d ∷ ds) = c == d || member c ds

-- `s.remove(x)`
unfoldable pub remove : ℕ → List ℕ → List ℕ
remove c [] = []
remove c (d ∷ ds) = if c == d then ds else d ∷ remove c ds

-- `d.get(key, REVERT_TO_WRAPPED)`
unfoldable pub get_or_revert : ℕ → Changeset → Change
get_or_revert key d = elim (lookup key d) [ none ↦ revert_to_wrapped | some change ↦ change ]

unfoldable pub has_checkpoint : ℕ → Journal → Bool
unfolding member
has_checkpoint checkpoint j = member checkpoint j.checkpoint_stack

unfoldable pub is_flattened : Journal → Bool
is_flattened j = ltb (length j.checkpoint_stack) 2

-- `self._journal_data[checkpoint] = changeset`
unfoldable pub put_layer : ℕ → Changeset → List (ℕ × Changeset) → List (ℕ × Changeset)
unfolding contains insert
put_layer checkpoint changeset layers =
    if contains checkpoint layers
    then insert checkpoint changeset layers
    else (checkpoint, changeset) ∷ layers

unfoldable pub open_checkpoint : ℕ → Journal → Journal
unfolding put_layer
open_checkpoint checkpoint j = record j {
  journal_data = put_layer checkpoint [] j.journal_data;
  checkpoint_stack = checkpoint ∷ j.checkpoint_stack;
}

unfoldable pub record_checkpoint : Option ℕ → Action Journal ℕ
unfolding open_checkpoint
record_checkpoint (some custom_checkpoint) j =
    if contains custom_checkpoint j.journal_data
    then (err validation_error, j)
    else (ok custom_checkpoint, open_checkpoint custom_checkpoint j)
record_checkpoint none j =
    let checkpoint = j.next_checkpoint in
    (ok checkpoint, open_checkpoint checkpoint (record j { next_checkpoint = suc checkpoint }))

-- The `while` loop of `discard`: whether the checkpoint was found, and what it leaves.
unfoldable pub pop_through : ℕ → List ℕ → Bool × List ℕ
pop_through through [] = (false, [])
pop_through through (checkpoint ∷ older) =
    let rest = pop_through through older in if checkpoint == through then (true, older) else rest

unfoldable pub restore : ℕ → Change → Changeset → Changeset
restore old_key revert_to_wrapped d = erase old_key d
restore old_key delete_wrapped d = insert old_key delete_wrapped d
restore old_key (value bs) d = insert old_key (value bs) d

-- The loop over `rollback_data.items()`. Its keys differ, so the order does not matter.
unfoldable pub rollback : Changeset → Changeset → Changeset
unfolding restore
rollback [] d = d
rollback ((old_key, old_value) ∷ rollback_data) d =
    restore old_key old_value (rollback rollback_data d)

unfoldable pub drop_clear : ℕ → List ℕ → List ℕ
unfolding member remove
drop_clear checkpoint clears = if member checkpoint clears then remove checkpoint clears else clears

-- The body of the `for` loop of `discard`, up to its `break`.
unfoldable pub undo_layer : ℕ → Changeset → List (ℕ × Changeset) → Journal → Journal
unfolding rollback member drop_clear
undo_layer checkpoint rollback_data older j =
    let is_clear = member checkpoint j.clears_at in
    record j {
      journal_data = older;
      current_values = rollback rollback_data j.current_values;
      clears_at = drop_clear checkpoint j.clears_at;
      ignore_wrapped_db = if is_clear then false else j.ignore_wrapped_db;
    }

unfoldable pub undo_through : ℕ → List (ℕ × Changeset) → Journal → Journal
unfolding undo_layer
undo_through through [] j = j
undo_through through ((checkpoint, rollback_data) ∷ older) j =
    let undone = undo_layer checkpoint rollback_data older j in
    let rest = undo_through through older undone in if checkpoint == through then undone else rest

unfoldable pub restart_clear : Journal → Journal
restart_clear j = record j {
  ignore_wrapped_db = elim j.clears_at [ [] ↦ j.ignore_wrapped_db | _ ∷ _ ↦ true ];
}

-- What follows the `while` loop. A checkpoint that is not found leaves no checkpoint on the stack.
unfoldable pub discard_popped : ℕ → Bool × List ℕ → Action Journal ⊤
discard_popped through_checkpoint_id (true, left) j =
    let popped = record j { checkpoint_stack = left } in
    (ok tt, restart_clear (undo_through through_checkpoint_id popped.journal_data popped))
discard_popped through_checkpoint_id (false, left) j =
    (err validation_error, record j { checkpoint_stack = left })

unfoldable pub discard : ℕ → Action Journal ⊤
unfolding discard_popped
discard through_checkpoint_id j =
    discard_popped through_checkpoint_id (pop_through through_checkpoint_id j.checkpoint_stack) j

unfoldable pub clear : Journal → Journal
unfolding put_layer
clear j =
    let checkpoint = j.next_checkpoint in
    record j {
      next_checkpoint = suc checkpoint;
      journal_data = put_layer checkpoint j.current_values j.journal_data;
      current_values = [];
      ignore_wrapped_db = true;
      clears_at = checkpoint ∷ j.clears_at;
    }

unfoldable pub has_clear_from : ℕ → List (ℕ × Changeset) → List ℕ → Result Bool
has_clear_from at_checkpoint [] clears = err validation_error
has_clear_from at_checkpoint ((checkpoint, _) ∷ older) clears =
    let rest = has_clear_from at_checkpoint older clears in
    if member checkpoint clears
    then ok true
    else if at_checkpoint == checkpoint
    then ok false
    else rest

unfoldable pub has_clear : ℕ → Journal → Result Bool
unfolding has_clear_from member
has_clear at_checkpoint j = has_clear_from at_checkpoint j.journal_data j.clears_at

-- `del self._checkpoint_stack[checkpoint_idx:]`, unless the checkpoint is missing or the first one.
unfoldable pub commit_popped : Bool × List ℕ → Action Journal Changeset
commit_popped (true, []) j = (err validation_error, j)
commit_popped (true, c ∷ older) j = (ok j.current_values, record j { checkpoint_stack = c ∷ older })
commit_popped (false, left) j = (err validation_error, j)

unfoldable pub commit_checkpoint : ℕ → Action Journal Changeset
unfolding pop_through commit_popped
commit_checkpoint commit_to j = commit_popped (pop_through commit_to j.checkpoint_stack) j

unfoldable pub pop_all : Journal → Changeset × Journal
unfolding open_checkpoint
pop_all j =
    let emptied = record j {
      journal_data = [];
      clears_at = [];
      current_values = [];
      checkpoint_stack = [];
      next_checkpoint = suc j.next_checkpoint;
    } in
    (
      j.current_values,
      record (open_checkpoint j.next_checkpoint emptied) { ignore_wrapped_db = false },
    )

-- `nth(1, self._checkpoint_stack)`, where the stack has two entries at least.
unfoldable pub after_root : List ℕ → Option ℕ
after_root [] = none
after_root (c ∷ []) = none
after_root (c ∷ d ∷ []) = some c
after_root (c ∷ d ∷ e ∷ s) = after_root (d ∷ e ∷ s)

unfoldable pub flatten : Journal → Result ⊤ × Journal
unfolding is_flattened after_root commit_checkpoint
flatten j = if is_flattened j then (ok tt, j) else elim (after_root j.checkpoint_stack) [
  | none ↦ (ok tt, j)
  | some checkpoint ↦
      let (r, j') = commit_checkpoint checkpoint j in (elim r [ ok _ ↦ ok tt | err e ↦ err e ], j')
]

-- `__getitem__`; `none` tells the caller to ask the wrapped database.
unfoldable pub get_item : ℕ → Journal → Option Change
unfolding lookup
get_item key j = elim (lookup key j.current_values) [
  | some change ↦ some change
  | none ↦ if j.ignore_wrapped_db then some revert_to_wrapped else none
]

-- What a change of a key adds to the changeset of the last checkpoint.
unfoldable pub note_revert : ℕ → Changeset → Changeset → Changeset
unfolding contains insert get_or_revert
note_revert key current revert_changeset =
    if contains key revert_changeset
    then revert_changeset
    else insert key (get_or_revert key current) revert_changeset

-- What `__setitem__`, `delete_wrapped` and `delete_local` share. A journal with no layer has no
-- last checkpoint.
unfoldable pub write_onto : ℕ → Change → List (ℕ × Changeset) → Action Journal ⊤
unfolding note_revert
write_onto key change [] j = (err stop_iteration, j)
write_onto key change ((checkpoint, revert_changeset) ∷ older) j = (
  ok tt,
  record j {
    journal_data = (checkpoint, note_revert key j.current_values revert_changeset) ∷ older;
    current_values = insert key change j.current_values;
  },
)

unfoldable pub write : ℕ → Change → Action Journal ⊤
unfolding write_onto
write key change j = write_onto key change j.journal_data j

unfoldable pub set_item : ℕ → List ℕ → Action Journal ⊤
unfolding write
set_item key bs = write key (value bs)

unfoldable pub delete_wrapped_item : ℕ → Action Journal ⊤
unfolding write
delete_wrapped_item key = write key delete_wrapped

unfoldable pub delete_local_item : ℕ → Action Journal ⊤
unfolding write
delete_local_item key = write key revert_to_wrapped
