-- ===== src/Journal/Undo.antt =====
-- What a rollback gives back, key by key.
use native.Mathlib.Decide.{ℕ_discrete}
use veda_bvm.Common.{
  ℕ, ◌≡◌, refl, sym, ◌∙◌, Option, none, some, [], ◌∷◌, arith, ◌==◌, if◌then◌else◌,
}
use veda_bvm.Dict.{lookup, contains, insert, lookup-insert, lookup-erase}
use veda_bvm.Journal.{
  Change, value, delete_wrapped, revert_to_wrapped, Changeset, restore, rollback, get_or_revert,
  note_revert,
}
use veda_bvm.Journal.Ideal.{normal}

-- The change of a key that the changeset holds, where a key given back counts as none.
unfoldable pub seen : ℕ → Changeset → Option Change
seen q d = elim (lookup q d) [ none ↦ none | some change ↦ normal change ]

abbrev pub Agree : Changeset → Changeset → Type 0
Agree d e = (q : ℕ) → seen q d ≡ seen q e

pub seen-insert :
    (q k : ℕ) (c : Change) (d : Changeset)
    → seen q (insert k c d) ≡ (if q == k then normal c else seen q d)
seen-insert q k c d = unfold seen in ground (arith, lookup-insert q k c d)

seen-restore :
    (q k : ℕ) (c : Change) (d : Changeset)
    → seen q (restore k c d) ≡ (if q == k then normal c else seen q d)
unfolding restore
seen-restore q k (value bs) d = seen-insert q k (value bs) d
seen-restore q k delete_wrapped d = seen-insert q k delete_wrapped d
seen-restore q k revert_to_wrapped d = unfold seen in ground (arith, lookup-erase q k d)

-- A rollback gives back what its changeset notes, and leaves the other keys.
pub seen-rollback :
    (q : ℕ) (changes d : Changeset)
    → seen q (rollback changes d) ≡ elim (lookup q changes) [ none ↦ seen q d | some c ↦ normal c ]
unfolding rollback lookup
seen-rollback q [] d = refl
seen-rollback q ((k, c) ∷ changes) d =
    seen-restore q k c (rollback changes d) ∙ ground (arith, seen-rollback q changes d)

pub rollback-Agree :
    (changes d e : Changeset) → Agree d e → Agree (rollback changes d) (rollback changes e)
rollback-Agree changes d e h q =
    seen-rollback q changes d ∙ ground (arith, h q) ∙ sym (seen-rollback q changes e)

-- Before a clear, the whole of the changes is noted.
pub rollback_clear : (d : Changeset) → Agree (rollback d []) d
rollback_clear d q = seen-rollback q d [] ∙ (unfold seen lookup in ground arith)

lookup-note_revert :
    (q key : ℕ) (d changes : Changeset)
    → lookup q (note_revert key d changes) ≡ (
        if contains key changes
        then lookup q changes
        else if q == key
        then some (get_or_revert key d)
        else lookup q changes)
unfolding note_revert
lookup-note_revert q key d changes =
    ground (arith, lookup-insert q key (get_or_revert key d) changes)

-- A change is undone with its layer: what the layer notes about the key makes up for it.
pub rollback-note_revert :
    (key : ℕ) (c : Change) (changes d : Changeset)
    → Agree (rollback (note_revert key d changes) (insert key c d)) (rollback changes d)
rollback-note_revert key c changes d q =
    seen-rollback q (note_revert key d changes) (insert key c d)
    ∙ elim (ℕ_discrete q key) [
      | yes same ↦ rw same (
          unfold seen contains get_or_revert in
          ground (arith, lookup-note_revert key key d changes, lookup-insert key key c d))
      | no other ↦
          unfold seen in ground (arith, lookup-note_revert q key d changes, lookup-insert q key c d)
    ]
    ∙ sym (seen-rollback q changes d)
