-- ===== src/JournalDb/Pending.antt =====
-- The diff of a journal says beforehand what `persist` writes.
use veda_bvm.Common.{
  ℕ, ◌≡◌, refl, sym, ap, ◌∙◌, true, false, Option, none, some, [], ◌∷◌, arith, ◌==◌, All,
  Bool-cases, inl, inr, ==_iff,
}
use veda_bvm.Database.Applied.{apply_to_lem, overlay}
use veda_bvm.Database.Diff
use veda_bvm.Database.Diff.{Entry, DbDiff, apply_to}
use veda_bvm.Database.{Database}
use veda_bvm.Dict.Unique.{Unique, insert-Unique, lookup-absent}
use veda_bvm.Dict.{lookup, contains, insert, lookup-insert}
use veda_bvm.Exceptions.{ok}
use veda_bvm.Journal.{Change, value, delete_wrapped, revert_to_wrapped, Changeset}
use veda_bvm.JournalDb.Persist.{over, persist-Persisted, exists-none}
use veda_bvm.JournalDb.Sound.{Sound, Fits}
use veda_bvm.JournalDb.{JournalDb, diff, diff_onto, persist}

-- The entry of the diff for a key, over the entry there was.
abbrev onto : Option Change → Option Entry → Option Entry
onto none e = e
onto (some (value bs)) e = some (Entry.value bs)
onto (some delete_wrapped) e = some Entry.deleted
onto (some revert_to_wrapped) e = e

diff_onto-Unique :
    (tracker : DbDiff) (changes : Changeset) → Unique tracker → Unique (diff_onto tracker changes)
unfolding diff_onto Diff.set_item Diff.del_item
diff_onto-Unique tracker [] u = u
diff_onto-Unique tracker ((k, value bs) ∷ changes) u =
    diff_onto-Unique (insert k (Entry.value bs) tracker) changes
      (insert-Unique k (Entry.value bs) tracker u)
diff_onto-Unique tracker ((k, delete_wrapped) ∷ changes) u =
    diff_onto-Unique (insert k Entry.deleted tracker) changes
      (insert-Unique k Entry.deleted tracker u)
diff_onto-Unique tracker ((k, revert_to_wrapped) ∷ changes) u = diff_onto-Unique tracker changes u

onto-insert :
    (q k : ℕ) (e : Entry) (c : Change) (changes : Changeset) (tracker : DbDiff)
    → contains k changes ≡ false
    → ((o : Option Entry) → onto (some c) o ≡ some e)
    → onto (lookup q changes) (lookup q (insert k e tracker))
      ≡ onto (lookup q ((k, c) ∷ changes)) (lookup q tracker)
unfolding lookup
onto-insert q k e c changes tracker new is = elim (Bool-cases (q == k)) [
  | inl same ↦
      ground (
        arith,
        lookup-insert q k e tracker,
        lookup-absent k changes new,
        is (lookup q tracker),
        same,
      )
  | inr other ↦ ground (arith, lookup-insert q k e tracker, other)
]

lookup-diff_onto :
    (q : ℕ) (tracker : DbDiff) (changes : Changeset)
    → Unique changes
    → lookup q (diff_onto tracker changes) ≡ onto (lookup q changes) (lookup q tracker)
unfolding diff_onto Diff.set_item Diff.del_item
lookup-diff_onto q tracker [] u = unfold lookup in refl
lookup-diff_onto q tracker ((k, value bs) ∷ changes) (new, u) =
    lookup-diff_onto q (insert k (Entry.value bs) tracker) changes u
    ∙ onto-insert q k (Entry.value bs) (value bs) changes tracker new (λ o. refl)
lookup-diff_onto q tracker ((k, delete_wrapped) ∷ changes) (new, u) =
    lookup-diff_onto q (insert k Entry.deleted tracker) changes u
    ∙ onto-insert q k Entry.deleted delete_wrapped changes tracker new (λ o. refl)
lookup-diff_onto q tracker ((k, revert_to_wrapped) ∷ changes) (new, u) =
    lookup-diff_onto q tracker changes u
    ∙ (unfold lookup in
        elim (Bool-cases (q == k)) [
          | inl same ↦ ground (arith, lookup-absent k changes new, same)
          | inr other ↦ ground (arith, other)
        ])

module _ {D : Type 0} ⦃db : Database D⦄ where
  -- A key that is given back was not in the wrapped database.
  overlay-onto :
      (q : ℕ) (d : D) (changes : Changeset)
      → All (Fits d) changes
      → overlay true (onto (lookup q changes) none) (db.get q d)
        ≡ over (lookup q changes) (db.get q d)
  unfolding lookup
  overlay-onto q d [] h = refl
  overlay-onto q d ((k, c) ∷ changes) (f, h) = elim (Bool-cases (q == k)) [
    | inl same ↦ rw same (shown_same c f (ap (λ j. db.get j d) ((==_iff q k).0 same)))
    | inr other ↦ rw other (overlay-onto q d changes h)
  ]
    where
      shown_same :
          (c : Change)
          → Fits d (k, c)
          → db.get q d ≡ db.get k d
          → overlay true (onto (some c) none) (db.get q d) ≡ over (some c) (db.get q d)
      shown_same (value bs) f e = refl
      shown_same delete_wrapped f e = refl
      shown_same revert_to_wrapped f e = e ∙ exists-none k d f

  -- The diff of a database whose journal is sound holds each key once, and applying it with its
  -- deletions to the wrapped database raises nothing and leaves every key to read as `persist` does.
  pub diff_lem :
      (s : JournalDb D)
      → Sound s.wrapped_db s.journal
      → Unique (diff s)
        × ((apply_to true (diff s) s.wrapped_db).0 ≡ ok tt)
        × ((q : ℕ)
            → db.get q (apply_to true (diff s) s.wrapped_db).1 ≡ db.get q (persist s).1.wrapped_db)
  unfolding diff lookup
  diff_lem s sound =
      let changes = s.journal.current_values in
      let u = diff_onto-Unique [] changes tt in
      let (ran, reads) = apply_to_lem true (diff_onto [] changes) s.wrapped_db u in
      (
        u,
        ran,
        λ q.
            reads q
            ∙ ap (λ e. overlay true e (db.get q s.wrapped_db))
                (lookup-diff_onto q [] changes sound.one_each)
            ∙ overlay-onto q s.wrapped_db changes sound.current
            ∙ sym ((persist-Persisted s sound).wrapped q),
      )
