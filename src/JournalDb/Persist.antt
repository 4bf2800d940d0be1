-- ===== src/JournalDb/Persist.antt =====
-- What `persist` writes to the wrapped database, and that `diff` says it beforehand.
use veda_bvm.Common.{
  ℕ, ◌≡◌, refl, sym, ap, ◌∙◌, true, false, Option, none, some, List, [], ◌∷◌, ⊤, arith, ◌==◌,
  if◌then◌else◌, All, Bool-cases, Option-cases, inl, inr, ==_iff,
}
use veda_bvm.Database.{Database, exists}
use veda_bvm.Dict.Unique.{Unique, contains-rest, lookup-absent}
use veda_bvm.Dict.{lookup, contains}
use veda_bvm.Exceptions.{Result, ok}
use veda_bvm.Journal
use veda_bvm.Journal.{Change, value, delete_wrapped, revert_to_wrapped, Changeset, Journal}
use veda_bvm.JournalDb.Sound.{Sound, Fits}
use veda_bvm.JournalDb.{JournalDb, get_item, persist_one, persist_from, persist, reset}

-- What a change makes a key read as.
abbrev pub shown : Change → Option (List ℕ)
shown (value bs) = some bs
shown delete_wrapped = none
shown revert_to_wrapped = none

-- What a key reads as over changes, where it read as `old`.
abbrev pub over : Option Change → Option (List ℕ) → Option (List ℕ)
over none old = old
over (some c) old = shown c

module _ {D : Type 0} ⦃db : Database D⦄ where
  -- The change is made, without an exception.
  record Made (k : ℕ) (c : Change) (d : D) : Type 0 where
    fine : (persist_one k c d).0 ≡ ok tt
    reads : (q : ℕ) → db.get q (persist_one k c d).1 ≡ (if q == k then shown c else db.get q d)

  exists-some : (k : ℕ) (d : D) → exists k d ≡ true → (v : List ℕ) × (db.get k d ≡ some v)
  unfolding exists
  exists-some k d h = elim (Option-cases (db.get k d)) [
    | inl gone ↦ absurd (ground (arith, h, gone))
    | inr found ↦ found
  ]

  pub exists-none : (k : ℕ) (d : D) → exists k d ≡ false → db.get k d ≡ none
  unfolding exists
  exists-none k d h = ground (arith, h)

  persist_one_lem : (k : ℕ) (c : Change) (d : D) → Fits d (k, c) → Made k c d
  unfolding persist_one
  persist_one_lem k (value bs) d f = record { fine = refl; reads = λ q. db.get-put q k bs d }
  persist_one_lem k delete_wrapped d f = record {
    fine = db.del-present k d (exists-some k d f).1;
    reads = λ q. db.get-del q k d;
  }
  persist_one_lem k revert_to_wrapped d f = record {
    fine = refl;
    reads = λ q. elim (Bool-cases (q == k)) [
      | inl here ↦ rw here (ap (λ j. db.get j d) ((==_iff q k).0 here) ∙ exists-none k d f)
      | inr other ↦ rw other refl
    ];
  }

  Fits-same :
      (j : ℕ) (e : Change) (d d2 : D) → db.get j d2 ≡ db.get j d → Fits d (j, e) → Fits d2 (j, e)
  unfolding exists
  Fits-same j (value bs) d d2 same f = tt
  Fits-same j delete_wrapped d d2 same f = ground (arith, same, f)
  Fits-same j revert_to_wrapped d d2 same f = ground (arith, same, f)

  -- Changes of other keys still fit.
  still_fit :
      (k : ℕ) (c : Change) (d : D) (changes : Changeset)
      → Made k c d
      → contains k changes ≡ false
      → All (Fits d) changes
      → All (Fits (persist_one k c d).1) changes
  still_fit k c d [] m new h = tt
  still_fit k c d ((j, e) ∷ changes) m new (f, h) =
      let (other, rest) = contains-rest k j e changes new in
      let same : db.get j (persist_one k c d).1 ≡ db.get j d = ground (arith, m.reads j, other) in
      (Fits-same j e d (persist_one k c d).1 same f, still_fit k c d changes m rest h)

  -- The changes are written one by one, and none of them raises.
  record Written (changes : Changeset) (s : JournalDb D) (p : Result ⊤ × JournalDb D) : Type 0 where
    ran : p.0 ≡ ok tt
    same_journal : p.1.journal ≡ s.journal
    reads : (q : ℕ) → db.get q p.1.wrapped_db ≡ over (lookup q changes) (db.get q s.wrapped_db)

  persist_from-cons :
      (all : Changeset) (k : ℕ) (c : Change) (changes : Changeset) (s : JournalDb D)
      → (persist_one k c s.wrapped_db).0 ≡ ok tt
      → persist_from all ((k, c) ∷ changes) s
        ≡ persist_from all changes (record s { wrapped_db = (persist_one k c s.wrapped_db).1 })
  unfolding persist_from
  persist_from-cons all k c changes s h = rw (persist_from, h) refl

  persist_from_lem :
      (all changes : Changeset) (s : JournalDb D)
      → Unique changes
      → All (Fits s.wrapped_db) changes
      → Written changes s (persist_from all changes s)
  unfolding lookup
  persist_from_lem all [] s u f =
      unfold persist_from in record { ran = refl; same_journal = refl; reads = λ q. refl }
  persist_from_lem all ((k, c) ∷ changes) s (new, u) (f, h) =
      let m = persist_one_lem k c s.wrapped_db f in
      let rest =
        persist_from_lem all changes (record s { wrapped_db = (persist_one k c s.wrapped_db).1 }) u
          (still_fit k c s.wrapped_db changes m new h) in
      rw (persist_from-cons all k c changes s m.fine) (record {
        ran = rest.ran;
        same_journal = rest.same_journal;
        reads = λ q. rest.reads q ∙ over-cons q m;
      })
    where
      over-cons :
          (q : ℕ)
          → Made k c s.wrapped_db
          → over (lookup q changes) (db.get q (persist_one k c s.wrapped_db).1)
            ≡ over (if q == k then some c else lookup q changes) (db.get q s.wrapped_db)
      over-cons q m = elim (Bool-cases (q == k)) [
        | inl same ↦ ground (arith, m.reads q, same, lookup-absent k changes new)
        | inr other ↦ ground (arith, m.reads q, other)
      ]

  -- The state after a persist: the changes are in the wrapped database and the journal is new.
  pub record Persisted (s : JournalDb D) : Type 0 where
    pub ran : (persist s).0 ≡ ok tt
    pub new_journal : (persist s).1.journal ≡ (reset s).journal
    -- every key that was changed reads as it did, every other key as it did in the wrapped database
    pub wrapped :
        (q : ℕ)
        → db.get q (persist s).1.wrapped_db
          ≡ over (lookup q s.journal.current_values) (db.get q s.wrapped_db)
    -- without a clear, all keys read as they did before
    pub reads :
        s.journal.ignore_wrapped_db ≡ false
        → (q : ℕ)
        → (db.get q (persist s).1.wrapped_db ≡ get_item q s)
          × (get_item q (persist s).1 ≡ get_item q s)

  pub get_item-over :
      (q : ℕ) (s : JournalDb D)
      → s.journal.ignore_wrapped_db ≡ false
      → get_item q s ≡ over (lookup q s.journal.current_values) (db.get q s.wrapped_db)
  unfolding get_item Journal.get_item
  get_item-over q s h = ground (arith, h)

  -- With a new journal, a key reads as in the wrapped database.
  get_item-reset :
      (q : ℕ) (s t : JournalDb D)
      → t.journal ≡ (reset s).journal
      → get_item q t ≡ db.get q t.wrapped_db
  unfolding reset Journal.pop_all lookup
  get_item-reset q s t new =
      get_item-over q t (ap (λ j. j.ignore_wrapped_db) new)
      ∙ ap (λ j. over (lookup q j.current_values) (db.get q t.wrapped_db)) new

  pub persist-Persisted : (s : JournalDb D) → Sound s.wrapped_db s.journal → Persisted s
  unfolding persist reset
  persist-Persisted s sound =
      let changes = s.journal.current_values in
      let w = persist_from_lem changes changes (reset s) sound.one_each sound.current in
      record {
        ran = w.ran;
        new_journal = w.same_journal;
        wrapped = w.reads;
        reads = λ h q. (
          w.reads q ∙ sym (get_item-over q s h),
          get_item-reset q s (persist s).1 w.same_journal ∙ w.reads q ∙ sym (get_item-over q s h),
        );
      }
