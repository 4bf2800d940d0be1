-- ===== src/JournalDb/Sound.antt =====
-- The changes that a journal may hold over a wrapped database, and the journal's methods that keep
-- them so.
use veda_bvm.Common.{
  ℕ, ◌≡◌, sym, true, false, List, [], ◌∷◌, ⊤, arith, ◌==◌, All, Bool-cases, subst, ==_iff, inl, inr,
}
use veda_bvm.Database.{Database, exists}
use veda_bvm.Dict.Unique.{Unique, insert-Unique}
use veda_bvm.Dict.{Dict, lookup, contains, insert, erase, lookup-erase}
use veda_bvm.Journal.{
  Change, value, delete_wrapped, revert_to_wrapped, Changeset, Journal, rollback, restore,
  put_layer, note_revert, get_or_revert, undo_layer, undo_through, write, write_onto,
}

-- On the entries of a dictionary.
module _ {V : Type 0} (P : ℕ × V → Type 0) where
  pub All-insert : (k : ℕ) (v : V) (d : Dict V) → P (k, v) → All P d → All P (insert k v d)
  unfolding insert
  All-insert k v [] p h = (p, tt)
  All-insert k v ((j, w) ∷ d) p (q, h) = elim (Bool-cases (k == j)) [
    | inl same ↦ rw same (p, h)
    | inr other ↦ rw other (q, All-insert k v d p h)
  ]

  pub All-erase : (k : ℕ) (d : Dict V) → All P d → All P (erase k d)
  unfolding erase
  All-erase k [] h = tt
  All-erase k ((j, w) ∷ d) (q, h) = elim (Bool-cases (k == j)) [
    | inl same ↦ rw same (All-erase k d h)
    | inr other ↦ rw other (q, All-erase k d h)
  ]

module _ {V : Type 0} where
  contains-erase : (q k : ℕ) (d : Dict V) → contains q d ≡ false → contains q (erase k d) ≡ false
  unfolding contains
  contains-erase q k d h = ground (arith, lookup-erase q k d)

  pub erase-Unique : (k : ℕ) (d : Dict V) → Unique d → Unique (erase k d)
  unfolding erase
  erase-Unique k [] u = tt
  erase-Unique k ((j, w) ∷ d) (new, u) = elim (Bool-cases (k == j)) [
    | inl same ↦ rw same (erase-Unique k d u)
    | inr other ↦ rw other (contains-erase j k d new, erase-Unique k d u)
  ]

get_or_revert-here :
    (k j : ℕ) (c : Change) (changes : Changeset)
    → k == j ≡ true
    → get_or_revert k ((j, c) ∷ changes) ≡ c
unfolding get_or_revert lookup
get_or_revert-here k j c changes h = ground (arith, h)

get_or_revert-past :
    (k j : ℕ) (c : Change) (changes : Changeset)
    → k == j ≡ false
    → get_or_revert k ((j, c) ∷ changes) ≡ get_or_revert k changes
unfolding get_or_revert lookup
get_or_revert-past k j c changes h = ground (arith, h)

module _ {D : Type 0} ⦃db : Database D⦄ (d : D) where
  -- A mark of a deletion from the wrapped database stands for a key that is there.
  abbrev pub Deletes : ℕ × Change → Type 0
  Deletes (k, value bs) = ⊤
  Deletes (k, delete_wrapped) = exists k d ≡ true
  Deletes (k, revert_to_wrapped) = ⊤

  -- In the current changes, a key that is given back is not in the wrapped database.
  abbrev pub Fits : ℕ × Change → Type 0
  Fits (k, value bs) = ⊤
  Fits (k, delete_wrapped) = exists k d ≡ true
  Fits (k, revert_to_wrapped) = exists k d ≡ false

  Fits-Deletes : (k : ℕ) (c : Change) → Fits (k, c) → Deletes (k, c)
  Fits-Deletes k (value bs) h = tt
  Fits-Deletes k delete_wrapped h = h
  Fits-Deletes k revert_to_wrapped h = tt

  pub Fits-All-Deletes : (changes : Changeset) → All Fits changes → All Deletes changes
  Fits-All-Deletes [] h = tt
  Fits-All-Deletes ((k, c) ∷ changes) (f, h) = (Fits-Deletes k c f, Fits-All-Deletes changes h)

  abbrev pub Layer : ℕ × Changeset → Type 0
  Layer (checkpoint, changes) = All Deletes changes

  pub record Sound (j : Journal) : Type 0 where
    pub one_each : Unique j.current_values
    pub current : All Fits j.current_values
    pub layers : All Layer j.journal_data

  pub put_layer-Layer :
      (c : ℕ) (changes : Changeset) (layers : List (ℕ × Changeset))
      → All Deletes changes
      → All Layer layers
      → All Layer (put_layer c changes layers)
  unfolding put_layer
  put_layer-Layer c changes layers h l = elim (Bool-cases (contains c layers)) [
    | inl old ↦ rw old (All-insert Layer c changes layers h l)
    | inr new ↦ rw new (h, l)
  ]

  get_or_revert-Deletes :
      (k : ℕ) (changes : Changeset) → All Fits changes → Deletes (k, get_or_revert k changes)
  unfolding get_or_revert lookup
  get_or_revert-Deletes k [] h = tt
  get_or_revert-Deletes k ((j, c) ∷ changes) (f, h) = elim (Bool-cases (k == j)) [
    | inl same ↦
        subst (λ e. Deletes (k, e)) (sym (get_or_revert-here k j c changes same))
          (subst (λ i. Deletes (i, c)) (sym ((==_iff k j).0 same)) (Fits-Deletes j c f))
    | inr other ↦
        subst (λ e. Deletes (k, e)) (sym (get_or_revert-past k j c changes other))
          (get_or_revert-Deletes k changes h)
  ]

  note_revert-Deletes :
      (k : ℕ) (current changes : Changeset)
      → All Fits current
      → All Deletes changes
      → All Deletes (note_revert k current changes)
  unfolding note_revert
  note_revert-Deletes k current changes f h = elim (Bool-cases (contains k changes)) [
    | inl old ↦ rw old h
    | inr new ↦ rw new (
        All-insert Deletes k (get_or_revert k current) changes (get_or_revert-Deletes k current f)
          h)
  ]

  -- A change that fits is written, or there is no layer to note it in.
  pub write-Sound :
      (k : ℕ) (c : Change) (j : Journal) → Fits (k, c) → Sound j → Sound (write k c j).1
  unfolding write
  write-Sound k c j f s = onto j.journal_data s.layers
    where
      onto : (layers : List (ℕ × Changeset)) → All Layer layers → Sound (write_onto k c layers j).1
      onto [] l = unfold write_onto in s
      onto ((checkpoint, changes) ∷ older) (h, l) =
          unfold write_onto in
          record {
            one_each = insert-Unique k c j.current_values s.one_each;
            current = All-insert Fits k c j.current_values f s.current;
            layers = (note_revert-Deletes k j.current_values changes s.current h, l);
          }

  -- Undoing changes gives changes that fit.
  Restored : Changeset → Type 0
  Restored current = Unique current × All Fits current

  restore-Restored :
      (k : ℕ) (c : Change) (current : Changeset)
      → Deletes (k, c)
      → Restored current
      → Restored (restore k c current)
  unfolding restore Restored
  restore-Restored k (value bs) current h (u, f) =
      (insert-Unique k (value bs) current u, All-insert Fits k (value bs) current tt f)
  restore-Restored k delete_wrapped current h (u, f) =
      (insert-Unique k delete_wrapped current u, All-insert Fits k delete_wrapped current h f)
  restore-Restored k revert_to_wrapped current h (u, f) =
      (erase-Unique k current u, All-erase Fits k current f)

  rollback-Restored :
      (changes current : Changeset)
      → All Deletes changes
      → Restored current
      → Restored (rollback changes current)
  unfolding rollback
  rollback-Restored [] current h r = r
  rollback-Restored ((k, c) ∷ changes) current (f, h) r =
      restore-Restored k c (rollback changes current) f (rollback-Restored changes current h r)

  undo_layer-Sound :
      (c : ℕ) (changes : Changeset) (older : List (ℕ × Changeset)) (j : Journal)
      → All Deletes changes
      → All Layer older
      → Sound j
      → Sound (undo_layer c changes older j)
  unfolding undo_layer Restored
  undo_layer-Sound c changes older j h l s =
      let (u, f) = rollback-Restored changes j.current_values h (s.one_each, s.current) in
      record { one_each = u; current = f; layers = l }

  pub undo_through-Sound :
      (c : ℕ) (layers : List (ℕ × Changeset)) (j : Journal)
      → All Layer layers
      → Sound j
      → Sound (undo_through c layers j)
  unfolding undo_through
  undo_through-Sound c [] j l s = s
  undo_through-Sound c ((checkpoint, changes) ∷ older) j (h, l) s =
      let undone = undo_layer-Sound checkpoint changes older j h l s in
      elim (Bool-cases (checkpoint == c)) [
        | inl same ↦ rw same undone
        | inr other ↦
            rw other (undo_through-Sound c older (undo_layer checkpoint changes older j) l undone)
      ]
