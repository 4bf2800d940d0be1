-- ===== src/Journal/Discards.antt =====
-- What the loops of `discard` and `commit_checkpoint` leave, for a journal that keeps track of its
-- checkpoints.
use veda_bvm.Common.{
  ℕ, ◌≡◌, refl, ◌∙◌, ==_iff, ⊤, true, false, Option, none, some, List, [], ◌∷◌, arith, ◌==◌,
  Bool-cases, inl, inr, map,
}
use veda_bvm.Journal.{Changeset, Journal, undo_layer, undo_through, pop_through, drop_clear}
use veda_bvm.Journal.Ideal.{Copy, find}
use veda_bvm.Journal.Tracks.{IsCopy, Tracks, root, open_layer, merged_layer, nonempty}

-- The flag is set only if there is a clear.
abbrev pub Explained : Journal → Type 0
Explained j = j.ignore_wrapped_db ≡ true → nonempty j.clears_at ≡ true

-- The layers down to a checkpoint are undone.
pub record Undone (n : ℕ) (copy : Copy) (copies : List (ℕ × Copy)) (j k : Journal) : Type 0 where
  pub copied : IsCopy copy k.current_values k.clears_at
  pub tracks : Tracks n k.journal_data k.current_values k.clears_at copies
  pub same_stack : k.checkpoint_stack ≡ j.checkpoint_stack
  pub same_next : k.next_checkpoint ≡ j.next_checkpoint
  pub explained : Explained k

undo_layer-Explained :
    (id : ℕ) (changes : Changeset) (older : List (ℕ × Changeset)) (j : Journal)
    → Explained j
    → Explained (undo_layer id changes older j)
unfolding undo_layer drop_clear
undo_layer-Explained id changes older j h e = ground arith

-- The same for the copy that is found, if there is one.
unfoldable pub UndoneTo : ℕ → Option (Copy × List (ℕ × Copy)) → Journal → Journal → Type 0
UndoneTo n none j k = ⊤
UndoneTo n (some (copy, copies)) j k = Undone n copy copies j k

module _ (c id : ℕ) where
  undo_through-here :
      (changes : Changeset) (older : List (ℕ × Changeset)) (j : Journal)
      → id == c ≡ true
      → undo_through c ((id, changes) ∷ older) j ≡ undo_layer id changes older j
  unfolding undo_through
  undo_through-here changes older j h = ground arith

  undo_through-past :
      (changes : Changeset) (older : List (ℕ × Changeset)) (j : Journal)
      → id == c ≡ false
      → undo_through c ((id, changes) ∷ older) j
        ≡ undo_through c older (undo_layer id changes older j)
  unfolding undo_through
  undo_through-past changes older j h = ground arith

  pub find-here :
      (copy : Copy) (copies : List (ℕ × Copy))
      → id == c ≡ true
      → find c ((id, copy) ∷ copies) ≡ some (copy, copies)
  unfolding find
  find-here copy copies h = ground arith

  pub find-past :
      (copy : Copy) (copies : List (ℕ × Copy))
      → id == c ≡ false
      → find c ((id, copy) ∷ copies) ≡ find c copies
  unfolding find
  find-past copy copies h = ground arith

  none_found :
      (copies : List (ℕ × Copy)) → id == c ≡ true → find id copies ≡ none → find c copies ≡ none
  none_found copies h e = rw (← (==_iff id c).0 h) e

UndoneTo-later :
    (n : ℕ) (found : Option (Copy × List (ℕ × Copy))) (j i k : Journal)
    → i.checkpoint_stack ≡ j.checkpoint_stack
    → i.next_checkpoint ≡ j.next_checkpoint
    → UndoneTo n found i k
    → UndoneTo n found j k
unfolding UndoneTo
UndoneTo-later n none j i k p q u = tt
UndoneTo-later n (some (copy, copies)) j i k p q u = record {
  copied = u.copied;
  tracks = u.tracks;
  same_stack = u.same_stack ∙ p;
  same_next = u.same_next ∙ q;
  explained = u.explained;
}

pub undo_through_lem :
    (c : ℕ) {n : ℕ} {layers : List (ℕ × Changeset)} {copies : List (ℕ × Copy)} (j : Journal)
    → Tracks n layers j.current_values j.clears_at copies
    → Explained j
    → UndoneTo n (find c copies) j (undo_through c layers j)
unfolding undo_layer UndoneTo
undo_through_lem c j root x = unfold find in tt
undo_through_lem c {n} j
      (open_layer {id} {changes} {older} {copy = copy} {copies} below fresh copied t) x =
    elim (Bool-cases (id == c)) [
      | inl same ↦
          rw (find-here c id copy copies same, undo_through-here c id changes older j same)
            (record {
              copied = copied;
              tracks = t;
              same_stack = refl;
              same_next = refl;
              explained = undo_layer-Explained id changes older j x;
            })
      | inr other ↦
          rw (find-past c id copy copies other, undo_through-past c id changes older j other)
            (UndoneTo-later n (find c copies) j _ _ refl refl (
              undo_through_lem c (undo_layer id changes older j) t
                (undo_layer-Explained id changes older j x)))
    ]
undo_through_lem c {n} j (merged_layer {id} {changes} {older} {copies = copies} below fresh t) x =
    elim (Bool-cases (id == c)) [
      | inl same ↦ rw (none_found c id copies same fresh) tt
      | inr other ↦ rw (undo_through-past c id changes older j other) (
          UndoneTo-later n (find c copies) j _ _ refl refl (
            undo_through_lem c (undo_layer id changes older j) t
              (undo_layer-Explained id changes older j x)))
    ]

-- The checkpoints from the top down to one are popped, as the copies are.
pub pop_through_lem :
    (c : ℕ) (copies : List (ℕ × Copy))
    → pop_through c (map (λ p. p.0) copies)
      ≡ elim (find c copies) [ none ↦ (false, []) | some (_, older) ↦ (true, map (λ p. p.0) older) ]
unfolding pop_through find
pop_through_lem c [] = refl
pop_through_lem c ((id, copy) ∷ copies) = ground (arith, pop_through_lem c copies)
