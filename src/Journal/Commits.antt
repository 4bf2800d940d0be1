-- ===== src/Journal/Commits.antt =====
-- What `commit_checkpoint` leaves: the layers stay, and the copies from the top down to a checkpoint
-- go.
use veda_bvm.Common.{
  ℕ, ◌<◌, ◌≡◌, ⊤, Option, none, some, List, [], ◌∷◌, arith, ◌==◌, Bool-cases, inl, inr,
}
use veda_bvm.Journal.Discards.{find-here, find-past}
use veda_bvm.Journal.Ideal.{Copy, find}
use veda_bvm.Journal.Tracks.{Tracks, root, open_layer, merged_layer}
use veda_bvm.Journal.{Changeset, rollback, drop_clear}

-- The layers keep track of the copies older than the one that is found.
unfoldable pub Kept :
    ℕ → List (ℕ × Changeset) → Changeset → List ℕ → Option (Copy × List (ℕ × Copy)) → Type 0
Kept n layers d clears none = ⊤
Kept n layers d clears (some (_, older)) = Tracks n layers d clears older

Absent : ℕ → Option (Copy × List (ℕ × Copy)) → Type 0
Absent id none = ⊤
Absent id (some (_, older)) = find id older ≡ none

find-tail :
    (id k : ℕ) (copy : Copy) (copies : List (ℕ × Copy))
    → find id ((k, copy) ∷ copies) ≡ none
    → find id copies ≡ none
unfolding find
find-tail id k copy copies h = ground arith

find-Absent :
    (c id : ℕ) (copies : List (ℕ × Copy)) → find id copies ≡ none → Absent id (find c copies)
unfolding Absent
find-Absent c id [] h = unfold find in tt
find-Absent c id ((k, copy) ∷ copies) h =
    let absent = find-tail id k copy copies h in
    elim (Bool-cases (k == c)) [
      | inl same ↦ rw (find-here c k copy copies same) absent
      | inr other ↦ rw (find-past c k copy copies other) (find-Absent c id copies absent)
    ]

merged_keeps :
    {n : ℕ} (id : ℕ) (changes : Changeset) (older : List (ℕ × Changeset)) (d : Changeset)
    (clears : List ℕ) (found : Option (Copy × List (ℕ × Copy)))
    → id < n
    → Absent id found
    → Kept n older (rollback changes d) (drop_clear id clears) found
    → Kept n ((id, changes) ∷ older) d clears found
unfolding Kept Absent
merged_keeps id changes older d clears none below absent t = tt
merged_keeps id changes older d clears (some (copy, copies)) below absent t =
    merged_layer below absent t

pub find-Kept :
    (c : ℕ) {n : ℕ} {layers : List (ℕ × Changeset)} {d : Changeset} {clears : List ℕ}
    {copies : List (ℕ × Copy)}
    → Tracks n layers d clears copies
    → Kept n layers d clears (find c copies)
unfolding Kept
find-Kept c root = unfold find in tt
find-Kept c (open_layer {id} {changes} {older} {d} {clears} {copy} {copies} below fresh copied t) =
    let kept =
      merged_keeps id changes older d clears (find c copies) below (find-Absent c id copies fresh)
        (find-Kept c t) in
    elim (Bool-cases (id == c)) [
      | inl same ↦ rw (find-here c id copy copies same) (merged_layer below fresh t)
      | inr other ↦ rw (find-past c id copy copies other) kept
    ]
find-Kept c (merged_layer {id} {changes} {older} {d} {clears} {copies} below fresh t) =
    merged_keeps id changes older d clears (find c copies) below (find-Absent c id copies fresh)
      (find-Kept c t)
