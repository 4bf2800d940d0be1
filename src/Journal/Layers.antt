-- ===== src/Journal/Layers.antt =====
-- A new layer, of a checkpoint or of a clear, and layers whose checkpoints are closed.
use veda_bvm.Common.{ℕ, suc, ◌<◌, ◌≡◌, refl, sym, false, List, [], ◌∷◌, arith}
use veda_bvm.Dict.{contains}
use veda_bvm.Journal.Ideal.{Copy, find}
use veda_bvm.Journal.Tracks.{
  Tracks, IsCopy, root, open_layer, merged_layer, later-Tracks, find-layer, member-layer,
  Tracks-Agree,
}
use veda_bvm.Journal.Undo.{rollback_clear}
use veda_bvm.Journal.{Changeset, put_layer, remove, drop_clear, member, rollback}

put_layer_new :
    (c : ℕ) (changes : Changeset) (layers : List (ℕ × Changeset))
    → contains c layers ≡ false
    → put_layer c changes layers ≡ (c, changes) ∷ layers
unfolding put_layer
put_layer_new c changes layers h = ground arith

drop_clear_new : (c : ℕ) (clears : List ℕ) → member c clears ≡ false → drop_clear c clears ≡ clears
unfolding drop_clear
drop_clear_new c clears h = ground arith

drop_clear_first : (c : ℕ) (clears : List ℕ) → drop_clear c (c ∷ clears) ≡ clears
unfolding drop_clear member remove
drop_clear_first c clears = ground arith

-- A new checkpoint, with the copy of what there is.
pub open_new :
    {n : ℕ} (c : ℕ) {layers : List (ℕ × Changeset)} {d : Changeset} {clears : List ℕ}
    {copies : List (ℕ × Copy)} (copy : Copy)
    → c < n
    → contains c layers ≡ false
    → IsCopy copy d clears
    → Tracks n layers d clears copies
    → Tracks n (put_layer c [] layers) d clears ((c, copy) ∷ copies)
unfolding rollback
open_new c {layers} {clears = clears} copy below new copied t =
    let same = drop_clear_new c clears (member-layer c new t) in
    rw (put_layer_new c [] layers new)
      (open_layer below (find-layer c new t) (rw same copied) (rw same t))

-- The layer of a clear, with all the changes there were.
pub clear_new :
    (n : ℕ) {layers : List (ℕ × Changeset)} {d : Changeset} {clears : List ℕ}
    {copies : List (ℕ × Copy)}
    → contains n layers ≡ false
    → Tracks n layers d clears copies
    → Tracks (suc n) (put_layer n d layers) [] (n ∷ clears) copies
clear_new n {layers} {d} {clears} new t = rw (put_layer_new n d layers new) (
    merged_layer (omega arith) (find-layer n new t) (
      rw (drop_clear_first n clears)
        (Tracks-Agree _ (λ q. sym (rollback_clear d q)) (later-Tracks t))))

-- With every checkpoint closed, the layers stay.
pub closed-Tracks :
    {n : ℕ} {layers : List (ℕ × Changeset)} {d : Changeset} {clears : List ℕ}
    {copies : List (ℕ × Copy)}
    → Tracks n layers d clears copies
    → Tracks n layers d clears []
unfolding find
closed-Tracks root = root
closed-Tracks (open_layer below fresh copied t) = merged_layer below refl (closed-Tracks t)
closed-Tracks (merged_layer below fresh t) = merged_layer below refl (closed-Tracks t)
