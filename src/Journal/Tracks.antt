-- ===== src/Journal/Tracks.antt =====
-- The layers of a journal against the copies of the ideal one: what undoing the layers down to a
-- checkpoint gives, for each checkpoint that is open.
use veda_bvm.Common.{
  ℕ, suc, ◌<◌, ◌≡◌, refl, sym, ◌∙◌, Bool, true, false, none, List, [], ◌∷◌, arith, ◌==◌,
}
use veda_bvm.Dict.{lookup, contains, insert}
use veda_bvm.Journal.{Change, Changeset, rollback, note_revert, drop_clear, member, remove}
use veda_bvm.Journal.Ideal.{Copy, find}
use veda_bvm.Journal.Undo.{seen, Agree, rollback-Agree, rollback-note_revert}

abbrev pub nonempty : List ℕ → Bool
nonempty [] = false
nonempty (c ∷ cs) = true

-- A copy is that of these changes and clears.
pub record IsCopy (copy : Copy) (d : Changeset) (clears : List ℕ) : Type 0 where
  pub pending : (q : ℕ) → copy.0 q ≡ seen q d
  pub ignores : copy.1 ≡ nonempty clears

-- Each layer is that of an open checkpoint, with a copy, or of one that is closed or of a clear. All
-- checkpoints came before `next`.
pub data Tracks (next : ℕ)
    : List (ℕ × Changeset) → Changeset → List ℕ → List (ℕ × Copy) → Type 0 where
  root : {d : Changeset} → Tracks next [] d [] []
  open_layer :
      {id : ℕ} {changes : Changeset} {older : List (ℕ × Changeset)} {d : Changeset}
      {clears : List ℕ} {copy : Copy} {copies : List (ℕ × Copy)}
      → id < next
      → find id copies ≡ none
      → IsCopy copy (rollback changes d) (drop_clear id clears)
      → Tracks next older (rollback changes d) (drop_clear id clears) copies
      → Tracks next ((id, changes) ∷ older) d clears ((id, copy) ∷ copies)
  merged_layer :
      {id : ℕ} {changes : Changeset} {older : List (ℕ × Changeset)} {d : Changeset}
      {clears : List ℕ} {copies : List (ℕ × Copy)}
      → id < next
      → find id copies ≡ none
      → Tracks next older (rollback changes d) (drop_clear id clears) copies
      → Tracks next ((id, changes) ∷ older) d clears copies

IsCopy-Agree :
    {copy : Copy} {d : Changeset} {clears : List ℕ} (e : Changeset)
    → Agree d e
    → IsCopy copy d clears
    → IsCopy copy e clears
IsCopy-Agree e h c = record { pending = λ q. c.pending q ∙ h q; ignores = c.ignores }

-- Only what is seen of the changes matters.
pub Tracks-Agree :
    {n : ℕ} {layers : List (ℕ × Changeset)} {d : Changeset} {clears : List ℕ}
    {copies : List (ℕ × Copy)} (e : Changeset)
    → Agree d e
    → Tracks n layers d clears copies
    → Tracks n layers e clears copies
Tracks-Agree e h root = root
Tracks-Agree {d = d} e h (open_layer {changes = ch} below fresh copy t) =
    let h' = rollback-Agree ch d e h in
    open_layer below fresh (IsCopy-Agree (rollback ch e) h' copy)
      (Tracks-Agree (rollback ch e) h' t)
Tracks-Agree {d = d} e h (merged_layer {changes = ch} below fresh t) =
    let h' = rollback-Agree ch d e h in merged_layer below fresh (Tracks-Agree (rollback ch e) h' t)

-- A change of a key is noted in the last layer.
pub Tracks-note_revert :
    (key : ℕ) (c : Change) {n id : ℕ} {changes : Changeset} {older : List (ℕ × Changeset)}
    {d : Changeset} {clears : List ℕ} {copies : List (ℕ × Copy)}
    → Tracks n ((id, changes) ∷ older) d clears copies
    → Tracks n ((id, note_revert key d changes) ∷ older) (insert key c d) clears copies
Tracks-note_revert key c {changes = ch} {d = d} (open_layer below fresh copy t) =
    let same = rollback-note_revert key c ch d in
    open_layer below fresh (IsCopy-Agree _ (λ q. sym (same q)) copy)
      (Tracks-Agree _ (λ q. sym (same q)) t)
Tracks-note_revert key c {changes = ch} {d = d} (merged_layer below fresh t) =
    merged_layer below fresh (Tracks-Agree _ (λ q. sym (rollback-note_revert key c ch d q)) t)

pub later-Tracks :
    {n : ℕ} {layers : List (ℕ × Changeset)} {d : Changeset} {clears : List ℕ}
    {copies : List (ℕ × Copy)}
    → Tracks n layers d clears copies
    → Tracks (suc n) layers d clears copies
later-Tracks root = root
later-Tracks (open_layer below fresh copy t) = open_layer (omega arith) fresh copy (later-Tracks t)
later-Tracks (merged_layer below fresh t) = merged_layer (omega arith) fresh (later-Tracks t)

-- The checkpoint that the counter gives next is in no layer.
pub contains-next :
    {n : ℕ} {layers : List (ℕ × Changeset)} {d : Changeset} {clears : List ℕ}
    {copies : List (ℕ × Copy)}
    → Tracks n layers d clears copies
    → contains n layers ≡ false
unfolding contains lookup
contains-next root = refl
contains-next {n} (open_layer {id} {older = older} below fresh copy t) =
    ground (arith, contains-next t)
contains-next {n} (merged_layer {id} {older = older} below fresh t) =
    ground (arith, contains-next t)

contains-tail :
    (c id : ℕ) (changes : Changeset) (older : List (ℕ × Changeset))
    → contains c ((id, changes) ∷ older) ≡ false
    → (c == id ≡ false) × (contains c older ≡ false)
unfolding contains lookup
contains-tail c id changes older h = (ground arith, ground arith)

-- A checkpoint with a copy has a layer.
pub find-layer :
    (c : ℕ) {n : ℕ} {layers : List (ℕ × Changeset)} {d : Changeset} {clears : List ℕ}
    {copies : List (ℕ × Copy)}
    → contains c layers ≡ false
    → Tracks n layers d clears copies
    → find c copies ≡ none
unfolding find
find-layer c h root = refl
find-layer c h (open_layer {id} {changes = ch} {older} below fresh copy t) =
    let (other, rest) = contains-tail c id ch older h in ground (arith, other, find-layer c rest t)
find-layer c h (merged_layer {id} {changes = ch} {older} below fresh t) =
    find-layer c (contains-tail c id ch older h).1 t

member-remove :
    (c id : ℕ) (clears : List ℕ) → c == id ≡ false → member c (remove id clears) ≡ member c clears
unfolding member remove
member-remove c id [] h = refl
member-remove c id (k ∷ clears) h = ground (arith, member-remove c id clears h)

member-drop_clear :
    (c id : ℕ) (clears : List ℕ)
    → c == id ≡ false
    → member c (drop_clear id clears) ≡ member c clears
unfolding drop_clear
member-drop_clear c id clears h = ground (arith, member-remove c id clears h)

-- A clear has a layer.
pub member-layer :
    (c : ℕ) {n : ℕ} {layers : List (ℕ × Changeset)} {d : Changeset} {clears : List ℕ}
    {copies : List (ℕ × Copy)}
    → contains c layers ≡ false
    → Tracks n layers d clears copies
    → member c clears ≡ false
member-layer c h root = unfold member in refl
member-layer c h (open_layer {id} {changes = ch} {older} {clears = clears} below fresh copy t) =
    let (other, rest) = contains-tail c id ch older h in
    sym (member-drop_clear c id clears other) ∙ member-layer c rest t
member-layer c h (merged_layer {id} {changes = ch} {older} {clears = clears} below fresh t) =
    let (other, rest) = contains-tail c id ch older h in
    sym (member-drop_clear c id clears other) ∙ member-layer c rest t
