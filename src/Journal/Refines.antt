-- ===== src/Journal/Refines.antt =====
-- The journal against its contract: checkpoints that are noted as changes to take back, and copies.
use veda_bvm.Common.{
  ℕ, suc, ◌<◌, ◌≡◌, refl, sym, subst, ◌∙◌, Bool, true, false, Option, none, some, List, [], ◌∷◌,
  arith, true≢false, map,
}
use veda_bvm.Dict.{contains, lookup}
use veda_bvm.Exceptions.{Result, ok, ◌>>◌, pure}
use veda_bvm.Journal.Calls.{Call, call, spec, Ready, has_layer}
use veda_bvm.Journal.Commits.{Kept, find-Kept}
use veda_bvm.Journal.Discards.{Undone, UndoneTo, undo_through_lem, pop_through_lem, Explained}
use veda_bvm.Journal.Ideal.{Copy, Ideal, find, normal, commit_found}
use veda_bvm.Journal.Layers.{open_new, clear_new, closed-Tracks}
use veda_bvm.Journal.Tracks.{
  root, Tracks, nonempty, later-Tracks, Tracks-note_revert, contains-next,
}
use veda_bvm.Journal.Undo.{seen, seen-insert}
use veda_bvm.Journal.{
  Change, Changeset, Journal, write, write_onto, open_checkpoint, put_layer, record_checkpoint,
  restart_clear, discard_popped, commit_popped, undo_through, pop_through, remove, discard,
  commit_checkpoint, clear, drop_clear, member, rollback,
}

pub record Refines (j : Journal) (i : Ideal) : Type 0 where
  pub pending : (q : ℕ) → i.pending q ≡ seen q j.current_values
  pub flag : i.ignore_wrapped_db ≡ j.ignore_wrapped_db
  pub clears : j.ignore_wrapped_db ≡ nonempty j.clears_at
  pub tracks : Tracks j.next_checkpoint j.journal_data j.current_values j.clears_at i.copies
  pub stack : j.checkpoint_stack ≡ map (λ p. p.0) i.copies
  pub next : i.next_checkpoint ≡ j.next_checkpoint

pub record Matches {A : Type 0} (p : Result A × Journal) (q : Result A × Ideal) : Type 0 where
  pub result : p.0 ≡ q.0
  pub left : Refines p.1 q.1

pub write-Matches :
    (key : ℕ) (change : Change) (j : Journal) (i : Ideal)
    → has_layer j.journal_data ≡ true
    → Refines j i
    → Matches (write key change j) (ok tt, veda_bvm.Journal.Ideal.write key change i)
unfolding write write_onto veda_bvm.Journal.Ideal.write has_layer
write-Matches key change j i h r = go j.journal_data h r.tracks
  where
    go :
        (layers : List (ℕ × Changeset))
        → has_layer layers ≡ true
        → Tracks j.next_checkpoint layers j.current_values j.clears_at i.copies
        → Matches
            (write_onto key change layers j)
            (ok tt, veda_bvm.Journal.Ideal.write key change i)
    go [] e t = absurd (true≢false (sym e))
    go ((c, changes) ∷ older) e t = record {
      result = refl;
      left = record {
        pending = λ q. ground (arith, seen-insert q key change j.current_values, r.pending q);
        flag = r.flag;
        clears = r.clears;
        tracks = Tracks-note_revert key change t;
        stack = r.stack;
        next = r.next;
      };
    }

pub open_checkpoint-Refines :
    (c : ℕ) (j : Journal) (i : Ideal)
    → c < j.next_checkpoint
    → contains c j.journal_data ≡ false
    → Refines j i
    → Refines (open_checkpoint c j) (veda_bvm.Journal.Ideal.open_checkpoint c i)
unfolding open_checkpoint veda_bvm.Journal.Ideal.open_checkpoint
open_checkpoint-Refines c j i below new r = record {
  pending = r.pending;
  flag = r.flag;
  clears = r.clears;
  tracks =
      open_new c _ below new (record { pending = r.pending; ignores = r.flag ∙ r.clears }) r.tracks;
  stack = cc (r.stack);
  next = r.next;
}

record_checkpoint_new :
    (c : ℕ) (j : Journal)
    → contains c j.journal_data ≡ false
    → record_checkpoint (some c) j ≡ (ok c, open_checkpoint c j)
unfolding record_checkpoint
record_checkpoint_new c j new = rw new refl

pub record_checkpoint-Matches :
    (custom : Option ℕ) (j : Journal) (i : Ideal)
    → Ready (Call.record_checkpoint custom) j
    → Refines j i
    → Matches (record_checkpoint custom j) (veda_bvm.Journal.Ideal.record_checkpoint custom i)
unfolding record_checkpoint veda_bvm.Journal.Ideal.record_checkpoint Ready
record_checkpoint-Matches none j i h r = record {
  result = cc (r.next);
  left = rw (r.next) (
      open_checkpoint-Refines j.next_checkpoint
        (record j { next_checkpoint = suc j.next_checkpoint })
        (record i { next_checkpoint = suc j.next_checkpoint }) (omega arith)
        (contains-next r.tracks)
        (record {
          pending = r.pending;
          flag = r.flag;
          clears = r.clears;
          tracks = later-Tracks r.tracks;
          stack = r.stack;
          next = refl;
        }));
}
record_checkpoint-Matches (some c) j i (below, new) r =
    subst (λ p. Matches p (ok c, veda_bvm.Journal.Ideal.open_checkpoint c i))
      (sym (record_checkpoint_new c j new))
      (record { result = refl; left = open_checkpoint-Refines c j i below new r })

restart_clear_flag :
    (j : Journal) → Explained j → (restart_clear j).ignore_wrapped_db ≡ nonempty j.clears_at
unfolding restart_clear
restart_clear_flag j h = ground arith

Undone-Refines :
    (j k : Journal) (i : Ideal) (copy : Copy) (older : List (ℕ × Copy))
    → i.next_checkpoint ≡ j.next_checkpoint
    → Undone j.next_checkpoint copy older (record j { checkpoint_stack = map (λ p. p.0) older }) k
    → Refines
        (restart_clear k)
        (record i { pending = copy.0; ignore_wrapped_db = copy.1; copies = older })
unfolding restart_clear
Undone-Refines j k i copy older next u = record {
  pending = u.copied.pending;
  flag = u.copied.ignores ∙ sym (restart_clear_flag k u.explained);
  clears = restart_clear_flag k u.explained;
  tracks = rw (u.same_next) (u.tracks);
  stack = u.same_stack;
  next = next ∙ sym u.same_next;
}

-- The number of checkpoints of the copies that are found.
popped : Option (Copy × List (ℕ × Copy)) → Bool × List ℕ
popped none = (false, [])
popped (some (_, older)) = (true, map (λ p. p.0) older)

pop_through-popped :
    (c : ℕ) {j : Journal} {i : Ideal}
    → Refines j i
    → pop_through c j.checkpoint_stack ≡ popped (find c i.copies)
unfolding popped
pop_through-popped c {j} {i} r = rw (r.stack) (go (find c i.copies) (pop_through_lem c i.copies))
  where
    go :
        (found : Option (Copy × List (ℕ × Copy))) {p : Bool × List ℕ}
        → p ≡ elim found [ none ↦ (false, []) | some (_, older) ↦ (true, map (λ q. q.0) older) ]
        → p ≡ popped found
    go none e = e
    go (some (copy, older)) e = e

pub discard-Matches :
    (c : ℕ) (j : Journal) (i : Ideal)
    → Refines j i
    → Matches (discard c j) (veda_bvm.Journal.Ideal.discard c i)
unfolding discard discard_popped veda_bvm.Journal.Ideal.discard veda_bvm.Journal.Ideal.discard_found
    popped UndoneTo
discard-Matches c j i r = rw (pop_through-popped c r) (
    go (find c i.copies) (λ left.
      undo_through_lem c (record j { checkpoint_stack = left }) r.tracks (λ e. sym r.clears ∙ e)))
  where
    go :
        (found : Option (Copy × List (ℕ × Copy)))
        → ((left : List ℕ)
            → UndoneTo j.next_checkpoint found
                (record j { checkpoint_stack = left })
                (undo_through c j.journal_data (record j { checkpoint_stack = left })))
        → Matches (discard_popped c (popped found) j) (veda_bvm.Journal.Ideal.discard_found found i)
    go none u = record {
      result = refl;
      left = record {
        pending = r.pending;
        flag = r.flag;
        clears = r.clears;
        tracks = closed-Tracks r.tracks;
        stack = refl;
        next = r.next;
      };
    }
    go (some (copy, older)) u = record {
      result = refl;
      left = Undone-Refines j _ i copy older r.next (u (map (λ p. p.0) older));
    }

pub commit_checkpoint-Matches :
    (c : ℕ) (j : Journal) (i : Ideal)
    → Refines j i
    → Matches (call (Call.commit_checkpoint c) j) (spec (Call.commit_checkpoint c) i)
unfolding call spec commit_checkpoint commit_popped popped Kept
    veda_bvm.Journal.Ideal.commit_checkpoint commit_found
commit_checkpoint-Matches c j i r =
    subst
      (λ p.
        Matches ((commit_popped p >> pure {S = Journal} {A = Option ℕ} none) j)
          ((commit_found (find c i.copies) >> pure {S = Ideal} {A = Option ℕ} none) i))
      (sym (pop_through-popped c r)) (go (find c i.copies) (find-Kept c r.tracks))
  where
    go :
        (found : Option (Copy × List (ℕ × Copy)))
        → Kept j.next_checkpoint j.journal_data j.current_values j.clears_at found
        → Matches
            ((commit_popped (popped found) >> pure {S = Journal} {A = Option ℕ} none) j)
            ((commit_found found >> pure {S = Ideal} {A = Option ℕ} none) i)
    go none t = record { result = refl; left = r }
    go (some (copy, [])) t = record { result = refl; left = r }
    go (some (copy, top ∷ older)) t = record {
      result = refl;
      left = record {
        pending = r.pending;
        flag = r.flag;
        clears = r.clears;
        tracks = t;
        stack = refl;
        next = r.next;
      };
    }

pub clear-Refines :
    (j : Journal) (i : Ideal) → Refines j i → Refines (clear j) (veda_bvm.Journal.Ideal.clear i)
unfolding clear veda_bvm.Journal.Ideal.clear
clear-Refines j i r = record {
  pending = λ q. unfold seen lookup in refl;
  flag = refl;
  clears = refl;
  tracks = clear_new _ (contains-next r.tracks) r.tracks;
  stack = r.stack;
  next = cc (r.next);
}

pub new-Refines : (n : ℕ) → Refines (veda_bvm.Journal.new n) (veda_bvm.Journal.Ideal.new n)
unfolding seen lookup
new-Refines n = record {
  pending = λ q. refl;
  flag = refl;
  clears = refl;
  tracks = root;
  stack = refl;
  next = refl;
}
