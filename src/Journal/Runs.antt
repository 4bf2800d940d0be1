-- ===== src/Journal/Runs.antt =====
-- Runs of calls of a journal, beside the same calls of the ideal one.
use veda_bvm.Common.{ℕ, ◌≡◌, refl, sym, ap, ◌∙◌, ⊤, Option, none, some, List, [], ◌∷◌}
use veda_bvm.Exceptions.{
  Result, Action, modify, map_result, bind_pure-result, bind_pure-state, ◌>>=◌, pure,
}
use veda_bvm.Journal.Calls.{Call, call, spec, Ready}
use veda_bvm.Journal.Ideal.{Copy, Ideal, find, normal, commit_found}
use veda_bvm.Journal.{
  Change, Changeset, Journal, write, write_onto, open_checkpoint, put_layer, record_checkpoint,
  restart_clear, discard_popped, commit_popped, undo_through, pop_through, remove, discard,
  commit_checkpoint, clear, drop_clear, member, rollback,
}
use veda_bvm.Journal.Refines.{
  Refines, Matches, write-Matches, record_checkpoint-Matches, discard-Matches,
  commit_checkpoint-Matches, clear-Refines,
}

bind_pure-Matches :
    {A B : Type 0} (m : Action Journal A) (k : Action Ideal A) (f : A → B) (j : Journal) (i : Ideal)
    → Matches (m j) (k i)
    → Matches ((m >>= λ a. pure (f a)) j) ((k >>= λ a. pure (f a)) i)
bind_pure-Matches m k f j i h = record {
  result = bind_pure-result m f j ∙ ap (map_result f) h.result ∙ sym (bind_pure-result k f i);
  left = rw (bind_pure-state m f j, bind_pure-state k f i) (h.left);
}

-- Each call returns and raises what its ideal counterpart does, and keeps the two in step.
pub call-Matches :
    (c : Call) (j : Journal) (i : Ideal) → Ready c j → Refines j i → Matches (call c j) (spec c i)
unfolding call spec Ready
call-Matches (Call.write key change) j i h r =
    bind_pure-Matches (write key change) (modify (veda_bvm.Journal.Ideal.write key change))
      (λ _. none) j i (write-Matches key change j i h r)
call-Matches (Call.record_checkpoint custom) j i h r =
    bind_pure-Matches (record_checkpoint custom) (veda_bvm.Journal.Ideal.record_checkpoint custom)
      some j i (record_checkpoint-Matches custom j i h r)
call-Matches (Call.discard c) j i h r =
    bind_pure-Matches (discard c) (veda_bvm.Journal.Ideal.discard c) (λ _. none) j i
      (discard-Matches c j i r)
call-Matches (Call.commit_checkpoint c) j i h r = commit_checkpoint-Matches c j i r
call-Matches Call.clear j i h r = record { result = refl; left = clear-Refines j i r }

-- A caller that handles every exception and goes on.
unfoldable pub run : List Call → Journal → List (Result (Option ℕ)) × Journal
unfolding call
run [] j = ([], j)
run (c ∷ calls) j =
    let (result, j') = call c j in let (results, k) = run calls j' in (result ∷ results, k)

unfoldable pub run_spec : List Call → Ideal → List (Result (Option ℕ)) × Ideal
unfolding spec
run_spec [] i = ([], i)
run_spec (c ∷ calls) i =
    let (result, i') = spec c i in let (results, k) = run_spec calls i' in (result ∷ results, k)

-- Each call of a run is ready where it is made.
unfoldable pub AllReady : List Call → Journal → Type 0
unfolding Ready call
AllReady [] j = ⊤
AllReady (c ∷ calls) j = Ready c j × AllReady calls (call c j).1

-- Over any run of calls, the journal answers as the ideal one does.
pub run-Refines :
    (calls : List Call) (j : Journal) (i : Ideal)
    → AllReady calls j
    → Refines j i
    → ((run calls j).0 ≡ (run_spec calls i).0) × Refines (run calls j).1 (run_spec calls i).1
unfolding run run_spec AllReady
run-Refines [] j i h r = (refl, r)
run-Refines (c ∷ calls) j i (h, hs) r =
    let step = call-Matches c j i h r in
    let (same, left) = run-Refines calls (call c j).1 (spec c i).1 hs step.left in
    (cc (step.result, same), left)
