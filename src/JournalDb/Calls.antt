-- ===== src/JournalDb/Calls.antt =====
-- The calls of a journaled database, and that each keeps its journal sound.
use veda_bvm.Common.{
  ℕ, Bool, true, false, Option, none, some, List, [], ◌∷◌, ⊤, Bool-cases, ltb, length, inl, inr,
}
use veda_bvm.Database.{Database, exists}
use veda_bvm.Dict.{contains}
use veda_bvm.Exceptions.{Result, ok, err, Action, ◌>>=◌, pure, bind_pure-state, key_error}
use veda_bvm.Journal
use veda_bvm.Journal.{value, delete_wrapped, revert_to_wrapped, Journal}
use veda_bvm.JournalDb.Persist.{Persisted, persist-Persisted}
use veda_bvm.JournalDb.Sound.{
  Sound, put_layer-Layer, write-Sound, undo_through-Sound, Fits-All-Deletes,
}
use veda_bvm.JournalDb.{JournalDb, on_journal, new_db, in_journal}

pub data Call : Type 0 where
  get_item del_item : ℕ → Call
  set_item : ℕ → List ℕ → Call
  record_checkpoint : Option ℕ → Call
  commit discard : ℕ → Call
  clear flatten reset persist : Call

module _ {D : Type 0} ⦃db : Database D⦄ where
  unfoldable pub call : Call → Action (JournalDb D) ⊤
  unfolding Journal.discard Journal.commit_checkpoint Journal.record_checkpoint Journal.flatten
  call (Call.get_item key) s =
      (elim (veda_bvm.JournalDb.get_item key s) [ none ↦ err key_error | some _ ↦ ok tt ], s)
  call (Call.del_item key) s = veda_bvm.JournalDb.del_item key s
  call (Call.set_item key bs) s = veda_bvm.JournalDb.set_item key bs s
  call (Call.record_checkpoint custom) s =
      on_journal (Journal.record_checkpoint custom >>= λ _. pure tt) s
  call (Call.commit checkpoint) s =
      on_journal (Journal.commit_checkpoint checkpoint >>= λ _. pure tt) s
  call (Call.discard checkpoint) s = on_journal (Journal.discard checkpoint) s
  call Call.clear s = (ok tt, veda_bvm.JournalDb.clear s)
  call Call.flatten s = on_journal Journal.flatten s
  call Call.reset s = (ok tt, veda_bvm.JournalDb.reset s)
  call Call.persist s = veda_bvm.JournalDb.persist s

  -- A run of calls, whose caller handles every exception.
  abbrev pub run : List Call → JournalDb D → JournalDb D
  run [] s = s
  run (c ∷ calls) s = run calls (call c s).1

  abbrev pub IsSound : JournalDb D → Type 0
  IsSound s = Sound s.wrapped_db s.journal

  module _ (d : D) where
    record_checkpoint-Sound :
        (custom : Option ℕ) (j : Journal)
        → Sound d j
        → Sound d (Journal.record_checkpoint custom j).1
    unfolding Journal.record_checkpoint Journal.open_checkpoint
    record_checkpoint-Sound none j s = record {
      one_each = s.one_each;
      current = s.current;
      layers = put_layer-Layer d j.next_checkpoint [] j.journal_data tt s.layers;
    }
    record_checkpoint-Sound (some c) j s = elim (Bool-cases (contains c j.journal_data)) [
      | inl old ↦ rw old s
      | inr new ↦
          rw new (record { one_each = s.one_each; current = s.current; layers = (tt, s.layers) })
    ]

    commit_checkpoint-Sound :
        (c : ℕ) (j : Journal) → Sound d j → Sound d (Journal.commit_checkpoint c j).1
    unfolding Journal.commit_checkpoint
    commit_checkpoint-Sound c j s = popped (Journal.pop_through c j.checkpoint_stack)
      where
        popped : (p : Bool × List ℕ) → Sound d (Journal.commit_popped p j).1
        popped (true, []) = unfold Journal.commit_popped in s
        popped (true, k ∷ older) =
            unfold Journal.commit_popped in
            record { one_each = s.one_each; current = s.current; layers = s.layers }
        popped (false, left) = unfold Journal.commit_popped in s

    restart_clear-Sound : (j : Journal) → Sound d j → Sound d (Journal.restart_clear j)
    unfolding Journal.restart_clear
    restart_clear-Sound j s = record {
      one_each = s.one_each;
      current = s.current;
      layers = s.layers;
    }

    discard-Sound : (c : ℕ) (j : Journal) → Sound d j → Sound d (Journal.discard c j).1
    unfolding Journal.discard
    discard-Sound c j s = popped (Journal.pop_through c j.checkpoint_stack)
      where
        popped : (p : Bool × List ℕ) → Sound d (Journal.discard_popped c p j).1
        popped (true, left) =
            unfold Journal.discard_popped in
            restart_clear-Sound
              (Journal.undo_through c j.journal_data (record j { checkpoint_stack = left }))
              (undo_through-Sound d c j.journal_data (record j { checkpoint_stack = left }) s.layers
                (record { one_each = s.one_each; current = s.current; layers = s.layers }))
        popped (false, left) =
            unfold Journal.discard_popped in
            record { one_each = s.one_each; current = s.current; layers = s.layers }

    flatten-Sound : (j : Journal) → Sound d j → Sound d (Journal.flatten j).1
    unfolding Journal.flatten
    flatten-Sound j s = elim (Bool-cases (ltb (length j.checkpoint_stack) 2)) [
      | inl flat ↦ rw flat s
      | inr deep ↦ rw deep (from (Journal.after_root j.checkpoint_stack))
    ]
      where
        from :
            (o : Option ℕ)
            → Sound d
                (elim o as (λ o. Result ⊤ × Journal) [
                  | none ↦ (ok tt, j)
                  | some c ↦ (
                    elim (Journal.commit_checkpoint c j).0 [ ok _ ↦ ok tt | err e ↦ err e ],
                    (Journal.commit_checkpoint c j).1,
                  )
                ]).1
        from none = s
        from (some c) = commit_checkpoint-Sound c j s

    clear-Sound : (j : Journal) → Sound d j → Sound d (Journal.clear j)
    unfolding Journal.clear
    clear-Sound j s = record {
      one_each = tt;
      current = tt;
      layers =
          put_layer-Layer d j.next_checkpoint j.current_values j.journal_data
            (Fits-All-Deletes d j.current_values s.current) s.layers;
    }

    pop_all-Sound : (j : Journal) → Sound d (Journal.pop_all j).1
    unfolding Journal.pop_all
    pop_all-Sound j = record { one_each = tt; current = tt; layers = (tt, tt) }

  del_item-IsSound :
      (key : ℕ) (s : JournalDb D) → IsSound s → IsSound (veda_bvm.JournalDb.del_item key s).1
  unfolding veda_bvm.JournalDb.del_item Journal.delete_wrapped_item Journal.delete_local_item
  del_item-IsSound key s h = elim (Bool-cases (exists key s.wrapped_db)) [
    | inl there ↦ rw there (write-Sound s.wrapped_db key delete_wrapped s.journal there h)
    | inr absent ↦ rw absent (elim (Bool-cases (in_journal key s.journal)) [
      | inl here ↦ rw here (write-Sound s.wrapped_db key revert_to_wrapped s.journal absent h)
      | inr nowhere ↦ rw nowhere h
    ])
  ]

  call-IsSound : (c : Call) (s : JournalDb D) → IsSound s → IsSound (call c s).1
  unfolding call
  call-IsSound (Call.get_item key) s h = h
  call-IsSound (Call.del_item key) s h = del_item-IsSound key s h
  call-IsSound (Call.set_item key bs) s h =
      unfold veda_bvm.JournalDb.set_item Journal.set_item in
      write-Sound s.wrapped_db key (value bs) s.journal tt h
  call-IsSound (Call.record_checkpoint custom) s h =
      rw (bind_pure-state (Journal.record_checkpoint custom) (λ _. tt) s.journal)
        (record_checkpoint-Sound s.wrapped_db custom s.journal h)
  call-IsSound (Call.commit checkpoint) s h =
      rw (bind_pure-state (Journal.commit_checkpoint checkpoint) (λ _. tt) s.journal)
        (commit_checkpoint-Sound s.wrapped_db checkpoint s.journal h)
  call-IsSound (Call.discard checkpoint) s h = discard-Sound s.wrapped_db checkpoint s.journal h
  call-IsSound Call.clear s h =
      unfold veda_bvm.JournalDb.clear in clear-Sound s.wrapped_db s.journal h
  call-IsSound Call.flatten s h = flatten-Sound s.wrapped_db s.journal h
  call-IsSound Call.reset s h =
      unfold veda_bvm.JournalDb.reset in pop_all-Sound s.wrapped_db s.journal
  call-IsSound Call.persist s h = rw (persist-Persisted s h).new_journal (
      unfold veda_bvm.JournalDb.reset in
      pop_all-Sound (veda_bvm.JournalDb.persist s).1.wrapped_db s.journal)

  pub run-IsSound : (calls : List Call) (s : JournalDb D) → IsSound s → IsSound (run calls s)
  run-IsSound [] s h = h
  run-IsSound (c ∷ calls) s h = run-IsSound calls (call c s).1 (call-IsSound c s h)

  pub new_db-IsSound : (d : D) (n : ℕ) → IsSound (new_db d n)
  unfolding new_db veda_bvm.JournalDb.reset
  new_db-IsSound d n = pop_all-Sound d (Journal.new n)

  -- After any run of calls from a new database, whose caller handles every exception, `persist`
  -- raises nothing and leaves a new journal; each key that was changed reads in the wrapped
  -- database as it did, every other key as it did there; and unless there was a clear, all keys
  -- read in the wrapped database, and still in the journaled one, as they did before.
  pub run-Persisted : (calls : List Call) (d : D) (n : ℕ) → Persisted (run calls (new_db d n))
  run-Persisted calls d n =
      persist-Persisted (run calls (new_db d n))
        (run-IsSound calls (new_db d n) (new_db-IsSound d n))
