-- ===== src/Journal/Tests.antt =====
-- A run of a journal, and the theorems at it.
use veda_bvm.Common.{◌≡◌, refl, arith, none, some, List, [], ◌∷◌}
use veda_bvm.Dict.{contains, erase}
use veda_bvm.Exceptions.{err, validation_error, stop_iteration}
use veda_bvm.Journal.Calls.{Call}
use veda_bvm.Journal.Ideal
use veda_bvm.Journal.Refines.{Refines, new-Refines}
use veda_bvm.Journal.Runs.{run, run_spec, AllReady, run-Refines}
use veda_bvm.Journal.{
  Journal, value, delete_wrapped, get_item, write, new, discard, pop_through, commit_checkpoint,
  record_checkpoint, clear, restart_clear, undo_through,
}

abbrev calls : List Call
calls =
    Call.record_checkpoint none
    ∷ Call.write 5 (value (1 ∷ []))
    ∷ Call.record_checkpoint none
    ∷ Call.write 5 (value (2 ∷ []))
    ∷ Call.clear
    ∷ Call.record_checkpoint (some 3)
    ∷ Call.write 6 delete_wrapped
    ∷ Call.commit_checkpoint 3
    ∷ Call.discard 11
    ∷ []

-- The two checkpoints, the clear and the change of the key 5 after the second one are gone.
get_item-calls : get_item 5 (run calls (new 10)).1 ≡ some (value (1 ∷ []))
unfolding get_item run write discard pop_through commit_checkpoint record_checkpoint clear
    restart_clear undo_through erase
get_item-calls = refl

discard_unknown : discard 7 (run (Call.record_checkpoint none ∷ []) (new 0)).1 ≡ (
  err validation_error,
  record (run (Call.record_checkpoint none ∷ []) (new 0)).1 { checkpoint_stack = [] },
)
unfolding discard run pop_through record_checkpoint
discard_unknown = refl

write_no_layer : write 5 delete_wrapped (new 0) ≡ (err stop_iteration, new 0)
unfolding write
write_no_layer = refl

calls-AllReady : AllReady calls (new 10)
unfolding AllReady run write discard pop_through commit_checkpoint record_checkpoint clear
    restart_clear undo_through erase contains
calls-AllReady = (tt, (refl, (tt, (refl, (tt, ((omega arith, refl), (refl, (tt, (tt, tt)))))))))

run-Refines_example :
    ((run calls (new 10)).0 ≡ (run_spec calls (veda_bvm.Journal.Ideal.new 10)).0)
    × Refines (run calls (new 10)).1 (run_spec calls (veda_bvm.Journal.Ideal.new 10)).1
run-Refines_example =
    run-Refines calls (new 10) (veda_bvm.Journal.Ideal.new 10) calls-AllReady (new-Refines 10)
