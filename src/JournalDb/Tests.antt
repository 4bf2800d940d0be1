-- ===== src/JournalDb/Tests.antt =====
-- A journaled database at concrete values, and the theorems about it.
use veda_bvm.Common.{◌≡◌, refl, some, List, [], ◌∷◌, ℕ, true}
use veda_bvm.Database.Diff.{apply_to}
use veda_bvm.Database.{MemoryDb, memory_db}
use veda_bvm.Dict.{lookup}
use veda_bvm.Dict.Unique.{Unique}
use veda_bvm.Exceptions.{ok}
use veda_bvm.Journal
use veda_bvm.JournalDb.Calls.{Call, run, run-Persisted, run-IsSound, new_db-IsSound}
use veda_bvm.JournalDb.Pending.{diff_lem}
use veda_bvm.JournalDb.Persist.{Persisted}
use veda_bvm.JournalDb.{JournalDb, new_db, diff, persist}

abbrev two_keys : MemoryDb
two_keys = (1, 10 ∷ []) ∷ (2, 20 ∷ []) ∷ []

-- A key is deleted, one is written, and a second write of it is discarded.
abbrev some_calls : List Call
some_calls =
    Call.del_item 2
    ∷ Call.set_item 3 (30 ∷ [])
    ∷ Call.record_checkpoint (some 9)
    ∷ Call.set_item 3 (31 ∷ [])
    ∷ Call.del_item 4
    ∷ Call.discard 9
    ∷ []

run-Persisted_example : Persisted (run some_calls (new_db two_keys 10))
run-Persisted_example = run-Persisted some_calls two_keys 10

abbrev called : JournalDb MemoryDb
called = run some_calls (new_db two_keys 10)

diff_lem_example :
    Unique (diff called)
    × ((apply_to true (diff called) called.wrapped_db).0 ≡ ok tt)
    × ((q : ℕ)
        → lookup q (apply_to true (diff called) called.wrapped_db).1
          ≡ lookup q (persist called).1.wrapped_db)
diff_lem_example =
    diff_lem called (run-IsSound some_calls (new_db two_keys 10) (new_db-IsSound two_keys 10))

persist-called : (persist called).1.wrapped_db ≡ ((1, 10 ∷ []) ∷ (3, 30 ∷ []) ∷ [])
unfolding persist veda_bvm.JournalDb.Calls.call veda_bvm.JournalDb.del_item
    veda_bvm.JournalDb.set_item new_db Journal.restart_clear Journal.undo_through
    veda_bvm.Database.del_memory
persist-called = refl
