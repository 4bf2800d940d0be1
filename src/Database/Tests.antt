-- ===== src/Database/Tests.antt =====
-- Databases at concrete values, and the theorems about them.
use veda_bvm.Common.{ℕ, ◌≡◌, refl, true, false, List, [], ◌∷◌, All}
use veda_bvm.Database.{MemoryDb, memory_db}
use veda_bvm.Database.Applied.{apply_to_lem, join_lem, apply_each, overlay}
use veda_bvm.Database.Atomic.{Op, delete, write, run_ops, with_batch_lem, Settled, ideal_ops}
use veda_bvm.Database.Batch
use veda_bvm.Database.Batch.{BatchDb, with_batch, commit, get_item, new_batch}
use veda_bvm.Database.Commit.{commit_lem}
use veda_bvm.Database.Diff.{DbDiff, value, deleted, apply_to, join}
use veda_bvm.Dict.{lookup, contains}
use veda_bvm.Dict.Unique.{Unique}
use veda_bvm.Exceptions.{ok, err, key_error, validation_error}

abbrev two_keys : MemoryDb
two_keys = (1, 10 ∷ []) ∷ (2, 20 ∷ []) ∷ []

abbrev changes : DbDiff
changes = (2, deleted) ∷ (3, value (30 ∷ [])) ∷ []

changes-Unique : Unique changes
changes-Unique = unfold lookup contains in (refl, (refl, tt))

abbrev lenient : BatchDb MemoryDb
lenient = record { wrapped_db = two_keys; track_diff = changes; read_through_deletes = true }

-- A block that deletes a key twice raises at the second time.
abbrev twice : List Op
twice = write 1 (11 ∷ []) ∷ delete 2 ∷ delete 2 ∷ []

with_batch-raises :
    with_batch (run_ops twice) (new_batch two_keys false)
    ≡ (err key_error, new_batch two_keys false)
unfolding with_batch new_batch Batch.set_item Batch.del_item
with_batch-raises = refl

apply_to_lem_example :
    ((apply_to true changes two_keys).0 ≡ ok tt)
    × ((q : ℕ)
        → lookup q (apply_to true changes two_keys).1
          ≡ overlay true (lookup q changes) (lookup q two_keys))
apply_to_lem_example = apply_to_lem true changes two_keys changes-Unique

both-Unique : All Unique (changes ∷ changes ∷ [])
both-Unique = let last : All Unique (changes ∷ []) = (changes-Unique, tt) in (changes-Unique, last)

join_lem_example :
    Unique (join (changes ∷ changes ∷ []))
    × ((apply_to true (join (changes ∷ changes ∷ [])) two_keys).0 ≡ ok tt)
    × ((q : ℕ)
        → lookup q (apply_to true (join (changes ∷ changes ∷ [])) two_keys).1
          ≡ lookup q (apply_each (changes ∷ changes ∷ []) two_keys))
join_lem_example = join_lem (changes ∷ changes ∷ []) two_keys both-Unique

commit_lem_example :
    ((commit false lenient).0 ≡ ok tt)
    × ((commit false lenient).1.track_diff ≡ [])
    × ((q : ℕ)
        → (lookup q (commit false lenient).1.wrapped_db ≡ get_item q lenient)
          × (get_item q (commit false lenient).1 ≡ get_item q lenient))
    × (true ≡ true → commit true lenient ≡ (err validation_error, lenient))
commit_lem_example = commit_lem lenient changes-Unique

with_batch_lem_example :
    Settled two_keys
      (with_batch (run_ops twice) (new_batch two_keys false))
      (ideal_ops (λ q. lookup q two_keys) twice (λ q. lookup q two_keys))
with_batch_lem_example = with_batch_lem twice two_keys
