-- ===== src/Database.antt =====
-- veda/db/backends: what a key/value database promises, with the database in memory as one that
-- keeps it. `EVMMissingData`, which databases of a light client raise, is left out.
pub mod Diff
pub mod Applied
pub mod Batch
pub mod Commit
pub mod Atomic
mod Tests
use veda_bvm.Common.{
  ℕ, ◌≡◌, refl, ◌⊎◌, inl, inr, Bool, true, false, Option, none, some, List, [], ◌∷◌, ⊤, arith, ◌==◌,
  if◌then◌else◌, Option-cases,
}
use veda_bvm.Dict.{Dict, lookup, contains, insert, erase, lookup-insert, lookup-erase}
use veda_bvm.Exceptions.{Result, ok, err, Action, key_error}

pub record Database (D : Type 0) : Type 0 where
  -- `db[key]`, where `none` stands for a KeyError
  pub get : ℕ → D → Option (List ℕ)
  pub put : ℕ → List ℕ → D → D
  -- `del db[key]`
  pub del : ℕ → Action D ⊤
  pub get-put :
      (q k : ℕ) (v : List ℕ) (d : D) → get q (put k v d) ≡ (if q == k then some v else get q d)
  pub get-del : (q k : ℕ) (d : D) → get q (del k d).1 ≡ (if q == k then none else get q d)
  -- of a key that is there it raises nothing, and of a missing one at most a KeyError
  pub del-present : (k : ℕ) (d : D) {v : List ℕ} → get k d ≡ some v → (del k d).0 ≡ ok tt
  pub del-raises : (k : ℕ) (d : D) → ((del k d).0 ≡ ok tt) ⊎ ((del k d).0 ≡ err key_error)

-- `key in db`
unfoldable pub exists : {D : Type 0} ⦃db : Database D⦄ → ℕ → D → Bool
exists ⦃db⦄ key d = elim (db.get key d) [ none ↦ false | some _ ↦ true ]

-- `MemoryDB`
abbrev pub MemoryDb : Type 0
MemoryDb = Dict (List ℕ)

unfoldable pub del_memory : ℕ → Action MemoryDb ⊤
unfolding contains erase
del_memory key kv_store =
    if contains key kv_store then (ok tt, erase key kv_store) else (err key_error, kv_store)

pub get-del_memory :
    (q k : ℕ) (d : MemoryDb) → lookup q (del_memory k d).1 ≡ (if q == k then none else lookup q d)
unfolding del_memory contains
get-del_memory q k d = elim (Option-cases (lookup k d)) [
  | inl missing ↦ ground (arith, lookup-erase q k d)
  | inr (v, there) ↦ ground (arith, lookup-erase q k d)
]

pub del_memory-present :
    (k : ℕ) (d : MemoryDb) {v : List ℕ} → lookup k d ≡ some v → (del_memory k d).0 ≡ ok tt
unfolding del_memory contains
del_memory-present k d h = ground arith

pub del_memory-raises :
    (k : ℕ) (d : MemoryDb) → ((del_memory k d).0 ≡ ok tt) ⊎ ((del_memory k d).0 ≡ err key_error)
unfolding del_memory
del_memory-raises k d = ground arith

instance abbrev pub memory_db : Database MemoryDb
memory_db = record {
  get = lookup;
  put = insert;
  del = del_memory;
  get-put = lookup-insert;
  get-del = get-del_memory;
  del-present = del_memory-present;
  del-raises = del_memory-raises;
}
