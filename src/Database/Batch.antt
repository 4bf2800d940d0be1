-- ===== src/Database/Batch.antt =====
-- veda/db/batch.py: a database whose changes wait in a tracker until they are committed.
use veda_bvm.Common.{
  ℕ, Bool, true, false, not, ◌&&◌, Option, none, some, List, [], ⊤, if◌then◌else◌,
}
use veda_bvm.Database.{Database}
use veda_bvm.Database.Diff
use veda_bvm.Database.Diff.{DbDiff, Missing, Found, apply_to}
use veda_bvm.Exceptions.{ok, err, Action, ◌>>◌, raise, modify, zoom, key_error, validation_error}

pub record BatchDb (D : Type 0) : Type 0 where
  pub wrapped_db : D
  pub track_diff : DbDiff
  pub read_through_deletes : Bool

unfoldable pub is_deleted : Missing → Bool
is_deleted Missing.never_inserted = false
is_deleted Missing.was_deleted = true

unfoldable pub new_batch : {D : Type 0} → D → Bool → BatchDb D
new_batch d flag = record { wrapped_db = d; track_diff = []; read_through_deletes = flag }

unfoldable pub clear : {D : Type 0} → BatchDb D → BatchDb D
clear b = record b { track_diff = [] }

module _ {D : Type 0} ⦃db : Database D⦄ where
  unfoldable pub get_item : ℕ → BatchDb D → Option (List ℕ)
  unfolding Diff.get_item is_deleted
  get_item key b = elim (Diff.get_item key b.track_diff) [
    | Found.found bs ↦ some bs
    | Found.diff_missing missing ↦
        if is_deleted missing && not b.read_through_deletes then none else db.get key b.wrapped_db
  ]

  unfoldable pub exists : ℕ → BatchDb D → Bool
  unfolding get_item
  exists key b = elim (get_item key b) [ none ↦ false | some _ ↦ true ]

  unfoldable pub set_item : ℕ → List ℕ → Action (BatchDb D) ⊤
  unfolding Diff.set_item
  set_item key bs = modify (λ b. record b { track_diff = Diff.set_item key bs b.track_diff })

  unfoldable pub del_item : ℕ → Action (BatchDb D) ⊤
  unfolding Diff.del_item exists
  del_item key b =
      if not (exists key b)
      then raise key_error b
      else modify (λ b. record b { track_diff = Diff.del_item key b.track_diff }) b

  -- The target is a database of its own beside the batch.
  unfoldable pub commit_to : {T : Type 0} ⦃target : Database T⦄ → Bool → Action (T × BatchDb D) ⊤
  unfolding apply_to clear
  commit_to apply_deletes (t, b) =
      if apply_deletes && b.read_through_deletes
      then raise validation_error (t, b)
      else (zoom (λ p. p.0) (λ p s. (s, p.1)) (apply_to apply_deletes b.track_diff)
            >> modify (λ p. (p.0, clear p.1)))
          (t, b)

  unfoldable pub commit : Bool → Action (BatchDb D) ⊤
  unfolding commit_to
  commit apply_deletes =
      zoom (λ b. (b.wrapped_db, b)) (λ b p. record p.1 { wrapped_db = p.0 })
        (commit_to apply_deletes)

  -- `with batch: body`: the batch commits when the body ends and forgets its changes when the body
  -- raises, which `__exit__` lets go on.
  unfoldable pub with_batch : Action (BatchDb D) ⊤ → Action (BatchDb D) ⊤
  unfolding commit clear
  with_batch body b =
      let (r, after) = body b in elim r [ ok _ ↦ commit true after | err e ↦ (err e, clear after) ]
