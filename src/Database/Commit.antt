-- ===== src/Database/Commit.antt =====
-- What a batch reads, and what a commit and a `with` block leave in the database it wraps.
use veda_bvm.Common.{ℕ, ◌≡◌, refl, sym, ap, ◌∙◌, Bool, true, false, not, ◌&&◌, [], arith}
use veda_bvm.Database.{Database}
use veda_bvm.Database.Applied.{apply_to_lem, overlay}
use veda_bvm.Database.Batch.{BatchDb, get_item, clear, commit_to, commit, is_deleted}
use veda_bvm.Database.Diff
use veda_bvm.Database.Diff.{Entry, value, deleted, DbDiff, Missing, Found, apply_to}
use veda_bvm.Dict.{lookup}
use veda_bvm.Dict.Unique.{Unique}
use veda_bvm.Exceptions.{ok, err, bind_ok, modify, zoom, validation_error}

module _ {D : Type 0} ⦃db : Database D⦄ where
  pub get_item-overlay :
      (q : ℕ) (b : BatchDb D)
      → get_item q b
        ≡ overlay (not b.read_through_deletes) (lookup q b.track_diff) (db.get q b.wrapped_db)
  unfolding get_item Diff.get_item is_deleted
  get_item-overlay q b = ground arith

  pub get_item-empty :
      (q : ℕ) (b : BatchDb D) (d : D)
      → get_item q (record b { wrapped_db = d; track_diff = [] }) ≡ db.get q d
  unfolding get_item Diff.get_item is_deleted lookup
  get_item-empty q b d = refl

  commit_refused :
      (b : BatchDb D) → b.read_through_deletes ≡ true → commit true b ≡ (err validation_error, b)
  unfolding commit commit_to
  commit_refused b h = rw h refl

  commit_to_ok :
      {T : Type 0} ⦃target : Database T⦄ (flag : Bool) (t : T) (b : BatchDb D)
      → Unique b.track_diff
      → (flag && b.read_through_deletes) ≡ false
      → commit_to flag (t, b) ≡ (ok tt, ((apply_to flag b.track_diff t).1, clear b))
  unfolding commit_to
  commit_to_ok {T} flag t b u allowed =
      let applied = zoom (λ p. p.0) (λ p s. (s, p.1)) (apply_to flag b.track_diff) in
      let t2 = (apply_to flag b.track_diff t).1 in
      rw allowed (
        bind_ok {S = T × BatchDb D} applied (λ _. modify (λ p. (p.0, clear p.1)))
          (ap (λ r. (r, (t2, b))) (apply_to_lem flag b.track_diff t u).0))

  pub commit_ok :
      (flag : Bool) (b : BatchDb D)
      → Unique b.track_diff
      → flag ≡ not b.read_through_deletes
      → commit flag b ≡ (
        ok tt,
        record b { wrapped_db = (apply_to flag b.track_diff b.wrapped_db).1; track_diff = [] },
      )
  unfolding commit clear
  commit_ok flag b u h =
      ap (λ p. (p.0, record p.1.1 { wrapped_db = p.1.0 }))
        (commit_to_ok flag b.wrapped_db b u (ground (arith, h)))

  -- When a batch that reads deleted keys through is committed without its deletes, or another with
  -- them, the commit succeeds, no change is left pending, and every key reads in the wrapped
  -- database, and still in the batch, as it read in the batch before. A commit of the first kind of
  -- batch with its deletes is refused with a validation error and changes nothing.
  pub commit_lem :
      (b : BatchDb D)
      → Unique b.track_diff
      → ((commit (not b.read_through_deletes) b).0 ≡ ok tt)
        × ((commit (not b.read_through_deletes) b).1.track_diff ≡ [])
        × ((q : ℕ)
            → (db.get q (commit (not b.read_through_deletes) b).1.wrapped_db ≡ get_item q b)
              × (get_item q (commit (not b.read_through_deletes) b).1 ≡ get_item q b))
        × (b.read_through_deletes ≡ true → commit true b ≡ (err validation_error, b))
  commit_lem b u = rw (commit_ok (not b.read_through_deletes) b u refl) (
    refl,
    refl,
    λ q. (
      reads q,
      get_item-empty q b (apply_to (not b.read_through_deletes) b.track_diff b.wrapped_db).1
          ∙ reads q,
    ),
    commit_refused b,
  )
    where
      reads :
          (q : ℕ)
          → db.get q (apply_to (not b.read_through_deletes) b.track_diff b.wrapped_db).1
            ≡ get_item q b
      reads q =
          (apply_to_lem (not b.read_through_deletes) b.track_diff b.wrapped_db u).1 q
          ∙ sym (get_item-overlay q b)
