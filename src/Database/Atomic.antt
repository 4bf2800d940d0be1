-- ===== src/Database/Atomic.antt =====
-- A `with` block of a batch does all of its changes, as they read in the batch, or none of them.
use veda_bvm.Common.{
  ℕ, ◌≡◌, refl, sym, ap, ◌∙◌, true, false, not, Option, none, some, List, [], ◌∷◌, ⊤, arith, ◌==◌,
  if◌then◌else◌, Option-cases, inl, inr,
}
use veda_bvm.Database.{Database}
use veda_bvm.Database.Applied.{apply_to_lem, overlay}
use veda_bvm.Database.Batch.{
  BatchDb, get_item, exists, set_item, del_item, clear, commit, with_batch, new_batch,
}
use veda_bvm.Database.Commit.{get_item-overlay, get_item-empty, commit_ok}
use veda_bvm.Database.Diff
use veda_bvm.Database.Diff.{Entry, value, deleted, DbDiff, Missing, Found, apply_to}
use veda_bvm.Dict.{lookup, insert, lookup-insert}
use veda_bvm.Dict.Unique.{Unique, insert-Unique}
use veda_bvm.Exceptions.{Result, ok, err, Action, ◌>>◌, pure, key_error}

-- The calls of a batch, and what they do to the function that says what each key reads as.
pub data Op : Type 0 where
  read delete : ℕ → Op
  write : ℕ → List ℕ → Op
  forget : Op

abbrev pub Reads : Type 0
Reads = ℕ → Option (List ℕ)

module _ {D : Type 0} ⦃db : Database D⦄ where
  abbrev pub run_op : Op → Action (BatchDb D) ⊤
  run_op (read k) b = (elim (get_item k b) [ none ↦ err key_error | some _ ↦ ok tt ], b)
  run_op (delete k) b = del_item k b
  run_op (write k v) b = set_item k v b
  run_op forget b = (ok tt, clear b)

  abbrev pub run_ops : List Op → Action (BatchDb D) ⊤
  run_ops [] = pure tt
  run_ops (op ∷ ops) = run_op op >> run_ops ops

-- The same on the reads alone, `base` being those of the wrapped database.
abbrev pub ideal_delete : ℕ → Option (List ℕ) → Action Reads ⊤
ideal_delete k none r = (err key_error, r)
ideal_delete k (some _) r = (ok tt, λ q. if q == k then none else r q)

abbrev pub ideal_op : Reads → Op → Action Reads ⊤
ideal_op base (read k) r = (elim (r k) [ none ↦ err key_error | some _ ↦ ok tt ], r)
ideal_op base (delete k) r = ideal_delete k (r k) r
ideal_op base (write k v) r = (ok tt, λ q. if q == k then some v else r q)
ideal_op base forget r = (ok tt, base)

abbrev pub ideal_ops : Reads → List Op → Action Reads ⊤
ideal_ops base [] = pure tt
ideal_ops base (op ∷ ops) = ideal_op base op >> ideal_ops base ops

module _ {D : Type 0} ⦃db : Database D⦄ where
  record InStep (d : D) (b : BatchDb D) (r : Reads) : Type 0 where
    one_each : Unique b.track_diff
    plain : b.read_through_deletes ≡ false
    kept : b.wrapped_db ≡ d
    reads_as : (q : ℕ) → get_item q b ≡ r q

  record Answers (d : D) (p : Result ⊤ × BatchDb D) (s : Result ⊤ × Reads) : Type 0 where
    same : p.0 ≡ s.0
    in_step : InStep d p.1 s.1

  insert-InStep :
      (d : D) (k : ℕ) (e : Entry) (b : BatchDb D) (r : Reads)
      → InStep d b r
      → InStep d
          (record b { track_diff = insert k e b.track_diff })
          (λ q. if q == k then overlay true (some e) none else r q)
  insert-InStep d k e b r h = record {
    one_each = insert-Unique k e b.track_diff h.one_each;
    plain = h.plain;
    kept = h.kept;
    reads_as = λ q.
        get_item-overlay q (record b { track_diff = insert k e b.track_diff })
        ∙ reads q e (get_item-overlay q b);
  }
    where
      reads :
          (q : ℕ) (e : Entry)
          → get_item q b
            ≡ overlay (not b.read_through_deletes) (lookup q b.track_diff) (db.get q b.wrapped_db)
          → overlay
              (not b.read_through_deletes)
              (lookup q (insert k e b.track_diff))
              (db.get q b.wrapped_db)
            ≡ (if q == k then overlay true (some e) none else r q)
      reads q (value v) o =
          rw h.plain ground
            (arith, lookup-insert q k (value v) b.track_diff, o, h.reads_as q, h.plain)
      reads q deleted o =
          rw h.plain ground
            (arith, lookup-insert q k deleted b.track_diff, o, h.reads_as q, h.plain)

  exists_as :
      (k : ℕ) (b : BatchDb D) {o : Option (List ℕ)}
      → get_item k b ≡ o
      → exists k b ≡ elim o [ none ↦ false | some _ ↦ true ]
  unfolding exists
  exists_as k b h = ap (λ o. elim o [ none ↦ false | some _ ↦ true ]) h

  bind-Answers :
      (d : D) (x y : Result ⊤) {b : BatchDb D} {r : Reads} (f : Action (BatchDb D) ⊤)
      (g : Action Reads ⊤)
      → x ≡ y
      → InStep d b r
      → Answers d (f b) (g r)
      → Answers d
          (elim x [ ok _ ↦ f b | err e ↦ (err e, b) ])
          (elim y [ ok _ ↦ g r | err e ↦ (err e, r) ])
  bind-Answers d x (ok a) f g same h next = rw same next
  bind-Answers d x (err e) f g same h next = rw same (record { same = refl; in_step = h })

  op-Answers :
      (d : D) (op : Op) (b : BatchDb D) (r : Reads)
      → InStep d b r
      → Answers d (run_op op b) (ideal_op (λ q. db.get q d) op r)
  unfolding set_item del_item Diff.set_item Diff.del_item clear
  op-Answers d (read k) b r h = rw (h.reads_as k) (record { same = refl; in_step = h })
  op-Answers d (delete k) b r h = elim (Option-cases (r k)) [
    | inl gone ↦
        rw (exists_as k b (h.reads_as k ∙ gone), gone) (record { same = refl; in_step = h })
    | inr (v, there) ↦
        rw (exists_as k b (h.reads_as k ∙ there), there)
          (record { same = refl; in_step = insert-InStep d k deleted b r h })
  ]
  op-Answers d (write k v) b r h = record {
    same = refl;
    in_step = insert-InStep d k (value v) b r h;
  }
  op-Answers d forget b r h = record {
    same = refl;
    in_step = record {
      one_each = tt;
      plain = h.plain;
      kept = h.kept;
      reads_as = λ q. get_item-empty q b b.wrapped_db ∙ ap (db.get q) h.kept;
    };
  }

  ops-Answers :
      (d : D) (ops : List Op) (b : BatchDb D) (r : Reads)
      → InStep d b r
      → Answers d (run_ops ops b) (ideal_ops (λ q. db.get q d) ops r)
  ops-Answers d [] b r h = record { same = refl; in_step = h }
  ops-Answers d (op ∷ ops) b r h =
      let base : Reads = λ q. db.get q d in
      let first = op-Answers d op b r h in
      bind-Answers d (run_op op b).0 (ideal_op base op r).0 (run_ops ops) (ideal_ops base ops)
        first.same first.in_step
        (ops-Answers d ops (run_op op b).1 (ideal_op base op r).1 first.in_step)

  abbrev Stored : Result ⊤ → D → D → Reads → Type 0
  Stored (ok _) d after reads = (q : ℕ) → db.get q after ≡ reads q
  Stored (err _) d after reads = after ≡ d

  -- What a `with` block leaves: `reads` in the database if it ended well, the database as it was if
  -- it raised.
  pub record Settled (d : D) (p : Result ⊤ × BatchDb D) (s : Result ⊤ × Reads) : Type 0 where
    answer : p.0 ≡ s.0
    nothing_pending : p.1.track_diff ≡ []
    stored : Stored s.0 d p.1.wrapped_db s.1

  settle :
      (d : D) (x y : Result ⊤) {b : BatchDb D} {r : Reads}
      → x ≡ y
      → InStep d b r
      → Settled d (elim x [ ok _ ↦ commit true b | err e ↦ (err e, clear b) ]) (y, r)
  unfolding clear
  settle d x (ok a) {b} same h =
      let flag = ap not (sym h.plain) in
      rw (same, commit_ok true b h.one_each flag)
        (record {
          answer = refl;
          nothing_pending = refl;
          stored = λ q.
              (apply_to_lem true b.track_diff b.wrapped_db h.one_each).1 q
              ∙ ap (λ f. overlay f (lookup q b.track_diff) (db.get q b.wrapped_db)) flag
              ∙ sym (get_item-overlay q b)
              ∙ h.reads_as q;
        })
  settle d x (err e) same h =
      rw same (record { answer = refl; nothing_pending = refl; stored = h.kept })

  -- A `with` block of reads, writes, deletions and clears of a new batch that does not read deleted
  -- keys through ends as the same calls on the reads of the wrapped database do, and leaves no
  -- change pending. If they all return, each key of the wrapped database then reads as they left
  -- it; if one of them raises, the wrapped database is as it was.
  pub with_batch_lem :
      (ops : List Op) (d : D)
      → Settled d
          (with_batch (run_ops ops) (new_batch d false))
          (ideal_ops (λ q. db.get q d) ops (λ q. db.get q d))
  unfolding with_batch new_batch
  with_batch_lem ops d =
      let base : Reads = λ q. db.get q d in
      let b = new_batch d false in
      let ran = ops-Answers d ops b base (record {
        one_each = tt;
        plain = refl;
        kept = refl;
        reads_as = λ q. get_item-empty q b d;
      }) in
      settle d (run_ops ops b).0 (ideal_ops base ops base).0 ran.same ran.in_step
