-- ===== src/Database/Applied.antt =====
-- What a diff leaves in the database that it is applied to.
use veda_bvm.Common.{
  ℕ, ◌≡◌, refl, sym, ap, ◌∙◌, Bool, true, false, Option, none, some, List, [], ◌∷◌, arith, ◌==◌,
  if◌then◌else◌, All, Bool-cases, inl, inr,
}
use veda_bvm.Database.{Database}
use veda_bvm.Database.Diff.{
  Entry, value, deleted, DbDiff, apply_entry, apply_to, track, join_onto, join, set_item, del_item,
}
use veda_bvm.Dict.{lookup, contains, insert, lookup-insert}
use veda_bvm.Dict.Unique.{Unique, lookup-absent, insert-Unique}
use veda_bvm.Exceptions.{ok, bind_ok}

-- What is read where there was `old`, after an entry of the diff.
abbrev pub overlay : Bool → Option Entry → Option (List ℕ) → Option (List ℕ)
overlay apply_deletes none old = old
overlay apply_deletes (some (value bs)) old = some bs
overlay true (some deleted) old = none
overlay false (some deleted) old = old

module _ {D : Type 0} ⦃db : Database D⦄ where
  apply_entry_ok :
      (flag : Bool) (k : ℕ) (entry : Entry) (d : D) → (apply_entry flag k entry d).0 ≡ ok tt
  unfolding apply_entry
  apply_entry_ok flag k (value bs) d = refl
  apply_entry_ok true k deleted d = elim (db.del-raises k d) [
    | inl fine ↦ rw fine refl
    | inr missing ↦ rw missing refl
  ]
  apply_entry_ok false k deleted d = refl

  get-apply_entry :
      (flag : Bool) (q k : ℕ) (entry : Entry) (d : D)
      → db.get q (apply_entry flag k entry d).1
        ≡ (if q == k then overlay flag (some entry) (db.get q d) else db.get q d)
  unfolding apply_entry
  get-apply_entry flag q k (value bs) d = db.get-put q k bs d
  get-apply_entry true q k deleted d = db.get-del q k d
  get-apply_entry false q k deleted d = ground arith

  apply_to_cons :
      (flag : Bool) (k : ℕ) (entry : Entry) (changes : DbDiff) (d : D)
      → apply_to flag ((k, entry) ∷ changes) d
        ≡ apply_to flag changes (apply_entry flag k entry d).1
  unfolding apply_to
  apply_to_cons flag k entry changes d =
      let fine = apply_entry_ok flag k entry d in
      let m = apply_entry flag k entry in
      bind_ok m (λ _. apply_to flag changes) (ap (λ r. (r, (m d).1)) fine)

  -- Applying a diff raises nothing, and every key then reads as the diff says, or as before.
  pub apply_to_lem :
      (flag : Bool) (changes : DbDiff) (d : D)
      → Unique changes
      → ((apply_to flag changes d).0 ≡ ok tt)
        × ((q : ℕ)
            → db.get q (apply_to flag changes d).1 ≡ overlay flag (lookup q changes) (db.get q d))
  unfolding apply_to lookup
  apply_to_lem flag [] d u = (refl, λ q. refl)
  apply_to_lem flag ((k, entry) ∷ changes) d (new, u) =
      let (ran, reads) = apply_to_lem flag changes (apply_entry flag k entry d).1 u in
      let whole = apply_to_cons flag k entry changes d in
      (ap (λ p. p.0) whole ∙ ran, λ q. ap (λ p. db.get q p.1) whole ∙ reads q ∙ later q)
    where
      later :
          (q : ℕ)
          → overlay flag (lookup q changes) (db.get q (apply_entry flag k entry d).1)
            ≡ overlay flag (if q == k then some entry else lookup q changes) (db.get q d)
      later q = elim (Bool-cases (q == k)) [
        | inl same ↦ ground (arith, get-apply_entry flag q k entry d, lookup-absent k changes new)
        | inr other ↦ ground (arith, get-apply_entry flag q k entry d)
      ]

track-Unique : (changes tracker : DbDiff) → Unique tracker → Unique (track changes tracker)
unfolding track set_item del_item
track-Unique [] tracker u = u
track-Unique ((k, value bs) ∷ changes) tracker u =
    track-Unique changes (insert k (value bs) tracker) (insert-Unique k (value bs) tracker u)
track-Unique ((k, deleted) ∷ changes) tracker u =
    track-Unique changes (insert k deleted tracker) (insert-Unique k deleted tracker u)

join_onto-Unique :
    (tracker : DbDiff) (ds : List DbDiff) → Unique tracker → Unique (join_onto tracker ds)
unfolding join_onto
join_onto-Unique tracker [] u = u
join_onto-Unique tracker (diff ∷ ds) u =
    join_onto-Unique (track diff tracker) ds (track-Unique diff tracker u)

abbrev later_of : Option Entry → Option Entry → Option Entry
later_of none early = early
later_of (some entry) early = some entry

later_of-insert :
    (q k : ℕ) (e : Entry) (changes tracker : DbDiff)
    → contains k changes ≡ false
    → later_of (lookup q changes) (lookup q (insert k e tracker))
      ≡ later_of (lookup q ((k, e) ∷ changes)) (lookup q tracker)
unfolding lookup
later_of-insert q k e changes tracker new = elim (Bool-cases (q == k)) [
  | inl same ↦ ground (arith, lookup-insert q k e tracker, lookup-absent k changes new)
  | inr other ↦ ground (arith, lookup-insert q k e tracker)
]

lookup-track :
    (q : ℕ) (changes tracker : DbDiff)
    → Unique changes
    → lookup q (track changes tracker) ≡ later_of (lookup q changes) (lookup q tracker)
unfolding track set_item del_item lookup
lookup-track q [] tracker u = refl
lookup-track q ((k, value bs) ∷ changes) tracker (new, u) =
    lookup-track q changes (insert k (value bs) tracker) u
    ∙ later_of-insert q k (value bs) changes tracker new
lookup-track q ((k, deleted) ∷ changes) tracker (new, u) =
    lookup-track q changes (insert k deleted tracker) u
    ∙ later_of-insert q k deleted changes tracker new

overlay-later_of :
    (late early : Option Entry) (old : Option (List ℕ))
    → overlay true (later_of late early) old ≡ overlay true late (overlay true early old)
overlay-later_of none early old = refl
overlay-later_of (some (value bs)) early old = refl
overlay-later_of (some deleted) early old = refl

-- What is read where there was `old`, after each diff in turn.
abbrev after_each : ℕ → List DbDiff → Option (List ℕ) → Option (List ℕ)
after_each q [] old = old
after_each q (diff ∷ ds) old = after_each q ds (overlay true (lookup q diff) old)

overlay-join_onto :
    (q : ℕ) (tracker : DbDiff) (ds : List DbDiff) (old : Option (List ℕ))
    → All Unique ds
    → overlay true (lookup q (join_onto tracker ds)) old
      ≡ after_each q ds (overlay true (lookup q tracker) old)
unfolding join_onto
overlay-join_onto q tracker [] old us = refl
overlay-join_onto q tracker (diff ∷ ds) old (u, us) =
    overlay-join_onto q (track diff tracker) ds old us
    ∙ ap (λ e. after_each q ds (overlay true e old)) (lookup-track q diff tracker u)
    ∙ ap (after_each q ds) (overlay-later_of (lookup q diff) (lookup q tracker) old)

module _ {D : Type 0} ⦃db : Database D⦄ where
  -- Applying each diff in turn.
  abbrev pub apply_each : List DbDiff → D → D
  apply_each [] d = d
  apply_each (diff ∷ ds) d = apply_each ds (apply_to true diff d).1

  get-apply_each :
      (q : ℕ) (ds : List DbDiff) (d : D)
      → All Unique ds
      → db.get q (apply_each ds d) ≡ after_each q ds (db.get q d)
  get-apply_each q [] d us = refl
  get-apply_each q (diff ∷ ds) d (u, us) =
      get-apply_each q ds (apply_to true diff d).1 us
      ∙ ap (after_each q ds) ((apply_to_lem true diff d u).1 q)

  -- Diffs joined into one hold each key once, and applying that one with its deletes raises nothing
  -- and leaves every key to read as applying the diffs in turn does.
  pub join_lem :
      (ds : List DbDiff) (d : D)
      → All Unique ds
      → Unique (join ds)
        × ((apply_to true (join ds) d).0 ≡ ok tt)
        × ((q : ℕ) → db.get q (apply_to true (join ds) d).1 ≡ db.get q (apply_each ds d))
  unfolding join lookup
  join_lem ds d us =
      let u = join_onto-Unique [] ds tt in
      let (ran, reads) = apply_to_lem true (join_onto [] ds) d u in
      (
        u,
        ran,
        λ q. reads q ∙ overlay-join_onto q [] ds (db.get q d) us ∙ sym (get-apply_each q ds d us),
      )
