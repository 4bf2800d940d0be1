-- ===== src/Dict/Unique.antt =====
-- A dictionary holds each key once.
use veda_bvm.Common.{
  ℕ, ◌≡◌, refl, true, false, none, [], ◌∷◌, ⊤, arith, ◌==◌, if◌then◌else◌, Bool-cases, inl, inr,
}
use veda_bvm.Dict.{Dict, lookup, contains, insert}

module _ {ℓ} {V : Type ℓ} where
  abbrev pub Unique : Dict V → Type 0
  Unique [] = ⊤
  Unique ((k, v) ∷ d) = (contains k d ≡ false) × Unique d

  pub contains-insert :
      (q k : ℕ) (v : V) (d : Dict V)
      → contains q (insert k v d) ≡ (if q == k then true else contains q d)
  unfolding contains lookup insert
  contains-insert q k v [] = ground arith
  contains-insert q k v ((j, w) ∷ d) = ground (arith, contains-insert q k v d)

  pub insert-Unique : (k : ℕ) (v : V) (d : Dict V) → Unique d → Unique (insert k v d)
  unfolding insert
  insert-Unique k v [] u = (unfold contains lookup in refl, tt)
  insert-Unique k v ((j, w) ∷ d) (new, u) = elim (Bool-cases (k == j)) [
    | inl same ↦ rw same (unfold contains lookup in ground arith, u)
    | inr other ↦ rw other (ground (arith, contains-insert j k v d), insert-Unique k v d u)
  ]

  pub lookup-absent : (k : ℕ) (d : Dict V) → contains k d ≡ false → lookup k d ≡ none
  unfolding contains
  lookup-absent k d h = ground arith

  pub contains-rest :
      (k j : ℕ) (v : V) (d : Dict V)
      → contains k ((j, v) ∷ d) ≡ false
      → (k == j ≡ false) × (contains k d ≡ false)
  unfolding contains lookup
  contains-rest k j v d h = (ground arith, ground arith)
