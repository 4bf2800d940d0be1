-- ===== src/Estimator/Outcomes.antt =====
-- What a search comes to.
use veda_bvm.Common.{ℕ, ◌+◌, ◌≤◌, ◌<◌, ◌≡◌, ◌⊎◌, inl, inr, Option, none, some, arith}
use veda_bvm.Estimator.{Transaction}
use veda_bvm.Exceptions.{VmError, Exception, Result, ok, err, vm_error}

module _ {S : Type 0} (InSearch : S → Type 0) (answer : Transaction → Result (Option VmError))
    (gas_limit : ℕ) (transaction : Transaction) where
  -- A gas that was seen to be enough, be it free of charge at the limit.
  unfoldable pub Enough : ℕ → Type 0
  Enough g = (g ≡ gas_limit) ⊎ (answer (record transaction { gas = g }) ≡ ok none)

  -- A gas that was seen not to be enough, be it free of charge at the intrinsic gas.
  unfoldable pub Short : ℕ → Type 0
  Short g =
      (g ≡ transaction.intrinsic_gas)
      ⊎ ((e : VmError) × (answer (record transaction { gas = g }) ≡ ok (some e)))

  pub record Found (tolerance viable out : ℕ) (o : Option (Result ℕ × S)) : Type 0 where
    pub found : ℕ
    pub short : ℕ
    pub final : S
    pub runs : o ≡ some (ok found, final)
    pub in_search : InSearch final
    pub enough : Enough found
    pub too_little : Short short
    pub close_by : found ≤ short + tolerance
    pub at_most : found ≤ viable
    pub at_least : out ≤ short

  -- The transaction raises with a gas between the bounds.
  pub record Raised (viable out : ℕ) (o : Option (Result ℕ × S)) : Type 0 where
    pub tried : ℕ
    pub raised : Exception
    pub final : S
    pub runs : o ≡ some (err raised, final)
    pub in_search : InSearch final
    pub answered : answer (record transaction { gas = tried }) ≡ err raised
    pub below : tried < viable
    pub above : out < tried

  abbrev pub Narrowed : ℕ → ℕ → ℕ → Option (Result ℕ × S) → Type 0
  Narrowed tolerance viable out o = Found tolerance viable out o ⊎ Raised viable out o

  -- Narrower bounds.
  pub lower_viable :
      (tolerance middle viable out : ℕ) (o : Option (Result ℕ × S))
      → middle ≤ viable
      → Narrowed tolerance middle out o
      → Narrowed tolerance viable out o
  lower_viable tolerance middle viable out o le (inl n) = inl (record {
    found = n.found;
    short = n.short;
    final = n.final;
    runs = n.runs;
    in_search = n.in_search;
    enough = n.enough;
    too_little = n.too_little;
    close_by = n.close_by;
    at_most = omega (arith, n.at_most);
    at_least = n.at_least;
  })
  lower_viable tolerance middle viable out o le (inr n) = inr (record {
    tried = n.tried;
    raised = n.raised;
    final = n.final;
    runs = n.runs;
    in_search = n.in_search;
    answered = n.answered;
    below = omega (arith, n.below);
    above = n.above;
  })

  pub raise_out :
      (tolerance viable middle out : ℕ) (o : Option (Result ℕ × S))
      → out ≤ middle
      → Narrowed tolerance viable middle o
      → Narrowed tolerance viable out o
  raise_out tolerance viable middle out o le (inl n) = inl (record {
    found = n.found;
    short = n.short;
    final = n.final;
    runs = n.runs;
    in_search = n.in_search;
    enough = n.enough;
    too_little = n.too_little;
    close_by = n.close_by;
    at_most = n.at_most;
    at_least = omega (arith, n.at_least);
  })
  raise_out tolerance viable middle out o le (inr n) = inr (record {
    tried = n.tried;
    raised = n.raised;
    final = n.final;
    runs = n.runs;
    in_search = n.in_search;
    answered = n.answered;
    below = n.below;
    above = omega (arith, n.above);
  })

  -- What a search comes to.
  pub data Estimate (tolerance : ℕ) : Option (Result ℕ × S) → Type 0 where
    at_intrinsic :
        {s : S}
        → InSearch s
        → answer (record transaction { gas = transaction.intrinsic_gas; gas_price = 0 }) ≡ ok none
        → Estimate tolerance (some (ok transaction.intrinsic_gas, s))
    raises_at_intrinsic :
        {s : S} {e : Exception}
        → InSearch s
        → answer (record transaction { gas = transaction.intrinsic_gas; gas_price = 0 }) ≡ err e
        → Estimate tolerance (some (err e, s))
    fails_at_limit :
        {s : S} {short e : VmError}
        → InSearch s
        → answer (record transaction { gas = transaction.intrinsic_gas; gas_price = 0 })
          ≡ ok (some short)
        → answer (record transaction { gas = gas_limit; gas_price = 0 }) ≡ ok (some e)
        → Estimate tolerance (some (err (vm_error e), s))
    raises_at_limit :
        {s : S} {short : VmError} {e : Exception}
        → InSearch s
        → answer (record transaction { gas = transaction.intrinsic_gas; gas_price = 0 })
          ≡ ok (some short)
        → answer (record transaction { gas = gas_limit; gas_price = 0 }) ≡ err e
        → Estimate tolerance (some (err e, s))
    between :
        {o : Option (Result ℕ × S)} {short : VmError}
        → answer (record transaction { gas = transaction.intrinsic_gas; gas_price = 0 })
          ≡ ok (some short)
        → answer (record transaction { gas = gas_limit; gas_price = 0 }) ≡ ok none
        → Narrowed tolerance gas_limit transaction.intrinsic_gas o
        → Estimate tolerance o
