-- ===== src/Estimator/Search.antt =====
-- The search ends, at a gas that is enough and close to one that is not, or where it raises.
use veda_bvm.Estimator.Answers.{Settled, Repeats, get_computation_error-Settled}
use veda_bvm.Estimator.Outcomes.{
  Enough, Short, Narrowed, lower_viable, raise_out, Estimate, at_intrinsic, raises_at_intrinsic,
  fails_at_limit, raises_at_limit, between,
}
use veda_bvm.Common.{
  ℕ, zero, suc, ◌+◌, ◌-◌, ◌/◌, ◌<◌, ◌≡◌, refl, sym, inl, inr, Bool, true, false, not, Option, none,
  some, arith, ltb, if◌then◌else◌, Bool-cases, true≢false,
}
use veda_bvm.Estimator.{
  Transaction, get_computation_error, narrow, search_from_limit, binary_gas_search,
}
use veda_bvm.Exceptions.{VmError, Result, ok, err, Action, type_error, vm_error}
use veda_bvm.Execution.Messages.{ChainState}
use veda_bvm.Execution.{Tree}

narrow_wide :
    (tolerance viable out : ℕ)
    → 0 < tolerance
    → ltb tolerance (viable - out) ≡ true
    → (out < (viable + out) / 2) × ((viable + out) / 2 < viable)
narrow_wide tolerance viable out positive wide = (ground arith, ground arith)

module _ {S : Type 0} (InSearch : S → Type 0) (answer : Transaction → Result (Option VmError))
    (gas_limit : ℕ) (transaction : Transaction) (error_of : Transaction → Action S (Option VmError))
    (settled : Settled error_of InSearch answer) where
  narrow-Narrowed :
      (tolerance fuel viable out : ℕ) (s : S)
      → 0 < tolerance
      → viable - out < fuel
      → Enough InSearch answer gas_limit transaction viable
      → Short InSearch answer gas_limit transaction out
      → InSearch s
      → Narrowed InSearch answer gas_limit transaction tolerance viable out
          (narrow error_of gas_limit transaction tolerance fuel viable out s)
  unfolding narrow Enough Short
  narrow-Narrowed tolerance zero viable out s positive lt e b i = absurd (omega arith)
  narrow-Narrowed tolerance (suc fuel) viable out s positive lt e b i =
      elim (Bool-cases (ltb tolerance (viable - out))) [
        | inl wide ↦
            let (above, below) = narrow_wide tolerance viable out positive wide in
            let middle = record transaction { gas = (viable + out) / 2 } in
            let later = settled.stays middle s i in
            rw (narrow, wide, settled.answers middle s i)
              (round (answer middle) refl later above below
                (λ fine.
                  narrow-Narrowed tolerance fuel ((viable + out) / 2) out (error_of middle s).1
                    positive (omega arith) (inr fine) b later)
                (λ v bad.
                  narrow-Narrowed tolerance fuel viable ((viable + out) / 2) (error_of middle s).1
                    positive (omega arith) e (inr (v, bad)) later))
        | inr done ↦
            rw (narrow, done)
              (inl (record {
                found = viable;
                short = out;
                final = s;
                runs = refl;
                in_search = i;
                enough = e;
                too_little = b;
                close_by = ground arith;
                at_most = omega arith;
                at_least = omega arith;
              }))
      ]
    where
      round :
          (r : Result (Option VmError))
          → answer (record transaction { gas = (viable + out) / 2 }) ≡ r
          → {s2 : S} → InSearch s2
          → out < (viable + out) / 2
          → (viable + out) / 2 < viable
          → {lower upper : Option (Result ℕ × S)}
          → (r ≡ ok none
              → Narrowed InSearch answer gas_limit transaction tolerance
                  ((viable + out) / 2)
                  out
                  lower)
          → ((v : VmError)
              → r ≡ ok (some v)
              → Narrowed InSearch answer gas_limit transaction tolerance viable
                  ((viable + out) / 2)
                  upper)
          → Narrowed InSearch answer gas_limit transaction tolerance viable out (elim r [
            | err x ↦ some (err x, s2)
            | ok found ↦ elim found [ none ↦ lower | some _ ↦ upper ]
          ])
      round (err x) h {s2} later above below go_lower go_upper = inr (record {
        tried = (viable + out) / 2;
        raised = x;
        final = s2;
        runs = refl;
        in_search = later;
        answered = h;
        below = below;
        above = above;
      })
      round (ok none) h later above below {lower} go_lower go_upper =
          lower_viable InSearch answer gas_limit transaction tolerance ((viable + out) / 2) viable
            out lower (omega (arith, below)) (go_lower refl)
      round (ok (some v)) h later above below {lower} {upper} go_lower go_upper =
          raise_out InSearch answer gas_limit transaction tolerance viable ((viable + out) / 2) out
            upper (omega (arith, above)) (go_upper v refl)

  search_from_limit_lem :
      (tolerance fuel : ℕ) (s : S) (short : VmError)
      → 0 < tolerance
      → gas_limit < fuel
      → InSearch s
      → answer (record transaction { gas = transaction.intrinsic_gas; gas_price = 0 })
        ≡ ok (some short)
      → Estimate InSearch answer gas_limit transaction tolerance
          (search_from_limit error_of gas_limit transaction tolerance fuel s)
  unfolding search_from_limit Enough Short
  search_from_limit_lem tolerance fuel s short positive lt i too_little =
      let limit = record transaction { gas = gas_limit; gas_price = 0 } in
      rw (search_from_limit, settled.answers limit s i)
        (go (answer limit) refl (settled.stays limit s i) (
          narrow-Narrowed tolerance fuel gas_limit transaction.intrinsic_gas (error_of limit s).1
            positive (omega arith) (inl refl) (inl refl) (settled.stays limit s i)))
    where
      go :
          (r : Result (Option VmError))
          → answer (record transaction { gas = gas_limit; gas_price = 0 }) ≡ r
          → {s2 : S} → InSearch s2
          → {rest : Option (Result ℕ × S)}
          → Narrowed InSearch answer gas_limit transaction tolerance gas_limit
              transaction.intrinsic_gas rest
          → Estimate InSearch answer gas_limit transaction tolerance (elim r [
            | err x ↦ some (err x, s2)
            | ok found ↦ elim found [ some e ↦ some (err (vm_error e), s2) | none ↦ rest ]
          ])
      go (err x) h later n = raises_at_limit later too_little h
      go (ok none) h later n = between too_little h n
      go (ok (some e)) h later n = fails_at_limit later too_little h

  search_lem :
      (tolerance fuel : ℕ) (s : S)
      → transaction.has_sender ≡ true
      → 0 < tolerance
      → gas_limit < fuel
      → InSearch s
      → Estimate InSearch answer gas_limit transaction tolerance
          (binary_gas_search error_of gas_limit transaction tolerance fuel s)
  unfolding binary_gas_search
  search_lem tolerance fuel s sender positive lt i =
      let least = record transaction { gas = transaction.intrinsic_gas; gas_price = 0 } in
      with_sender transaction.has_sender (some (err type_error, s)) sender (
        rw (settled.answers least s i) (
          go (answer least) refl (settled.stays least s i) (λ short h.
            search_from_limit_lem tolerance fuel (error_of least s).1 short positive lt
              (settled.stays least s i) h)))
    where
      go :
          (r : Result (Option VmError))
          → answer (record transaction { gas = transaction.intrinsic_gas; gas_price = 0 }) ≡ r
          → {s2 : S} → InSearch s2
          → {rest : Option (Result ℕ × S)}
          → ((short : VmError)
              → answer (record transaction { gas = transaction.intrinsic_gas; gas_price = 0 })
                ≡ ok (some short)
              → Estimate InSearch answer gas_limit transaction tolerance rest)
          → Estimate InSearch answer gas_limit transaction tolerance (elim r [
            | err x ↦ some (err x, s2)
            | ok found ↦ elim found [
              | none ↦ some (ok transaction.intrinsic_gas, s2)
              | some _ ↦ rest
            ]
          ])
      go (err x) h later n = raises_at_intrinsic later h
      go (ok none) h later n = at_intrinsic later h
      go (ok (some e)) h later n = n e h

      with_sender :
          (b : Bool) (x : Option (Result ℕ × S)) {o : Option (Result ℕ × S)}
          → b ≡ true
          → Estimate InSearch answer gas_limit transaction tolerance o
          → Estimate InSearch answer gas_limit transaction tolerance (if not b then x else o)
      with_sender true x h k = k
      with_sender false x h k = absurd (true≢false (sym h))

-- For a transaction with a sender, on a state where applying a transaction leaves the snapshot
-- before it open and comes to the same, be it an exception, whenever the accounts are the same, and
-- with a tolerance of 1 at least and fuel above the block's gas limit, the search ends, in such a
-- state. An exception of the transaction with the intrinsic gas, free of charge, is raised, and if
-- that gas is enough, it is the result; else an exception or an error of the transaction with the
-- limit, free of charge, is raised; else either an exception of the transaction with a gas between
-- the two is raised, or the result is a gas that was enough, at most the limit, and at most the
-- tolerance above one that was not, which is the intrinsic gas at least.
pub binary_gas_search_lem :
    {S : Type 0} (state : ChainState S) (apply_transaction : Transaction → Action S Tree)
    (InSearch : S → Type 0) (answer : Transaction → Result (Option VmError)) (gas_limit : ℕ)
    (transaction : Transaction) (tolerance fuel : ℕ) (s : S)
    → Repeats state apply_transaction InSearch answer
    → transaction.has_sender ≡ true
    → 0 < tolerance
    → gas_limit < fuel
    → InSearch s
    → Estimate InSearch answer gas_limit transaction tolerance (
        binary_gas_search
          (get_computation_error state apply_transaction)
          gas_limit
          transaction
          tolerance
          fuel
          s)
binary_gas_search_lem state apply_transaction InSearch answer gas_limit transaction tolerance fuel s
      repeats sender positive lt i =
    search_lem InSearch answer gas_limit transaction (get_computation_error state apply_transaction)
      (get_computation_error-Settled state apply_transaction InSearch answer repeats) tolerance fuel
      s sender positive lt i
