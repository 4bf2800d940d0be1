-- ===== src/Execution/Costs.antt =====
-- An opcode of the machine with a gas cost is one that takes gas.
use veda_bvm.Common.{ℕ, ◌-◌, ◌≤◌, ◌<◌, ◌≡◌, refl, ap, ◌∙◌, ◌⊎◌, inl, inr, ⊤, arith, ◌==◌, false}
use veda_bvm.Common.Int.{pos}
use veda_bvm.Computation.{Computation, on_gas_meter}
use veda_bvm.Exceptions.{Result, ok, err, Action, bind_ok, bind_err}
use veda_bvm.Execution.Ends.{Keeps, Spends, remaining}
use veda_bvm.Execution.Run.{Step, on_frame, on_machine}
use veda_bvm.Execution.{Tree, tree}
use veda_bvm.Gas.Account.{consume_gas_lem}
use veda_bvm.Gas.{consume_gas, out_of_gas}
use veda_bvm.Logic.{as_opcode}

-- What an opcode costs is taken before it runs, or it does not run.
as_opcode_cases :
    (m : Action Computation ⊤) (cost : ℕ) (c : Computation)
    → 0 < cost
    → ((cost ≤ c.gas_meter.gas_remaining)
        × (as_opcode m cost c
            ≡ m (record c {
              gas_meter = record c.gas_meter { gas_remaining = c.gas_meter.gas_remaining - cost };
            })))
      ⊎ (as_opcode m cost c ≡ (err out_of_gas, c))
unfolding as_opcode
as_opcode_cases m cost c positive =
    let paid : (cost == 0) ≡ false = ground arith in
    elim (consume_gas_lem cost c.gas_meter) [
      | inl (enough, taken) ↦ inl (
        enough,
        rw (as_opcode, paid)
            (bind_ok (on_gas_meter (consume_gas (pos cost))) (λ _. m)
              (ap (λ p. (p.0, record c { gas_meter = p.1 })) taken)),
      )
      | inr (short, refused) ↦ inr (
          rw (as_opcode, paid)
            (bind_err (on_gas_meter (consume_gas (pos cost))) (λ _. m)
              (ap (λ p. (p.0, record c { gas_meter = p.1 })) refused)))
    ]

abbrev pub lifted : {S : Type 0} → Action Computation ⊤ → ℕ → Step S
lifted m cost = on_frame (on_machine (as_opcode m cost))

record Charged (c : Computation) (p : Result ⊤ × Computation) : Type 0 where
  same_start : p.1.gas_meter.start_gas ≡ c.gas_meter.start_gas
  no_more : p.1.gas_meter.gas_remaining ≤ c.gas_meter.gas_remaining
  less : p.0 ≡ ok tt → p.1.gas_meter.gas_remaining < c.gas_meter.gas_remaining

module _ (m : Action Computation ⊤) (cost : ℕ)
    (no_gas : (c : Computation) → (m c).1.gas_meter ≡ c.gas_meter) where
  as_opcode-Charged : (c : Computation) → 0 < cost → Charged c (as_opcode m cost c)
  as_opcode-Charged c positive = elim (as_opcode_cases m cost c positive) [
    | inl (enough, paid) ↦
        let same = no_gas (record c {
          gas_meter = record c.gas_meter { gas_remaining = c.gas_meter.gas_remaining - cost };
        }) in
        let left = ap (λ g. g.gas_remaining) same in
        rw paid (record {
          same_start = ap (λ g. g.start_gas) same;
          no_more = omega (arith, left, enough, positive);
          less = λ _. omega (arith, left, enough, positive);
        })
    | inr refused ↦ rw refused (record { same_start = refl; no_more = omega arith; less = λ h. cc })
  ]

  as_opcode-Keeps : {S : Type 0} → 0 < cost → Keeps {S = S} (lifted m cost)
  as_opcode-Keeps positive msg s (tree f cs) h =
      let c = as_opcode-Charged f.machine positive in
      record {
        same_message = h.same_message;
        started = c.same_start ∙ h.started;
        bounded = omega (arith, c.no_more, h.bounded);
        no_error = h.no_error;
      }

  lifted-spends :
      {S : Type 0}
      → 0 < cost
      → (s : S) (t : Tree) → (lifted m cost (s, t)).0 ≡ ok tt
      → remaining (lifted m cost (s, t)).1.1 < remaining t
  lifted-spends positive s (tree f cs) fine = (as_opcode-Charged f.machine positive).less fine

  -- An opcode with a cost, whose own work leaves the gas meter, takes gas when it returns.
  pub as_opcode-Spends : {S : Type 0} → 0 < cost → Spends {S = S} (lifted m cost)
  as_opcode-Spends positive = record {
    keeps = as_opcode-Keeps positive;
    spends = lifted-spends positive;
  }
