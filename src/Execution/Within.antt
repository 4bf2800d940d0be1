-- ===== src/Execution/Within.antt =====
-- Calls that give a computation at most so much gas.
use veda_bvm.Common.{ℕ, ◌+◌, ◌≤◌, ◌<◌, ◌≡◌, refl, ap, inl, inr, ◌⊎◌, ◌∙◌, ⊤, arith}
use veda_bvm.Common.Int.{pos}
use veda_bvm.Computation.{Computation, on_stack, on_memory, on_gas_meter, extend_memory}
use veda_bvm.Exceptions.{Result, ok, err, Action, ◌>>=◌, ◌>>◌, bind_ok, bind_err, lift, gets, pure}
use veda_bvm.Execution.Ends.{Spends, remaining}
use veda_bvm.Execution.Run.{Step, frame, on_computation}
use veda_bvm.Execution.{Tree, tree}
use veda_bvm.Gas.Account.{consume_gas_lem}
use veda_bvm.Gas.{consume_gas, return_gas, out_of_gas}
use veda_bvm.Memory.{Memory}
use veda_bvm.Stack.{Stack}

-- The computation stays the one of its message, without an error.
pub record Grown (extra : ℕ) (t u : Tree) : Type 0 where
  pub same_message : (frame u).msg ≡ (frame t).msg
  pub same_error : (frame u).raised ≡ (frame t).raised
  pub same_start : (frame u).machine.gas_meter.start_gas ≡ (frame t).machine.gas_meter.start_gas
  pub bounded : remaining u ≤ remaining t + extra

Grown-trans : {j k : ℕ} {t u v : Tree} → Grown j t u → Grown k u v → Grown (j + k) t v
Grown-trans g h = record {
  same_message = h.same_message ∙ g.same_message;
  same_error = h.same_error ∙ g.same_error;
  same_start = h.same_start ∙ g.same_start;
  bounded = omega (arith, g.bounded, h.bounded);
}

Grown-weaken : {j k : ℕ} {t u : Tree} → j ≤ k → Grown j t u → Grown k t u
Grown-weaken le g = record {
  same_message = g.same_message;
  same_error = g.same_error;
  same_start = g.same_start;
  bounded = omega (arith, g.bounded, le);
}

module _ {S : Type 0} where
  module _ {A : Type 0} where
    abbrev pub Within : ℕ → Action (S × Tree) A → Type 0
    Within extra m = (s : S) (t : Tree) → Grown extra t (m (s, t)).1.1

    -- It gives no gas, and takes some if it returns.
    pub record Strict (m : Action (S × Tree) A) : Type 0 where
      pub within : Within 0 m
      pub less :
          (s : S) (t : Tree) (a : A) → (m (s, t)).0 ≡ ok a → remaining (m (s, t)).1.1 < remaining t

    pub pure-Within : (a : A) → Within 0 (pure a)
    pure-Within a s t = record {
      same_message = refl;
      same_error = refl;
      same_start = refl;
      bounded = omega arith;
    }

    pub weaken-Within : (m : Action (S × Tree) A) {j k : ℕ} → j ≤ k → Within j m → Within k m
    weaken-Within m le h s t = Grown-weaken le (h s t)

    pub lift-Within : (r : Result A) → Within 0 (lift r)
    lift-Within r s t = record {
      same_message = refl;
      same_error = refl;
      same_start = refl;
      bounded = omega arith;
    }

  -- A call that changes nothing.
  pub reads-Within :
      {A : Type 0} (r : S × Tree → Result A) → Within 0 (λ (st : S × Tree). (r st, st))
  reads-Within r s t = record {
    same_message = refl;
    same_error = refl;
    same_start = refl;
    bounded = omega arith;
  }

  module _ {A B : Type 0} (m : Action (S × Tree) A) (f : A → Action (S × Tree) B) where
    -- What follows may rely on its argument being a result of the first part.
    pub known-Within :
        {j k l : ℕ}
        → j + k ≤ l
        → Within j m
        → ((s : S) (t : Tree) (a : A) → (m (s, t)).0 ≡ ok a → Within k (f a))
        → Within l (m >>= f)
    known-Within {j} {k} {l} le h next s t = go (m (s, t)) (h s t) (next s t)
      where
        go :
            (p : Result A × (S × Tree))
            → Grown j t p.1.1
            → ((a : A) → p.0 ≡ ok a → Within k (f a))
            → Grown l t
                (elim p.0 as (λ r. Result B × (S × Tree)) [
                  | ok a ↦ f a p.1
                  | err e ↦ (err e, p.1)
                ]).1.1
        go (ok a, st) g later = Grown-weaken le (Grown-trans g (later a refl st.0 st.1))
        go (err e, st) g later = Grown-weaken (omega arith) g

    pub bind-Within :
        {j k l : ℕ} → j + k ≤ l → Within j m → ((a : A) → Within k (f a)) → Within l (m >>= f)
    bind-Within le h next = known-Within le h (λ s t a _. next a)

    -- Where both parts give nothing.
    pub then-Within : Within 0 m → ((a : A) → Within 0 (f a)) → Within 0 (m >>= f)
    then-Within h next = bind-Within (omega arith) h next

    -- A part that takes gas, before or after one that gives none.
    pub Strict-then : Strict m → ((a : A) → Within 0 (f a)) → Strict (m >>= f)
    Strict-then h next = record {
      within = then-Within h.within next;
      less = λ s t b. go t (m (s, t)) (h.less s t);
    }
      where
        go :
            (t : Tree) (p : Result A × (S × Tree)) {b : B}
            → ((a : A) → p.0 ≡ ok a → remaining p.1.1 < remaining t)
            → (elim p.0 as (λ r. Result B × (S × Tree)) [ ok a ↦ f a p.1 | err e ↦ (err e, p.1) ]).0
              ≡ ok b
            → remaining
                (elim p.0 as (λ r. Result B × (S × Tree)) [
                  | ok a ↦ f a p.1
                  | err e ↦ (err e, p.1)
                ]).1.1
              < remaining t
        go t (ok a, st) less h = omega (arith, less a refl, (next a st.0 st.1).bounded)
        go t (err e, st) less h = cc

    pub known-Strict :
        Within 0 m
        → ((s : S) (t : Tree) (a : A) → (m (s, t)).0 ≡ ok a → Strict (f a))
        → Strict (m >>= f)
    known-Strict h next = record {
      within = known-Within {j = 0} {k = 0} (omega arith) h (λ s t a ran. (next s t a ran).within);
      less = λ s t b. go t (m (s, t)) (h s t) (next s t);
    }
      where
        go :
            (t : Tree) (p : Result A × (S × Tree)) {b : B}
            → Grown 0 t p.1.1
            → ((a : A) → p.0 ≡ ok a → Strict (f a))
            → (elim p.0 as (λ r. Result B × (S × Tree)) [ ok a ↦ f a p.1 | err e ↦ (err e, p.1) ]).0
              ≡ ok b
            → remaining
                (elim p.0 as (λ r. Result B × (S × Tree)) [
                  | ok a ↦ f a p.1
                  | err e ↦ (err e, p.1)
                ]).1.1
              < remaining t
        go t (ok a, st) {b} g later h = omega (arith, (later a refl).less st.0 st.1 b h, g.bounded)
        go t (err e, st) g later h = cc

    pub then-Strict : Within 0 m → ((a : A) → Strict (f a)) → Strict (m >>= f)
    then-Strict h next = known-Strict h (λ s t a _. next a)

-- What holds of a call on the machine holds of it on the computation.
record Kept (extra : ℕ) (c d : Computation) : Type 0 where
  pub start : d.gas_meter.start_gas ≡ c.gas_meter.start_gas
  pub left : d.gas_meter.gas_remaining ≤ c.gas_meter.gas_remaining + extra

module _ {S A : Type 0} where
  on_computation-Within :
      {extra : ℕ} (m : Action Computation A)
      → ((c : Computation) → Kept extra c (m c).1)
      → Within {S = S} extra (on_computation m)
  on_computation-Within m h s (tree f cs) = record {
    same_message = refl;
    same_error = refl;
    same_start = (h f.machine).start;
    bounded = (h f.machine).left;
  }

  pub on_stack-Within : (m : Action Stack A) → Within {S = S} 0 (on_computation (on_stack m))
  on_stack-Within m =
      on_computation-Within (on_stack m) (λ c. record { start = refl; left = omega arith })

  pub gets-Within : (g : Computation → A) → Within {S = S} 0 (on_computation (gets g))
  gets-Within g = on_computation-Within (gets g) (λ c. record { start = refl; left = omega arith })

  pub on_memory-Within : (m : Action Memory A) → Within {S = S} 0 (on_computation (on_memory m))
  on_memory-Within m =
      on_computation-Within (on_memory m) (λ c. record { start = refl; left = omega arith })

extend_memory-Kept : (start size : ℕ) (c : Computation) → Kept 0 c (extend_memory start size c).1
unfolding extend_memory consume_gas
extend_memory-Kept start size c = record { start = ground arith; left = ground arith }

module _ {S : Type 0} where
  pub extend_memory-Within :
      (start size : ℕ) → Within {S = S} 0 (on_computation (extend_memory start size))
  extend_memory-Within start size =
      on_computation-Within (extend_memory start size) (extend_memory-Kept start size)

  pub return_gas-Within :
      (n : ℕ) → Within {S = S} n (on_computation (on_gas_meter (return_gas (pos n))))
  unfolding return_gas
  return_gas-Within n =
      on_computation-Within (on_gas_meter (return_gas (pos n)))
        (λ c. record { start = refl; left = omega arith })

  pub consume_gas-Within :
      (n : ℕ) → Within {S = S} 0 (on_computation (on_gas_meter (consume_gas (pos n))))
  consume_gas-Within n = on_computation-Within (on_gas_meter (consume_gas (pos n))) kept
    where
      kept : (c : Computation) → Kept 0 c (on_gas_meter (consume_gas (pos n)) c).1
      kept c = elim (consume_gas_lem n c.gas_meter) [
        | inl (_, taken) ↦ rw taken (record { start = refl; left = omega arith })
        | inr (_, refused) ↦ rw refused (record { start = refl; left = omega arith })
      ]

  -- A price that is paid before so much gas comes back.
  module _ {B : Type 0} (n k : ℕ) (rest : Action (S × Tree) B) where
    paid_cases :
        (s : S) (t : Tree)
        → ((u : Tree) × (remaining u + n ≡ remaining t)
            × Grown 0 t u
            × ((on_computation (on_gas_meter (consume_gas (pos n))) >> rest) (s, t) ≡ rest (s, u)))
          ⊎ ((on_computation (on_gas_meter (consume_gas (pos n))) >> rest) (s, t)
              ≡ (err out_of_gas, (s, t)))
    paid_cases s (tree f cs) =
        let pay : Action (S × Tree) ⊤ = on_computation (on_gas_meter (consume_gas (pos n))) in
        elim (consume_gas_lem n f.machine.gas_meter) [
          | inl (enough, taken) ↦ inl (
            _,
            omega arith,
            record {
              same_message = refl;
              same_error = refl;
              same_start = refl;
              bounded = omega arith;
            },
            bind_ok pay (λ _. rest) {s = (s, tree f cs)}
                (ap
                  (λ p. (
                    p.0,
                    (s, tree (record f { machine = record f.machine { gas_meter = p.1 } }) cs),
                  ))
                  taken),
          )
          | inr (_, refused) ↦ inr (
              bind_err pay (λ _. rest) {s = (s, tree f cs)}
                (ap
                  (λ p. (
                    p.0,
                    (s, tree (record f { machine = record f.machine { gas_meter = p.1 } }) cs),
                  ))
                  refused))
        ]

    pub pay-Within :
        k ≤ n
        → Within k rest
        → Within 0 (on_computation (on_gas_meter (consume_gas (pos n))) >> rest)
    pay-Within le h s t = elim (paid_cases s t) [
      | inl (u, paid, g, ran) ↦
          let later = h s u in
          rw ran (record {
            same_message = later.same_message ∙ g.same_message;
            same_error = later.same_error ∙ g.same_error;
            same_start = later.same_start ∙ g.same_start;
            bounded = omega (arith, later.bounded, paid, le);
          })
      | inr refused ↦ rw refused (record {
        same_message = refl;
        same_error = refl;
        same_start = refl;
        bounded = omega arith;
      })
    ]

    pub pay-Strict :
        k < n → Within k rest → Strict (on_computation (on_gas_meter (consume_gas (pos n))) >> rest)
    pay-Strict lt h = record {
      within = pay-Within (omega arith) h;
      less = λ s t b. elim (paid_cases s t) [
        | inl (u, paid, g, ran) ↦ rw ran (λ _. omega (arith, (h s u).bounded, paid, lt))
        | inr refused ↦ rw refused (λ e. cc)
      ];
    }

  pub Strict-Spends : (m : Step S) → Strict m → Spends m
  Strict-Spends m h = record {
    keeps = λ msg s t u.
        let g = h.within s t in
        record {
          same_message = g.same_message ∙ u.same_message;
          started = g.same_start ∙ u.started;
          bounded = omega (arith, g.bounded, u.bounded);
          no_error = g.same_error ∙ u.no_error;
        };
    spends = λ s t. h.less s t tt;
  }
