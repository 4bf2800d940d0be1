-- ===== src/Storage/Runs.antt =====
-- Writes to one slot and looks at it in the course of a computation.
use veda_bvm.Common.{if◌then◌else◌, ℕ, suc, ◌*◌, ◌≡◌, ap, sym, subst, refl, inl, inr, ◌∙◌, ◌∷◌}
use veda_bvm.Common.Int.{ℤ, pos, ◌+ℤ◌}
use veda_bvm.Exceptions.{ok, err}
use veda_bvm.Execution.Run.{frame}
use veda_bvm.Execution.{Frame, Tree, tree, Children}
use veda_bvm.External.{EthUtils}
use veda_bvm.Gas.{RefundStrategy, out_of_gas}
use veda_bvm.Message.{storage_address}
use veda_bvm.Stack.{Item, Stack, to_int}
use veda_bvm.Storage.Sums.{nothing, one_more, one_look, moved}
use veda_bvm.Storage.Looks.{sload_lem}
use veda_bvm.Storage.Metered.{Stored, endowment, funds, paid_for, sstore_lem}
use veda_bvm.Storage.{
  ChainStorage, NetSStoreGasSchedule, sstore_eip2929_generic, sload_eip2929, warm_storage_read_cost,
}

module _ {S : Type 0} (storage : ChainStorage S) (schedule : NetSStoreGasSchedule) (slot : ℕ) where
  -- Other steps leave the strategy of refunds and what was paid for the slot, its surcharge included,
  -- and take so much gas, refunds counted.
  pub record Elsewhere (spent : ℤ) (a b : S × Tree) : Type 0 where
    pub same_strategy :
        (frame b.1).machine.gas_meter.refund_strategy
        ≡ (frame a.1).machine.gas_meter.refund_strategy
    pub same_price : paid_for storage schedule slot b ≡ paid_for storage schedule slot a
    pub taken : funds (frame b.1).machine.gas_meter +ℤ spent ≡ funds (frame a.1).machine.gas_meter

  module _ ⦃eth : EthUtils⦄ where
    -- So many writes to the slot, with looks at it and other steps between them that take so much gas.
    pub data Writes (a : S × Tree) : ℕ → ℤ → S × Tree → Type 0 where
      start : Writes a 0 (pos 0) a
      write :
          {n : ℕ} {spent : ℤ} {st : S × Tree} (value : ℕ) (s : S) (f : Frame) (cs : Children)
          (x y : Item) (rest : Stack)
          → Writes a n spent (s, tree f cs)
          → f.machine.stack ≡ x ∷ y ∷ rest
          → to_int x ≡ slot
          → to_int y ≡ value
          → sstore_eip2929_generic storage schedule (s, tree f cs) ≡ (ok slot, st)
          → Writes a (suc n) spent st
      look :
          {n : ℕ} {spent total : ℤ} {st : S × Tree} (s : S) (f : Frame) (cs : Children) (x : Item)
          (rest : Stack)
          → Writes a n spent (s, tree f cs)
          → f.machine.stack ≡ x ∷ rest
          → to_int x ≡ slot
          → sload_eip2929 storage (s, tree f cs) ≡ (ok tt, st)
          → total
            ≡ spent
              +ℤ pos (
                  if storage.is_storage_warm (storage_address f.msg) slot s
                  then warm_storage_read_cost
                  else 0)
          → Writes a n total st
      other :
          {n : ℕ} {spent more total : ℤ} {b c : S × Tree}
          → Writes a n spent b
          → Elsewhere more b c
          → total ≡ spent +ℤ more
          → Writes a n total c

    record Ledger (a : S × Tree) (n : ℕ) (spent : ℤ) (b : S × Tree) : Type 0 where
      strategy :
          (frame b.1).machine.gas_meter.refund_strategy
          ≡ (frame a.1).machine.gas_meter.refund_strategy
      balance :
          endowment storage schedule slot b +ℤ pos (n * schedule.sload_gas) +ℤ spent
          ≡ endowment storage schedule slot a

    -- A write that returned.
    returned :
        (value : ℕ) (s : S) (f : Frame) (cs : Children) (x y : Item) (rest : Stack) (st : S × Tree)
        → f.machine.stack ≡ x ∷ y ∷ rest
        → to_int x ≡ slot
        → to_int y ≡ value
        → f.machine.gas_meter.refund_strategy ≡ RefundStrategy.allow_negative
        → sstore_eip2929_generic storage schedule (s, tree f cs) ≡ (ok slot, st)
        → Stored storage schedule slot value s f cs st
    returned value s f cs x y rest st shape first second free ran =
        elim (sstore_lem storage schedule slot value s f cs x y rest shape first second free) [
          | inl (_, (left, done, stored)) ↦
              subst (Stored storage schedule slot value s f cs) (ap (λ p. p.1) (sym done ∙ ran))
                stored
          | inr (inl (_, failed)) ↦
              let clash : ok slot ≡ err out_of_gas = sym (ap (λ p. p.0) ran) ∙ failed in cc
          | inr (inr (e, _, failed)) ↦
              let clash : ok slot ≡ err e = sym (ap (λ p. p.0) ran) ∙ failed in cc
        ]

    ledger :
        (a : S × Tree) {n : ℕ} {spent : ℤ} {b : S × Tree}
        → (frame a.1).machine.gas_meter.refund_strategy ≡ RefundStrategy.allow_negative
        → Writes a n spent b
        → Ledger a n spent b
    ledger a free start = record {
      strategy = refl;
      balance = nothing (endowment storage schedule slot a) schedule.sload_gas;
    }
    ledger a {n = suc n} {spent} {b} free
          (write value s f cs x y rest before shape first second ran) =
        let past = ledger a free before in
        let stored =
          returned value s f cs x y rest b shape first second (past.strategy ∙ free) ran in
        record {
          strategy = stored.same_strategy ∙ past.strategy;
          balance =
              one_more (endowment storage schedule slot b)
                (endowment storage schedule slot (s, tree f cs)) (endowment storage schedule slot a)
                spent n schedule.sload_gas stored.metered past.balance;
        }
    ledger a {n} {spent} {b} free (look {spent = old} s f cs x rest before shape first ran total) =
        let past = ledger a free before in
        let looked = sload_lem storage slot schedule s f cs x rest b shape first ran in
        record {
          strategy = looked.same_strategy ∙ past.strategy;
          balance = rw total (
              one_look (endowment storage schedule slot b)
                (endowment storage schedule slot (s, tree f cs)) (endowment storage schedule slot a)
                old (n * schedule.sload_gas)
                (if storage.is_storage_warm (storage_address f.msg) slot s
                  then warm_storage_read_cost
                  else 0)
                looked.metered past.balance);
        }
    ledger a {n} {spent} {b} free (other {spent = old} {more} {b = m} before step total) =
        let past = ledger a free before in
        record {
          strategy = step.same_strategy ∙ past.strategy;
          balance =
              rw (total, step.same_price)
                (moved (funds (frame b.1).machine.gas_meter) (funds (frame m.1).machine.gas_meter)
                  (paid_for storage schedule slot m) (endowment storage schedule slot a) old more
                  (n * schedule.sload_gas) step.taken past.balance);
        }

    -- For refunds that may fall below zero, and whatever the words in between, writes to a slot take
    -- from the gas, refunds counted, the price of a look at the slot each, and together what is paid for
    -- the word that the slot ends with, less what was paid for the word that it began with, the
    -- surcharge of a cold slot included. Between the writes there may be looks at the slot, which are
    -- counted as a look at a warm slot or as nothing but that surcharge, and other steps, counted by
    -- what they take, that change neither the strategy of refunds nor what was paid for the slot, its
    -- surcharge included.
    pub writes_lem :
        (a : S × Tree) (n : ℕ) (spent : ℤ) (b : S × Tree)
        → (frame a.1).machine.gas_meter.refund_strategy ≡ RefundStrategy.allow_negative
        → Writes a n spent b
        → funds (frame b.1).machine.gas_meter
            +ℤ paid_for storage schedule slot b
            +ℤ pos (n * schedule.sload_gas)
            +ℤ spent
          ≡ funds (frame a.1).machine.gas_meter +ℤ paid_for storage schedule slot a
    writes_lem a n spent b free ws = (ledger a free ws).balance
