-- ===== src/Storage/Metered.antt =====
-- What a run of writes to one slot takes from the gas, refunds counted.
use veda_bvm.Common.{
  ℕ, ◌+◌, ◌-◌, ◌≤◌, ◌<◌, ◌≡◌, refl, sym, ap, ◌∙◌, ◌⊎◌, inl, inr, arith, ◌∷◌, Bool-cases, true,
  false, leb, ltb, ◌&&◌, Bool, if◌then◌else◌, ⊤,
}
use veda_bvm.Common.Int.{ℤ, pos, ◌+ℤ◌, int_laws}
use veda_bvm.Exceptions.{Exception, Result, ok, err, bind_ok, bind_err, pure, ◌>>◌}
use veda_bvm.Execution.Run.{frame}
use veda_bvm.Execution.{Frame, Tree, tree, Children}
use veda_bvm.External.{EthUtils}
use veda_bvm.Gas.Account.{consume_gas_lem}
use veda_bvm.Gas.{GasMeter, RefundStrategy, out_of_gas}
use veda_bvm.Message.{Address, storage_address}
use veda_bvm.Stack.{Item, Stack, pop_ints, to_int}
use veda_bvm.Storage.Effect.{metered, with_meter, write_price, written, pay_and_store_lem}
use veda_bvm.Storage.Price.{price, net_gas-price}
use veda_bvm.Storage.Sums.{spent, with_surcharge, less_surcharge}
use veda_bvm.Storage.{
  ChainStorage, NetSStoreGasSchedule, pay_and_store, net_sstore, mark_storage_warm, charge_cold,
  load_slot, mark_if_cold, sstore_eip2200_generic, sstore_eip2929_generic, cold_sload_cost,
}

-- The gas that is left, with the refunds so far.
abbrev pub funds : GasMeter → ℤ
funds m = pos m.gas_remaining +ℤ m.gas_refunded

-- A price that is paid leaves less by it, and more by its refund.
metered-funds :
    (cost : ℕ) (gas_refund : ℤ) (m : GasMeter)
    → cost ≤ m.gas_remaining
    → funds (metered (cost, gas_refund) m) +ℤ pos cost ≡ funds m +ℤ gas_refund
metered-funds cost gas_refund m enough = omega int_laws

module _ {S : Type 0} (storage : ChainStorage S) (schedule : NetSStoreGasSchedule) (slot : ℕ) where
  -- What was paid for the word that the slot holds, with the surcharge of its first use.
  unfoldable pub paid_for : S × Tree → ℤ
  paid_for (s, t) =
      let address = storage_address (frame t).msg in
      let surcharge : ℤ =
        if storage.is_storage_warm address slot s then pos cold_sload_cost else pos 0 in
      price schedule (storage.original_storage address slot s) (storage.get_storage address slot s)
      +ℤ surcharge

  -- What a computation had and has spent on the slot.
  abbrev pub endowment : S × Tree → ℤ
  endowment st = funds (frame st.1).machine.gas_meter +ℤ paid_for st

  -- A word was stored: the computation had the same before, but for the price of a look at the slot.
  pub record Stored (value : ℕ) (s : S) (f : Frame) (cs : Children) (st : S × Tree) : Type 0 where
    pub same_message : (frame st.1).msg ≡ f.msg
    pub same_strategy :
        (frame st.1).machine.gas_meter.refund_strategy ≡ f.machine.gas_meter.refund_strategy
    pub word : storage.get_storage (storage_address f.msg) slot st.0 ≡ value
    pub metered : endowment st +ℤ pos schedule.sload_gas ≡ endowment (s, tree f cs)

  pub marked :
      (s : S) (f : Frame) (cs : Children) {b : Bool}
      → storage.is_storage_warm (storage_address f.msg) slot s ≡ b
      → mark_storage_warm storage slot (s, tree f cs)
        ≡ mark_if_cold storage b (storage_address f.msg) slot (s, tree f cs)
  unfolding mark_storage_warm
  marked s f cs h = ap (λ b. mark_if_cold storage b (storage_address f.msg) slot (s, tree f cs)) h

  load_slot_cases :
      (s : S) (f : Frame) (cs : Children)
      → ((storage.is_storage_warm (storage_address f.msg) slot s ≡ true)
          × (load_slot storage slot (s, tree f cs) ≡ (ok slot, (s, tree f cs))))
        ⊎ (((storage.is_storage_warm (storage_address f.msg) slot s ≡ false)
              × (cold_sload_cost ≤ f.machine.gas_meter.gas_remaining)
              × (load_slot storage slot (s, tree f cs) ≡ (
                ok slot,
                (
                  storage.mark_storage_warm (storage_address f.msg) slot s,
                  tree
                      (with_meter f (record f.machine.gas_meter {
                        gas_remaining = f.machine.gas_meter.gas_remaining - cold_sload_cost;
                      }))
                      cs,
                ),
              )))
            ⊎ ((storage.is_storage_warm (storage_address f.msg) slot s ≡ false)
                × (f.machine.gas_meter.gas_remaining < cold_sload_cost)
                × ((load_slot storage slot (s, tree f cs)).0 ≡ err out_of_gas)))
  unfolding load_slot charge_cold mark_if_cold
  load_slot_cases s f cs =
      let then_charge = λ (b : Bool). charge_cold storage b >> pure slot in
      elim (Bool-cases (storage.is_storage_warm (storage_address f.msg) slot s)) [
        | inl warm ↦ inl (
          warm,
          bind_ok (mark_storage_warm storage slot) then_charge {s = (s, tree f cs)}
              (marked s f cs warm),
        )
        | inr cold ↦
            let charging =
              bind_ok (mark_storage_warm storage slot) then_charge {s = (s, tree f cs)}
                (marked s f cs cold) in
            elim (consume_gas_lem cold_sload_cost f.machine.gas_meter) [
              | inl (enough, taken) ↦ inr (inl (cold, enough, charging ∙ ground (arith, taken)))
              | inr (short, refused) ↦
                  inr (inr (cold, short, ap (λ p. p.0) charging ∙ ground (arith, refused)))
            ]
      ]

  module _ ⦃eth : EthUtils⦄ where
    net_sstore_step :
        (value : ℕ) (s : S) (f : Frame) (cs : Children) (x y : Item) (rest : Stack)
        → f.machine.stack ≡ x ∷ y ∷ rest
        → to_int x ≡ slot
        → to_int y ≡ value
        → net_sstore storage schedule (s, tree f cs)
          ≡ pay_and_store storage schedule
              (slot, value)
              (s, tree (record f { machine = record f.machine { stack = rest } }) cs)
    unfolding net_sstore pop_ints
    net_sstore_step value s f cs x y rest shape hx hy = ground arith

    -- The opcode's function, once the stack has the slot and the word.
    module _ (value : ℕ) (s : S) (f : Frame) (cs : Children) (x y : Item) (rest : Stack)
        (shape : f.machine.stack ≡ x ∷ y ∷ rest) (first : to_int x ≡ slot)
        (second : to_int y ≡ value)
        (free : f.machine.gas_meter.refund_strategy ≡ RefundStrategy.allow_negative) where
      abbrev popped : Frame
      popped = record f { machine = record f.machine { stack = rest } }

      abbrev cost : ℕ × ℤ
      cost = write_price storage schedule slot value s popped cs

      abbrev charged : Frame
      charged = with_meter popped (metered cost f.machine.gas_meter)

      abbrev stored : S
      stored = written storage schedule slot value s popped cs

      abbrev address : Address
      address = storage_address f.msg

      abbrev taking : Result ⊤
      taking = (storage.set_storage address slot value s).0

      abbrev TookWord : Type 0
      TookWord = taking ≡ ok tt

      abbrev warm_before : Bool
      warm_before = storage.is_storage_warm address slot s

      abbrev price_before : ℤ
      price_before =
          price schedule (storage.original_storage address slot s)
            (storage.get_storage address slot s)

      abbrev price_after : ℤ
      price_after =
          price schedule (storage.original_storage address slot stored)
            (storage.get_storage address slot stored)

      -- What the meter and the word's price come to, before the surcharge is counted.
      paid :
          TookWord
          → cost.0 ≤ f.machine.gas_meter.gas_remaining
          → funds (metered cost f.machine.gas_meter)
              +ℤ price schedule
                  (storage.original_storage address slot stored)
                  (storage.get_storage address slot stored)
              +ℤ pos schedule.sload_gas
            ≡ funds f.machine.gas_meter
              +ℤ price schedule
                  (storage.original_storage address slot s)
                  (storage.get_storage address slot s)
      paid took enough =
          rw
            (
              storage.get-set address slot value s took,
              storage.original-set address slot value s took,
            )
            (spent (funds f.machine.gas_meter) (funds (metered cost f.machine.gas_meter))
              price_before (price schedule (storage.original_storage address slot s) value)
              schedule.sload_gas cost.0 cost.1
              (net_gas-price schedule (storage.original_storage address slot s)
                (storage.get_storage address slot s) value)
              (metered-funds cost.0 cost.1 f.machine.gas_meter enough))

      warm_stored :
          TookWord
          → warm_before ≡ true
          → cost.0 ≤ f.machine.gas_meter.gas_remaining
          → Stored value s f cs (stored, tree charged cs)
      unfolding paid_for
      warm_stored took warm enough = record {
        same_message = refl;
        same_strategy = refl;
        word = storage.get-set address slot value s took;
        metered =
            rw (storage.warm-set address slot value s took, warm)
              (with_surcharge (funds f.machine.gas_meter) (funds charged.machine.gas_meter)
                price_before price_after schedule.sload_gas (pos cold_sload_cost)
                (paid took enough));
      }

      abbrev loaded : S
      loaded = storage.mark_storage_warm address slot stored

      cold_stored :
          TookWord
          → warm_before ≡ false
          → cost.0 ≤ f.machine.gas_meter.gas_remaining
          → cold_sload_cost ≤ charged.machine.gas_meter.gas_remaining
          → Stored value s f cs (
            loaded,
            tree
                (with_meter charged (record charged.machine.gas_meter {
                  gas_remaining = charged.machine.gas_meter.gas_remaining - cold_sload_cost;
                }))
                cs,
          )
      unfolding paid_for
      cold_stored took cold enough more = record {
        same_message = refl;
        same_strategy = refl;
        word = storage.get-mark address slot stored ∙ storage.get-set address slot value s took;
        metered =
            rw
              (
                storage.warm-mark address slot stored,
                cold,
                storage.get-mark address slot stored,
                storage.original-mark address slot stored,
              )
              (less_surcharge (funds f.machine.gas_meter) price_before price_after
                charged.machine.gas_meter.gas_refunded schedule.sload_gas
                charged.machine.gas_meter.gas_remaining cold_sload_cost more (paid took enough));
      }

      before :
          {b : Bool} → TookWord → storage.is_storage_warm address slot stored ≡ b → warm_before ≡ b
      before took h = sym (storage.warm-set address slot value s took) ∙ h

      guard_lem :
          {b : Bool}
          → leb f.machine.gas_meter.gas_remaining 2300 ≡ b
          → sstore_eip2200_generic storage schedule (s, tree f cs) ≡ (
              if b
              then (err out_of_gas, (s, tree f cs))
              else net_sstore storage schedule (s, tree f cs))
      unfolding sstore_eip2200_generic
      guard_lem h =
          ap
            (λ b.
              if b
              then (err out_of_gas, (s, tree f cs))
              else net_sstore storage schedule (s, tree f cs))
            h

      after_store :
          {st : S × Tree}
          → sstore_eip2200_generic storage schedule (s, tree f cs) ≡ (ok slot, st)
          → sstore_eip2929_generic storage schedule (s, tree f cs) ≡ load_slot storage slot st
      unfolding sstore_eip2929_generic
      after_store =
          bind_ok (sstore_eip2200_generic storage schedule) (load_slot storage) {s = (s, tree f cs)}

      after_error :
          {e : Exception} {st : S × Tree}
          → sstore_eip2200_generic storage schedule (s, tree f cs) ≡ (err e, st)
          → sstore_eip2929_generic storage schedule (s, tree f cs) ≡ (err e, st)
      unfolding sstore_eip2929_generic
      after_error =
          bind_err (sstore_eip2200_generic storage schedule) (load_slot storage)
            {s = (s, tree f cs)}

      -- More gas is left than the stipend of a call, and enough for the price and for a cold slot.
      abbrev pub has_gas : Bool
      has_gas =
          ltb 2300 f.machine.gas_meter.gas_remaining
          && leb (cost.0 + (if warm_before then 0 else cold_sload_cost))
              f.machine.gas_meter.gas_remaining

      -- With gas for it the word is stored, and otherwise the opcode fails for want of gas, or where the
      -- storage raises.
      pub sstore_lem :
          ((has_gas ≡ true)
            × ((st : S × Tree) × (sstore_eip2929_generic storage schedule (s, tree f cs)
                  ≡ (ok slot, st))
                × Stored value s f cs st))
          ⊎ (((has_gas ≡ false)
                × ((sstore_eip2929_generic storage schedule (s, tree f cs)).0 ≡ err out_of_gas))
              ⊎ ((e : Exception) × (taking ≡ err e)
                  × ((sstore_eip2929_generic storage schedule (s, tree f cs)).0 ≡ err e)))
      sstore_lem = elim (Bool-cases (leb f.machine.gas_meter.gas_remaining 2300)) [
        | inl low ↦
            inr (
              inl (ground arith, ap (λ p. p.0) (after_error {st = (s, tree f cs)} (guard_lem low))))
        | inr high ↦
            let popping : sstore_eip2200_generic storage schedule (s, tree f cs)
                ≡ pay_and_store storage schedule (slot, value) (s, tree popped cs) =
              guard_lem high ∙ net_sstore_step value s f cs x y rest shape first second in
            elim (pay_and_store_lem storage schedule slot value s popped cs free) [
              | inr (inl (short, refused)) ↦
                  inr (inl (ground arith, ap (λ p. p.0) (after_error (popping ∙ refused))))
              | inr (inr (e, raised, refused)) ↦
                  inr (inr (e, raised, ap (λ p. p.0) (after_error (popping ∙ refused))))
              | inl (enough, took, ran) ↦ elim (load_slot_cases stored charged cs) [
                | inl (warm, done) ↦ inl (
                  rw (before took warm) (ground arith),
                  (
                    _,
                    after_store (popping ∙ ran) ∙ done,
                    warm_stored took (before took warm) enough,
                  ),
                )
                | inr (inl (cold, more, done)) ↦ inl (
                  rw (before took cold) (ground arith),
                  (
                    _,
                    after_store (popping ∙ ran) ∙ done,
                    cold_stored took (before took cold) enough more,
                  ),
                )
                | inr (inr (cold, short, refused)) ↦ inr (
                    inl (
                      rw (before took cold) (ground arith),
                      ap (λ p. p.0) (after_store (popping ∙ ran)) ∙ refused,
                    ))
              ]
            ]
      ]
