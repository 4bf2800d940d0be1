-- ===== src/Storage/Looks.antt =====
-- What a look at a slot takes from the gas.
use veda_bvm.Common.{
  ℕ, ◌-◌, ◌≤◌, ◌≡◌, refl, sym, ap, subst, ◌∙◌, ◌⊎◌, inl, inr, arith, ◌∷◌, Bool-cases, true, false,
  Bool, if◌then◌else◌, ⊤,
}
use veda_bvm.Common.Int.{pos, ◌+ℤ◌}
use veda_bvm.Exceptions.{Result, ok, err, bind_ok}
use veda_bvm.Execution.Run.{frame}
use veda_bvm.Execution.{Frame, Tree, tree, Children}
use veda_bvm.External.{EthUtils}
use veda_bvm.Gas.Account.{consume_gas_lem}
use veda_bvm.Gas.{out_of_gas}
use veda_bvm.Message.{storage_address}
use veda_bvm.Stack.{Item, Stack, pop1_int, to_int, push_int}
use veda_bvm.Storage.Metered.{paid_for, endowment, marked}
use veda_bvm.Storage.Price.{price}
use veda_bvm.Storage.Sums.{paid_price, paid_surcharge}
use veda_bvm.Storage.{
  ChainStorage, NetSStoreGasSchedule, mark_if_cold, mark_storage_warm, pay_and_push, read_word,
  sload_slot, sload_eip2929, cold_sload_cost, warm_storage_read_cost,
}

abbrev read_cost : Bool → ℕ
read_cost was_cold = if was_cold then cold_sload_cost else warm_storage_read_cost

abbrev after_read : Frame → ℕ → Stack → Frame
after_read f cost stack = record f {
  machine = record f.machine {
    stack = stack;
    gas_meter = record f.machine.gas_meter {
      gas_remaining = f.machine.gas_meter.gas_remaining - cost;
    };
  };
}

module _ {S : Type 0} (storage : ChainStorage S) (slot : ℕ) where
  pay_and_push_lem :
      (was_cold : Bool) (s : S) (f : Frame) (cs : Children)
      → ((read_cost was_cold ≤ f.machine.gas_meter.gas_remaining)
          × ((r : Result ⊤) × (stack : Stack) × (pay_and_push storage slot was_cold (s, tree f cs)
                ≡ (r, (s, tree (after_read f (read_cost was_cold) stack) cs)))))
        ⊎ ((pay_and_push storage slot was_cold (s, tree f cs)).0 ≡ err out_of_gas)
  unfolding pay_and_push read_word
  pay_and_push_lem was_cold s f cs =
      elim (consume_gas_lem (read_cost was_cold) f.machine.gas_meter) [
        | inl (enough, taken) ↦
            let pushed =
              push_int (pos (storage.get_storage (storage_address f.msg) slot s)) f.machine.stack in
            inl (enough, (pushed.0, pushed.1, ground (arith, taken)))
        | inr (short, refused) ↦ inr (ground (arith, refused))
      ]

  module _ (schedule : NetSStoreGasSchedule) where
    -- A look takes the price of a warm word, or else pays the surcharge of a cold slot.
    pub record Looked (s : S) (f : Frame) (cs : Children) (st : S × Tree) : Type 0 where
      pub same_strategy :
          (frame st.1).machine.gas_meter.refund_strategy ≡ f.machine.gas_meter.refund_strategy
      pub metered :
          endowment storage schedule slot st
            +ℤ pos (
                if storage.is_storage_warm (storage_address f.msg) slot s
                then warm_storage_read_cost
                else 0)
          ≡ endowment storage schedule slot (s, tree f cs)

    warm_look :
        (s : S) (f : Frame) (cs : Children) (stack : Stack)
        → storage.is_storage_warm (storage_address f.msg) slot s ≡ true
        → warm_storage_read_cost ≤ f.machine.gas_meter.gas_remaining
        → Looked s f cs (s, tree (after_read f warm_storage_read_cost stack) cs)
    unfolding paid_for
    warm_look s f cs stack warm enough = record {
      same_strategy = refl;
      metered = rw warm (
          paid_price f.machine.gas_meter.gas_refunded
            (price schedule (storage.original_storage (storage_address f.msg) slot s)
                (storage.get_storage (storage_address f.msg) slot s)
              +ℤ pos cold_sload_cost)
            f.machine.gas_meter.gas_remaining warm_storage_read_cost enough);
    }

    cold_look :
        (s : S) (f : Frame) (cs : Children) (stack : Stack)
        → storage.is_storage_warm (storage_address f.msg) slot s ≡ false
        → cold_sload_cost ≤ f.machine.gas_meter.gas_remaining
        → Looked s f cs (
          storage.mark_storage_warm (storage_address f.msg) slot s,
          tree (after_read f cold_sload_cost stack) cs,
        )
    unfolding paid_for
    cold_look s f cs stack cold enough =
        let address = storage_address f.msg in
        record {
          same_strategy = refl;
          metered =
              rw
                (
                  storage.warm-mark address slot s,
                  cold,
                  storage.get-mark address slot s,
                  storage.original-mark address slot s,
                )
                (paid_surcharge f.machine.gas_meter.gas_refunded
                  (price schedule (storage.original_storage address slot s)
                    (storage.get_storage address slot s))
                  f.machine.gas_meter.gas_remaining cold_sload_cost enough);
        }

    marking :
        (s : S) (f : Frame) (cs : Children) (warm : Bool)
        → storage.is_storage_warm (storage_address f.msg) slot s ≡ warm
        → {was_cold : Bool} {s' : S}
        → mark_if_cold storage warm (storage_address f.msg) slot (s, tree f cs)
          ≡ (ok was_cold, (s', tree f cs))
        → sload_slot storage slot (s, tree f cs)
          ≡ pay_and_push storage slot was_cold (s', tree f cs)
    unfolding sload_slot
    marking s f cs warm h e =
        bind_ok (mark_storage_warm storage slot) (pay_and_push storage slot) {s = (s, tree f cs)}
          (marked storage schedule slot s f cs h ∙ e)

    -- A look that returned.
    sload_slot-Looked :
        (s : S) (f : Frame) (cs : Children) (st : S × Tree)
        → sload_slot storage slot (s, tree f cs) ≡ (ok tt, st)
        → Looked s f cs st
    unfolding mark_if_cold
    sload_slot-Looked s f cs st ran =
        let address = storage_address f.msg in
        let loaded = storage.mark_storage_warm address slot s in
        elim (Bool-cases (storage.is_storage_warm address slot s)) [
          | inl warm ↦
              let run = marking s f cs true warm refl in
              elim (pay_and_push_lem false s f cs) [
                | inl (enough, (r, stack, done)) ↦
                    subst (Looked s f cs) (ap (λ p. p.1) (sym done ∙ sym run ∙ ran))
                      (warm_look s f cs stack warm enough)
                | inr failed ↦
                    let clash : ok tt ≡ err out_of_gas =
                      sym (ap (λ p. p.0) ran) ∙ ap (λ p. p.0) run ∙ failed in
                    cc
              ]
          | inr cold ↦
              let run = marking s f cs false cold refl in
              elim (pay_and_push_lem true loaded f cs) [
                | inl (enough, (r, stack, done)) ↦
                    subst (Looked s f cs) (ap (λ p. p.1) (sym done ∙ sym run ∙ ran))
                      (cold_look s f cs stack cold enough)
                | inr failed ↦
                    let clash : ok tt ≡ err out_of_gas =
                      sym (ap (λ p. p.0) ran) ∙ ap (λ p. p.0) run ∙ failed in
                    cc
              ]
        ]

    module _ ⦃eth : EthUtils⦄ where
      sload_step :
          (s : S) (f : Frame) (cs : Children) (x : Item) (rest : Stack)
          → f.machine.stack ≡ x ∷ rest
          → to_int x ≡ slot
          → sload_eip2929 storage (s, tree f cs)
            ≡ sload_slot storage slot
                (s, tree (record f { machine = record f.machine { stack = rest } }) cs)
      unfolding sload_eip2929 pop1_int
      sload_step s f cs x rest shape key = ground arith

      pub sload_lem :
          (s : S) (f : Frame) (cs : Children) (x : Item) (rest : Stack) (st : S × Tree)
          → f.machine.stack ≡ x ∷ rest
          → to_int x ≡ slot
          → sload_eip2929 storage (s, tree f cs) ≡ (ok tt, st)
          → Looked s f cs st
      unfolding paid_for
      sload_lem s f cs x rest st shape key ran =
          let popped = record f { machine = record f.machine { stack = rest } } in
          let looked =
            sload_slot-Looked s popped cs st (sym (sload_step s f cs x rest shape key) ∙ ran) in
          record { same_strategy = looked.same_strategy; metered = looked.metered }
