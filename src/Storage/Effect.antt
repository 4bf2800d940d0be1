-- ===== src/Storage/Effect.antt =====
-- What storing a word does to the gas meter and to the storage.
use veda_bvm.Common.{ℕ, ◌-◌, ◌≤◌, ◌<◌, ◌≡◌, ◌⊎◌, inl, inr, arith, ⊤, ◌==◌, Bool-cases}
use veda_bvm.Common.Int.{ℤ, pos, negsuc, ◌+ℤ◌}
use veda_bvm.Computation.{Computation}
use veda_bvm.Exceptions.{Exception, Result, ok, err, Result-cases}
use veda_bvm.Execution.{Frame, tree, Children}
use veda_bvm.Gas.Account.{consume_gas_lem}
use veda_bvm.Gas.{GasMeter, RefundStrategy, refund_gas, out_of_gas}
use veda_bvm.Message.{Address, storage_address}
use veda_bvm.Storage.{
  ChainStorage, NetSStoreGasSchedule, net_gas, maybe_refund, pay_and_store, set_word,
}

-- A meter that paid a price and was granted a refund.
abbrev pub metered : ℕ × ℤ → GasMeter → GasMeter
metered (cost, gas_refund) m = record m {
  gas_remaining = m.gas_remaining - cost;
  gas_refunded = m.gas_refunded +ℤ gas_refund;
}

abbrev pub with_meter : Frame → GasMeter → Frame
with_meter f m = record f { machine = record f.machine { gas_meter = m } }

add_nothing : (a : ℤ) → a +ℤ pos 0 ≡ a
unfolding ◌+ℤ◌
add_nothing (pos n) = ground arith
add_nothing (negsuc n) = ground arith

maybe_refund_lem :
    (gas_refund : ℤ) (c : Computation)
    → c.gas_meter.refund_strategy ≡ RefundStrategy.allow_negative
    → maybe_refund gas_refund c ≡ (
      ok tt,
      record c {
        gas_meter = record c.gas_meter { gas_refunded = c.gas_meter.gas_refunded +ℤ gas_refund };
      },
    )
unfolding maybe_refund refund_gas
maybe_refund_lem (negsuc n) c h = ground arith
maybe_refund_lem (pos n) c h = elim (Bool-cases (n == 0)) [
  | inl none ↦ ground (arith, add_nothing c.gas_meter.gas_refunded)
  | inr some ↦ ground arith
]

module _ {S : Type 0} (storage : ChainStorage S) (schedule : NetSStoreGasSchedule) (slot value : ℕ)
    (s : S) (f : Frame) (cs : Children) where
  abbrev address : Address
  address = storage_address f.msg

  -- The price of the write.
  abbrev pub write_price : ℕ × ℤ
  write_price =
      net_gas schedule (storage.original_storage address slot s)
        (storage.get_storage address slot s) value

  abbrev pub written : S
  written = (storage.set_storage address slot value s).1

  -- Whether the storage takes the word.
  abbrev pub taking : Result ⊤
  taking = (storage.set_storage address slot value s).0

  abbrev paid_frame : Frame
  paid_frame = with_meter f (record f.machine.gas_meter {
    gas_remaining = f.machine.gas_meter.gas_remaining - write_price.0;
  })

  -- A word is stored for its price, or nothing changes where the gas does not suffice, or the storage
  -- raises once the price is paid.
  pub pay_and_store_lem :
      f.machine.gas_meter.refund_strategy ≡ RefundStrategy.allow_negative
      → ((write_price.0 ≤ f.machine.gas_meter.gas_remaining)
          × (taking ≡ ok tt)
          × (pay_and_store storage schedule (slot, value) (s, tree f cs) ≡ (
            ok slot,
            (written, tree (with_meter f (metered write_price f.machine.gas_meter)) cs),
          )))
        ⊎ (((f.machine.gas_meter.gas_remaining < write_price.0)
              × (pay_and_store storage schedule (slot, value) (s, tree f cs)
                  ≡ (err out_of_gas, (s, tree f cs))))
            ⊎ ((e : Exception) × (taking ≡ err e)
                × (pay_and_store storage schedule (slot, value) (s, tree f cs) ≡ (
                  err e,
                  (written, tree (with_meter f (metered write_price f.machine.gas_meter)) cs),
                ))))
  unfolding pay_and_store set_word
  pay_and_store_lem free = elim (consume_gas_lem write_price.0 f.machine.gas_meter) [
    | inl (enough, taken) ↦
        let refund = maybe_refund_lem write_price.1 paid_frame.machine free in
        elim (Result-cases taking) [
          | inl took ↦ inl (enough, took, ground (arith, taken, refund, took))
          | inr (e, refused) ↦ inr (inr (e, refused, ground (arith, taken, refund, refused)))
        ]
    | inr (short, refused) ↦ inr (inl (short, ground (arith, refused)))
  ]
