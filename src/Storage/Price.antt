-- ===== src/Storage/Price.antt =====
-- What a word has cost so far.
use veda_bvm.Common.{
  ℕ, ◌≡◌, ◌∙◌, refl, ◌==◌, if◌then◌else◌, arith, Bool-cases, inl, inr, true, false,
}
use veda_bvm.Common.Int.{ℤ, pos, ◌+ℤ◌, ◌-ℤ◌, int_laws}
use veda_bvm.Storage.{NetSStoreGasSchedule, net_gas, dirty_refund}

-- The price of changing an original word into another one, above that of looking at it: a set price
-- for a new word, a reset price for a change, and less the refund for clearing.
unfoldable pub price : NetSStoreGasSchedule → ℕ → ℕ → ℤ
price schedule original current =
    if original == current
    then pos 0
    else if original == 0
    then pos schedule.sstore_set_gas -ℤ pos schedule.sload_gas
    else if current == 0
    then pos schedule.sstore_reset_gas
      -ℤ pos schedule.sload_gas
      -ℤ pos schedule.sstore_clears_schedule
    else pos schedule.sstore_reset_gas -ℤ pos schedule.sload_gas

-- A word that was written before goes from one price to the other by its refund.
dirty_refund-price :
    (schedule : NetSStoreGasSchedule) (original current value : ℕ)
    → (original == current) ≡ false
    → price schedule original current
      ≡ dirty_refund schedule original current value +ℤ price schedule original value
unfolding dirty_refund price
dirty_refund-price schedule original current value dirty = elim (Bool-cases (original == value)) [
  | inl back ↦ elim (Bool-cases (original == 0)) [
    | inl new ↦ rw (dirty, back, new) (omega int_laws)
    | inr old ↦ elim (Bool-cases (current == 0)) [
      | inl empty ↦
          let set : (value == 0) ≡ false = ground arith in
          rw (dirty, back, old, empty, set) (omega int_laws)
      | inr full ↦
          let set : (value == 0) ≡ false = ground arith in
          rw (dirty, back, old, full, set) (omega int_laws)
    ]
  ]
  | inr on ↦ elim (Bool-cases (original == 0)) [
    | inl new ↦ rw (dirty, on, new) (omega int_laws)
    | inr old ↦ elim (Bool-cases (current == 0)) [
      | inl empty ↦ elim (Bool-cases (value == 0)) [
        | inl clear ↦ rw (dirty, on, old, empty, clear) (omega int_laws)
        | inr set ↦ rw (dirty, on, old, empty, set) (omega int_laws)
      ]
      | inr full ↦ elim (Bool-cases (value == 0)) [
        | inl clear ↦ rw (dirty, on, old, full, clear) (omega int_laws)
        | inr set ↦ rw (dirty, on, old, full, set) (omega int_laws)
      ]
    ]
  ]
]

price_self : (schedule : NetSStoreGasSchedule) (n : ℕ) → price schedule n n ≡ pos 0
unfolding price
price_self schedule n = ground arith

-- A word that was not written before.
clean-price :
    (schedule : NetSStoreGasSchedule) (original value : ℕ)
    → (original == value) ≡ false
    → pos (net_gas schedule original original value).0
      ≡ (net_gas schedule original original value).1
        +ℤ price schedule original value
        +ℤ pos schedule.sload_gas
unfolding net_gas price
clean-price schedule original value change =
    let clean : (original == original) ≡ true = ground arith in
    elim (Bool-cases (original == 0)) [
      | inl new ↦ rw (change, clean, new) (omega int_laws)
      | inr old ↦ elim (Bool-cases (value == 0)) [
        | inl clear ↦ rw (change, clean, old, clear) (omega int_laws)
        | inr set ↦ rw (change, clean, old, set) (omega int_laws)
      ]
    ]

-- What a write costs, with what was paid for the word before, is its refund, what is paid for the
-- word after, and the price of looking at it.
pub net_gas-price :
    (schedule : NetSStoreGasSchedule) (original current value : ℕ)
    → pos (net_gas schedule original current value).0 +ℤ price schedule original current
      ≡ (net_gas schedule original current value).1
        +ℤ price schedule original value
        +ℤ pos schedule.sload_gas
net_gas-price schedule original current value = elim (Bool-cases (current == value)) [
  | inl same ↦
      let e : current ≡ value = ground arith in
      let free : net_gas schedule original current value ≡ (schedule.sload_gas, pos 0) =
        unfold net_gas in rw same refl in
      rw free (rw e (omega int_laws))
  | inr change ↦ elim (Bool-cases (original == current)) [
    | inr dirty ↦
        let before = dirty_refund-price schedule original current value dirty in
        let paid : net_gas schedule original current value
            ≡ (schedule.sload_gas, dirty_refund schedule original current value) =
          unfold net_gas in rw (change, dirty) refl in
        rw (paid, before) (omega int_laws)
    | inl clean ↦
        let e : original ≡ current = ground arith in
        let k : (original == value) ≡ false = ground arith in
        let cost = pos (net_gas schedule original original value).0 in
        let none : cost +ℤ pos 0 ≡ cost = omega int_laws in
        rw (← e, price_self schedule original) (none ∙ clean-price schedule original value k)
  ]
]
