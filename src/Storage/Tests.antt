-- ===== src/Storage/Tests.antt =====
-- Writes at a concrete storage, and the theorems there.
use veda_bvm.Common.{
  ℕ, ◌-◌, ◌*◌, ◌≡◌, refl, arith, ◌∷◌, [], Bool, true, false, ◌&&◌, ◌==◌, if◌then◌else◌, none, some,
  ⊤, leb, ap, Bool-cases, inl, inr,
}
use veda_bvm.Code.{new}
use veda_bvm.Common.Int.{pos, negsuc, ◌+ℤ◌, ◌-ℤ◌}
use veda_bvm.Exceptions.{ok, err, Action, validation_error}
use veda_bvm.Execution.Run.{frame}
use veda_bvm.Execution.{Frame, Tree, tree, childless}
use veda_bvm.External.Reference.{reference}
use veda_bvm.Gas.{RefundStrategy, consume_gas}
use veda_bvm.Message.{Address, same_address, storage_address}
use veda_bvm.Numeric.{uint_256_max}
use veda_bvm.Stack.{int, pop1_int, push_int, pop_ints, to_int}
use veda_bvm.Storage.Metered.{funds, paid_for}
use veda_bvm.Storage.Runs.{Elsewhere, start, write, look, other, writes_lem}
use veda_bvm.Storage.{
  ChainStorage, net_gas, sload_eip2929, sstore_eip3529, sstore_eip2929_generic,
  gas_schedule_eip3529, warm_storage_read_cost,
}

record Words : Type 0 where
  before : Address → ℕ → ℕ
  now : Address → ℕ → ℕ
  warm : Address → ℕ → Bool

same_address_self : (a : Address) → same_address a a ≡ true
unfolding same_address
same_address_self none = refl
same_address_self (some a) = ground arith

abbrev update : {A : Type 0} → (Address → ℕ → A) → Address → ℕ → A → Address → ℕ → A
update f a slot v b i = if same_address a b && slot == i then v else f b i

update_self :
    {A : Type 0} (f : Address → ℕ → A) (a : Address) (slot : ℕ) (v : A)
    → update f a slot v a slot ≡ v
update_self f a slot v =
    let e : (slot == slot) ≡ true = ground arith in rw (same_address_self a, e) refl

-- A write that refuses what is past 256 bits.
abbrev set_words : Address → ℕ → ℕ → Action Words ⊤
set_words a slot v s =
    if leb v uint_256_max && leb slot uint_256_max
    then (ok tt, record s { now = update s.now a slot v })
    else (err validation_error, s)

set_words-parts :
    (a : Address) (slot v : ℕ) (s : Words)
    → ((set_words a slot v s).1.before a slot ≡ s.before a slot)
      × ((set_words a slot v s).1.warm ≡ s.warm)
set_words-parts a slot v s = elim (Bool-cases (leb v uint_256_max && leb slot uint_256_max)) [
  | inl fits ↦ rw fits (refl, refl)
  | inr wide ↦ rw wide (refl, refl)
]

get-set_words :
    (a : Address) (slot v : ℕ) (s : Words)
    → (set_words a slot v s).0 ≡ ok tt
    → (set_words a slot v s).1.now a slot ≡ v
get-set_words a slot v s = elim (Bool-cases (leb v uint_256_max && leb slot uint_256_max)) [
  | inl fits ↦ rw fits (λ h. update_self s.now a slot v)
  | inr wide ↦ rw wide (λ h. cc)
]

abbrev words : ChainStorage Words
words = record {
  get_storage = λ a slot s. s.now a slot;
  original_storage = λ a slot s. s.before a slot;
  set_storage = set_words;
  is_storage_warm = λ a slot s. s.warm a slot;
  mark_storage_warm = λ a slot s. record s { warm = update s.warm a slot true };
  get-set = get-set_words;
  original-set = λ a slot v s h. (set_words-parts a slot v s).0;
  warm-set = λ a slot v s h. ap (λ w. w a slot) (set_words-parts a slot v s).1;
  get-mark = λ a slot s. refl;
  original-mark = λ a slot s. refl;
  warm-mark = λ a slot s. update_self s.warm a slot true;
}

abbrev empty : Words
empty = record { before = λ a i. 0; now = λ a i. 0; warm = λ a i. false }

abbrev two_words : Frame
two_words = record {
  msg = record {
    gas = 50000;
    to = some 9;
    sender = some 1;
    message_data = [];
    code = [];
    depth = 0;
    create_address = none;
    own_code_address = none;
    should_transfer_value = false;
    is_static = false;
  };
  origin = some 1;
  machine = record {
    stack = int 3 ∷ int 7 ∷ [];
    memory = [];
    gas_meter = record {
      refund_strategy = RefundStrategy.allow_negative;
      start_gas = 50000;
      gas_remaining = 50000;
      gas_refunded = pos 0;
    };
    code = new [];
    return_data = [];
    output = [];
  };
  raised = none;
  accounts_to_delete = [];
  log_entries = [];
}

abbrev after : Words × Tree
after = (sstore_eip3529 words ⦃eth = reference⦄ (empty, tree two_words childless)).1

-- A new word at a cold slot.
new_word-gas : (frame after.1).machine.gas_meter.gas_remaining ≡ 50000 - 20000 - 2100
unfolding sstore_eip3529 pop_ints to_int consume_gas
new_word-gas = refl

-- A look at a cold slot, and one at a warm slot.
abbrev looked : Words × Tree
looked = (sload_eip2929 words ⦃eth = reference⦄ (empty, tree two_words childless)).1

cold_look-gas : (frame looked.1).machine.gas_meter.gas_remaining ≡ 50000 - 2100
unfolding sload_eip2929 pop1_int to_int consume_gas
cold_look-gas = refl

abbrev looked_again : Words × Tree
looked_again = (sload_eip2929 words ⦃eth = reference⦄ (looked.0, tree two_words childless)).1

warm_look-gas : (frame looked_again.1).machine.gas_meter.gas_remaining ≡ 50000 - 100
unfolding sload_eip2929 pop1_int to_int consume_gas same_address
warm_look-gas = refl

-- A word that is cleared, and one that is set back.
net_gas-cleared : net_gas gas_schedule_eip3529 5 5 0 ≡ (2900, pos 4800)
unfolding net_gas
net_gas-cleared = refl

net_gas-set_back : net_gas gas_schedule_eip3529 5 0 5 ≡ (100, negsuc 1999)
unfolding net_gas ◌+ℤ◌ ◌-ℤ◌
net_gas-set_back = refl

one_write_key : to_int ⦃eth = reference⦄ (int 3) ≡ 3
unfolding to_int
one_write_key = refl

one_write_value : to_int ⦃eth = reference⦄ (int 7) ≡ 7
unfolding to_int
one_write_value = refl

one_write :
    sstore_eip2929_generic words ⦃eth = reference⦄ gas_schedule_eip3529
      (empty, tree two_words childless)
    ≡ (ok 3, after)
unfolding sstore_eip3529 pop_ints to_int consume_gas
one_write = refl

-- The slot is pushed again, for 3 of gas, and then read.
abbrev slot_again : Frame
slot_again = record (frame after.1) {
  machine = record (frame after.1).machine {
    stack = int 3 ∷ [];
    gas_meter = record (frame after.1).machine.gas_meter { gas_remaining = 27897 };
  };
}

abbrev after_look : Words × Tree
after_look = (sload_eip2929 words ⦃eth = reference⦄ (after.0, tree slot_again childless)).1

pushed_again :
    Elsewhere words gas_schedule_eip3529 3 (pos 3) after (after.0, tree slot_again childless)
unfolding sstore_eip3529 pop_ints to_int consume_gas ◌+ℤ◌ paid_for
pushed_again = record { same_strategy = refl; same_price = refl; taken = refl }

one_look :
    sload_eip2929 words ⦃eth = reference⦄ (after.0, tree slot_again childless) ≡ (ok tt, after_look)
unfolding sstore_eip3529 sload_eip2929 pop1_int pop_ints to_int consume_gas same_address push_int
one_look = refl

looked_at :
    pos 103
    ≡ pos 0
      +ℤ pos 3
      +ℤ pos (
          if words.is_storage_warm (storage_address slot_again.msg) 3 after.0
          then warm_storage_read_cost
          else 0)
unfolding sstore_eip3529 pop_ints to_int consume_gas ◌+ℤ◌ same_address storage_address
looked_at = refl

writes_lem_example :
    funds (frame after_look.1).machine.gas_meter
      +ℤ paid_for words gas_schedule_eip3529 3 after_look
      +ℤ pos (1 * 100)
      +ℤ pos 103
    ≡ pos 50000 +ℤ pos 0 +ℤ paid_for words gas_schedule_eip3529 3 (empty, tree two_words childless)
writes_lem_example =
    writes_lem words gas_schedule_eip3529 3 ⦃eth = reference⦄ (empty, tree two_words childless) 1
      (pos 103) after_look refl
      (look after.0 slot_again childless (int 3) []
        (other
          (write 7 empty two_words childless (int 3) (int 7) [] start refl one_write_key
            one_write_value one_write)
          pushed_again refl)
        refl one_write_key one_look looked_at)
