-- ===== src/Gas/Tests.antt =====
-- Runs of a gas meter, and the theorems at concrete meters.
use veda_bvm.Common.{◌≡◌, refl, arith, List, [], ◌∷◌}
use veda_bvm.Common.Int.{pos, negsuc}
use veda_bvm.Exceptions.{ok, err, validation_error}
use veda_bvm.Gas.{GasMeter, RefundStrategy, refund_gas, new}
use veda_bvm.Gas.Account.{Call, Books, run, Balances, run-Balances}

abbrev meter : GasMeter
meter = record {
  refund_strategy = RefundStrategy.default;
  start_gas = 100;
  gas_remaining = 100;
  gas_refunded = pos 0;
}

abbrev no_books : Books
no_books = record { taken = 0; given = 0 }

new-meter : new (pos 100) RefundStrategy.default ≡ ok meter
unfolding new
new-meter = refl

refund_gas-negative :
    (refund_gas (negsuc 4) meter ≡ (err validation_error, meter))
    × ((refund_gas (negsuc 4) (record meter { refund_strategy = RefundStrategy.allow_negative })).0
        ≡ ok tt)
unfolding refund_gas
refund_gas-negative = (refl, refl)

abbrev calls : List Call
calls =
    Call.consume (pos 70)
    ∷ Call.consume (pos 40)
    ∷ Call.give_back (pos 15)
    ∷ Call.consume (pos 40)
    ∷ Call.refund (pos 3)
    ∷ []

run-Balances_example : Balances 100 (run calls meter no_books).0 (run calls meter no_books).1
run-Balances_example =
    run-Balances 100 calls meter no_books
      (record { started = refl; balanced = refl; refund_floor = λ _. omega arith })
