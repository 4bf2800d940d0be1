-- ===== src/Estimator/Tests.antt =====
-- A search at concrete numbers, and the theorem about it.
use veda_bvm.Code.{new}
use veda_bvm.Common.Int.{pos}
use veda_bvm.Common.{
  ◌≡◌, refl, sym, ◌∙◌, true, false, Option, none, some, [], ◌∷◌, arith, ltb, if◌then◌else◌,
}
use veda_bvm.Estimator.Answers.{Repeats, error_in}
use veda_bvm.Estimator.Outcomes.{Estimate}
use veda_bvm.Estimator.Search.{binary_gas_search_lem}
use veda_bvm.Estimator.{Transaction, get_computation_error, binary_gas_search}
use veda_bvm.Exceptions.{VmError, Result, ok, err, Action, validation_error}
use veda_bvm.Execution.Copies.{Copies, copies_state, snapshot-IsCopy}
use veda_bvm.Execution.{Tree, tree, childless}
use veda_bvm.Gas.{RefundStrategy}

abbrev computation : Option VmError → Tree
computation raised =
    tree
      (record {
        msg = record {
          gas = 900;
          to = some 2;
          sender = some 1;
          message_data = [];
          code = [];
          depth = 0;
          create_address = none;
          own_code_address = none;
          should_transfer_value = true;
          is_static = false;
        };
        origin = some 1;
        machine = record {
          stack = [];
          memory = [];
          gas_meter = record {
            refund_strategy = RefundStrategy.allow_negative;
            start_gas = 900;
            gas_remaining = 0;
            gas_refunded = pos 0;
          };
          code = new [];
          return_data = [];
          output = [];
        };
        raised = raised;
        accounts_to_delete = [];
        log_entries = [];
      })
      childless

-- A transaction that needs 21900 of gas, and is not valid with less than its intrinsic gas.
abbrev comes_to : Transaction → Result Tree
comes_to t =
    if ltb t.gas t.intrinsic_gas
    then err validation_error
    else ok (computation (if ltb t.gas 21900 then some VmError.out_of_gas else none))

abbrev apply_transaction : Transaction → Action Copies Tree
apply_transaction t s = (comes_to t, ((some 2, 7 ∷ []) ∷ s.0, s.1))

abbrev answer : Transaction → Result (Option VmError)
answer t = error_in (comes_to t)

abbrev transaction : Transaction
transaction = record { has_sender = true; intrinsic_gas = 21000; gas = 21000; gas_price = 1 }

abbrev Untouched : Copies → Type 0
Untouched s = s.0 ≡ []

apply_transaction-Repeats : Repeats copies_state apply_transaction Untouched answer
apply_transaction-Repeats = record {
  opens = λ t s i.
      let c = snapshot-IsCopy s in record { numbered = c.numbered; later = c.later; kept = c.kept };
  repeats = λ t s i. refl;
  same = λ s s' i e. sym e ∙ i;
}

search_found :
    binary_gas_search
      (get_computation_error copies_state apply_transaction)
      22000
      transaction
      10
      20
      ([], [])
    ≡ some (ok 21906, ([], []))
unfolding binary_gas_search get_computation_error
search_found = refl

-- A block whose limit is below the intrinsic gas, for a transaction that fails with that.
abbrev dear : Transaction
dear = record transaction { intrinsic_gas = 21500 }

search_raises :
    binary_gas_search
      (get_computation_error copies_state apply_transaction)
      21400
      dear
      10
      20
      ([], [])
    ≡ some (err validation_error, ([], []))
unfolding binary_gas_search get_computation_error
search_raises = refl

binary_gas_search_lem_example : Estimate Untouched answer 22000 transaction 10 (
    binary_gas_search
      (get_computation_error copies_state apply_transaction)
      22000
      transaction
      10
      22001
      ([], []))
binary_gas_search_lem_example =
    binary_gas_search_lem copies_state apply_transaction Untouched answer 22000 transaction 10 22001
      ([], []) apply_transaction-Repeats refl (omega arith) (omega arith) refl
