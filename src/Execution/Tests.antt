-- ===== src/Execution/Tests.antt =====
-- Computations of a few opcodes, and the theorem about them.
use mathlib.Core.List.{Perm}
use mathlib.Core.Option.{some-injective}
use veda_bvm.Common.{
  List, Option, All, Bool-cases, inl, inr, sym, ◌∙◌, subst, ◌==◌, ℕ, ◌≡◌, refl, none, some, [], ◌∷◌,
  ⊤, arith, true, false,
}
use veda_bvm.Dict.{Dict, lookup}
use veda_bvm.Exceptions.{VmError, Result, ok, err, halt, value_error}
use veda_bvm.Execution.Deletions.{get_accounts_for_deletion_lem, all_deletions, last_of, Once}
use veda_bvm.Execution.Entries.{
  get_accounts_for_deletion, beneficiary_of, register_account_for_deletion, add_log_entry,
  get_raw_log_entries, get_log_entries,
}
use veda_bvm.Execution.Logs.{get_raw_log_entries_lem, all_entries, Rising}
use veda_bvm.Execution.Costs.{lifted, as_opcode-Spends}
use veda_bvm.Execution.Ends.{Spends, Keeps}
use veda_bvm.Execution.Run.{Step, apply_computation}
use veda_bvm.Execution.Whole.{Configured, Ended, apply_computation_lem}
use veda_bvm.Execution.Refunds.{get_gas_refund_lem, survivors, total_refund}
use veda_bvm.Gas.{RefundStrategy}
use veda_bvm.Code.{new}
use veda_bvm.Common.Int.{ℤ, pos, negsuc}
use veda_bvm.Execution.{Frame, LogEntry, childless, append, get_gas_refund, Tree, tree}
use veda_bvm.Logic.Flow.{stop, jumpdest}
use veda_bvm.Logic.{as_opcode}
use veda_bvm.Message.{Message, Address}

abbrev jumpdest_step : Step ⊤
jumpdest_step = lifted jumpdest 1

abbrev stop_step : Step ⊤
stop_step = lifted stop 0

jumpdest-Spends : Spends jumpdest_step
jumpdest-Spends = as_opcode-Spends jumpdest 1 (λ c. unfold jumpdest in refl) (omega arith)

stop-Keeps : Keeps stop_step
unfolding stop as_opcode
stop-Keeps msg s (tree f cs) h = record {
  same_message = h.same_message;
  started = h.started;
  bounded = h.bounded;
  no_error = h.no_error;
}

stop-halts : (s : ⊤) (t : Tree) → (stop_step (s, t)).0 ≡ err halt
unfolding stop as_opcode
stop-halts s (tree f cs) = refl

stop-Spends : Spends stop_step
stop-Spends = record { keeps = stop-Keeps; spends = λ s t h. raised_ok (sym (stop-halts s t) ∙ h) }
  where
    raised_ok : {P : Type 0} → ◌≡◌ {A = Result ⊤} (err halt) (ok tt) → P
    raised_ok e = cc

abbrev table : Dict (Step ⊤)
table = (0, stop_step) ∷ (91, jumpdest_step) ∷ []

lookup-Spends :
    (k : ℕ) (d : Dict (Step ⊤)) (fn : Step ⊤)
    → All (λ p. Spends p.1) d
    → lookup k d ≡ some fn
    → Spends fn
unfolding lookup
lookup-Spends k [] fn h e = cc
lookup-Spends k ((j, g) ∷ d) fn (spends, h) e = elim (Bool-cases (k == j)) [
  | inl same ↦
      let here : some g ≡ some fn = ground (arith, e, same) in
      subst Spends (some-injective g fn here) spends
  | inr other ↦ lookup-Spends k d fn h (ground (arith, e, other))
]

configured : Configured {S = ⊤} (λ k. lookup k table) (λ a. none)
configured = record {
  each = λ k fn e. lookup-Spends k table fn (stop-Spends, (jumpdest-Spends, tt)) e;
  contracts = λ a fn e. cc;
}

-- JUMPDEST twice with gas for both, then the STOP past the end.
abbrev message : ℕ → Message
message gas = record {
  gas = gas;
  to = some 1;
  sender = some 2;
  message_data = [];
  code = 91 ∷ 91 ∷ [];
  depth = 0;
  create_address = none;
  own_code_address = none;
  should_transfer_value = true;
  is_static = false;
}

apply_computation_lem_example :
    Ended (message 5) (apply_computation (λ k. lookup k table) (λ a. none) 6 (message 5) none tt)
apply_computation_lem_example =
    apply_computation_lem (λ k. lookup k table) (λ a. none) 6 (message 5) none tt configured
      (omega arith)

-- A computation with a refund, and one that failed.
abbrev ended_with : Option VmError → ℤ → List (Address × Address) → List LogEntry → Frame
ended_with raised refund accounts entries = record {
  msg = message 5;
  origin = none;
  machine = record {
    stack = [];
    memory = [];
    gas_meter = record {
      refund_strategy = RefundStrategy.allow_negative;
      start_gas = 5;
      gas_remaining = 0;
      gas_refunded = refund;
    };
    code = new (91 ∷ []);
    return_data = [];
    output = [];
  };
  raised = raised;
  accounts_to_delete = accounts;
  log_entries = entries;
}

abbrev ended : Option VmError → ℤ → Frame
ended raised refund = ended_with raised refund [] []

abbrev family : Tree
family = tree (ended none (pos 7)) (
    append (append childless (tree (ended none (negsuc 2)) childless))
      (tree (ended (some VmError.out_of_gas) (pos 9)) childless))

family_refund : get_gas_refund family ≡ pos 4
unfolding get_gas_refund veda_bvm.Execution.is_error veda_bvm.Common.Int.◌+ℤ◌
family_refund = refl

get_gas_refund_lem_example : get_gas_refund family ≡ total_refund (survivors family)
get_gas_refund_lem_example = get_gas_refund_lem family

abbrev entry : ℕ → LogEntry
entry n = record { counter = n; account = some 1; topics = n ∷ []; log_data = [] }

-- A computation that has logged before and after its first child; its second child failed.
abbrev logged : Tree
logged = tree (ended_with none (pos 0) ((some 1, some 7) ∷ []) (entry 0 ∷ entry 2 ∷ [])) (
    append
      (append childless (
        tree (ended_with none (pos 0) ((some 1, some 8) ∷ (some 2, some 1) ∷ []) (entry 1 ∷ []))
          childless))
      (tree (ended_with (some VmError.out_of_gas) (pos 0) ((some 3, some 1) ∷ []) (entry 3 ∷ []))
        childless))

logged-entries : get_raw_log_entries logged ≡ entry 0 ∷ entry 1 ∷ entry 2 ∷ []
unfolding get_raw_log_entries veda_bvm.Execution.is_error
logged-entries = refl

logged-topics :
    get_log_entries logged ≡ (some 1, 0 ∷ [], []) ∷ (some 1, 1 ∷ [], []) ∷ (some 1, 2 ∷ [], []) ∷ []
unfolding get_log_entries veda_bvm.Execution.is_error
logged-topics = refl

logged-accounts : get_accounts_for_deletion logged ≡ (some 1, some 8) ∷ (some 2, some 1) ∷ []
unfolding get_accounts_for_deletion veda_bvm.Execution.is_error
logged-accounts = refl

register-again :
    register_account_for_deletion (some 4) (ended_with none (pos 0) ((some 1, some 7) ∷ []) [])
    ≡ (err value_error, ended_with none (pos 0) ((some 1, some 7) ∷ []) [])
unfolding register_account_for_deletion
register-again = refl

register-new :
    register_account_for_deletion (some 4) (ended none (pos 0))
    ≡ (ok tt, ended_with none (pos 0) ((some 1, some 4) ∷ []) [])
unfolding register_account_for_deletion
register-new = refl

add-entry :
    add_log_entry (some 1) (5 ∷ []) [] (5, ended_with none (pos 0) [] (entry 3 ∷ []))
    ≡ (ok tt, (6, ended_with none (pos 0) [] (entry 3 ∷ entry 5 ∷ [])))
unfolding add_log_entry
add-entry = refl

get_raw_log_entries_lem_example :
    Perm (get_raw_log_entries logged) (all_entries (survivors logged))
    × Rising (get_raw_log_entries logged)
get_raw_log_entries_lem_example = get_raw_log_entries_lem logged

get_accounts_for_deletion_lem_example :
    (beneficiary_of (some 1) (get_accounts_for_deletion logged)
      ≡ last_of (some 1) (all_deletions (survivors logged)) none)
    × Once (get_accounts_for_deletion logged)
get_accounts_for_deletion_lem_example = get_accounts_for_deletion_lem logged (some 1)
