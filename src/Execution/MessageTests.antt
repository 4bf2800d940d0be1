-- ===== src/Execution/MessageTests.antt =====
-- Messages on a state that keeps copies, and the theorems about them.
use mathlib.Core.Option.{some-injective}
use veda_bvm.Common.{
  false, ℕ, ◌≡◌, refl, subst, Option, none, some, [], ◌∷◌, arith, true, if◌then◌else◌, ◌==◌,
  Bool-cases, inl, inr,
}
use veda_bvm.Execution.Applies.{
  Careful, Applied, Created, apply_message_lem, apply_create_message_lem,
}
use veda_bvm.Execution.Copies.{Copies, copies_state}
use veda_bvm.Execution.Costs.{lifted, as_opcode-Spends}
use veda_bvm.Execution.Ends.{Spends}
use veda_bvm.Execution.Messages.{apply_message, apply_create_message}
use veda_bvm.Execution.Opens.{KeepsOpen}
use veda_bvm.Execution.Run.{Step}
use veda_bvm.Execution.{tree}
use veda_bvm.Logic.Flow.{jumpdest}
use veda_bvm.Message.{Message, Address}

abbrev jumpdest_step : Step Copies
jumpdest_step = lifted jumpdest 1

jumpdest-Spends : Spends jumpdest_step
jumpdest-Spends = as_opcode-Spends jumpdest 1 (λ c. unfold jumpdest in refl) (omega arith)

jumpdest-KeepsOpen : KeepsOpen copies_state jumpdest_step
jumpdest-KeepsOpen c s0 s (tree f cs) h = h

abbrev opcodes : ℕ → Option (Step Copies)
opcodes k = if k == 91 then some jumpdest_step else none

opcodes-jumpdest : (k : ℕ) (fn : Step Copies) → opcodes k ≡ some fn → jumpdest_step ≡ fn
opcodes-jumpdest k fn e = elim (Bool-cases (k == 91)) [
  | inl same ↦
      let here : some jumpdest_step ≡ some fn = ground (arith, e, same) in
      some-injective jumpdest_step fn here
  | inr other ↦ let nowhere : none ≡ some fn = ground (arith, e, other) in cc
]

careful : Careful copies_state opcodes (λ a. none)
careful = record {
  configured = record {
    each = λ k fn e. subst Spends (opcodes-jumpdest k fn e) jumpdest-Spends;
    contracts = λ a fn e. cc;
  };
  each = λ k fn e. subst (KeepsOpen copies_state) (opcodes-jumpdest k fn e) jumpdest-KeepsOpen;
  contracts = λ a fn e. cc;
}

abbrev accounts : Copies
accounts = ((some 7, 1 ∷ []) ∷ [], [])

-- A call or a creation whose code runs a JUMPDEST and then an opcode that there is not.
abbrev failing : Address → Message
failing to = record {
  gas = 5;
  to = to;
  sender = some 2;
  message_data = [];
  code = 91 ∷ 1 ∷ [];
  depth = 0;
  create_address = some (some 3);
  own_code_address = none;
  should_transfer_value = true;
  is_static = false;
}

apply_message_lem_example :
    Applied copies_state accounts
      (apply_message copies_state opcodes (λ a. none) 6 (failing (some 1)) (some 2) accounts)
apply_message_lem_example =
    apply_message_lem copies_state opcodes (λ a. none) careful 6 (failing (some 1)) (some 2)
      accounts (omega arith)

apply_create_message_lem_example :
    Created copies_state accounts
      (apply_create_message copies_state opcodes (λ a. none) 6 (failing none) (some 2) accounts)
apply_create_message_lem_example =
    apply_create_message_lem copies_state opcodes (λ a. none) careful 6 (failing none) (some 2)
      accounts (omega arith)
