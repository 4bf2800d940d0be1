-- ===== src/Gas/Account.antt =====
-- What a run of calls does to a gas meter.
use veda_bvm.Common.{
  ℕ, ◌+◌, ◌-◌, ◌≤◌, ◌<◌, ◌≡◌, ⊤, List, [], ◌∷◌, arith, ltb, Bool-cases, inl, inr, ◌⊎◌,
}
use veda_bvm.Common.Int.{ℤ, pos, negsuc, ◌+ℤ◌, ◌≤ℤ◌}
use veda_bvm.Exceptions.{Result, ok, err, Action}
use veda_bvm.Gas.{GasMeter, RefundStrategy, out_of_gas, consume_gas, return_gas, refund_gas}

-- Gas is taken exactly when the amount is there. The meter changes in nothing else, and a refused
-- call leaves it as it was.
pub consume_gas_lem :
    (amount : ℕ) (m : GasMeter)
    → ((amount ≤ m.gas_remaining)
        × (consume_gas (pos amount) m
            ≡ (ok tt, record m { gas_remaining = m.gas_remaining - amount })))
      ⊎ ((m.gas_remaining < amount) × (consume_gas (pos amount) m ≡ (err out_of_gas, m)))
unfolding consume_gas
consume_gas_lem amount m = elim (Bool-cases (ltb m.gas_remaining amount)) [
  | inl short ↦ inr (ground arith, ground arith)
  | inr enough ↦ inl (ground arith, ground arith)
]

pub data Call : Type 0 where
  consume give_back refund : ℤ → Call

pub call : Call → Action GasMeter ⊤
call (Call.consume amount) = consume_gas amount
call (Call.give_back amount) = return_gas amount
call (Call.refund amount) = refund_gas amount

-- A caller that handles every exception and goes on, with the gas taken and given back so far.
pub record Books : Type 0 where
  pub taken : ℕ
  pub given : ℕ

pub note : Call → Result ⊤ → Books → Books
note (Call.consume (pos n)) (ok _) b = record b { taken = b.taken + n }
note (Call.give_back (pos n)) (ok _) b = record b { given = b.given + n }
note _ _ b = b

pub run : List Call → GasMeter → Books → GasMeter × Books
run [] m b = (m, b)
run (c ∷ calls) m b = let (r, m') = call c m in run calls m' (note c r b)

-- The meter holds what it started with, less what was taken, plus what was given back. Its refund
-- counter falls below zero under the strategy that allows it only.
pub record Balances (start : ℕ) (m : GasMeter) (b : Books) : Type 0 where
  pub started : m.start_gas ≡ start
  pub balanced : m.gas_remaining + b.taken ≡ start + b.given
  pub refund_floor : m.refund_strategy ≡ RefundStrategy.default → pos 0 ≤ℤ m.gas_refunded

call-Balances :
    {start : ℕ} {m : GasMeter} {b : Books} (c : Call)
    → Balances start m b
    → Balances start (call c m).1 (note c (call c m).0 b)
unfolding call note consume_gas return_gas refund_gas ◌+ℤ◌
call-Balances (Call.consume (pos n)) h = ground arith
call-Balances (Call.consume (negsuc n)) h = ground arith
call-Balances (Call.give_back (pos n)) h = ground arith
call-Balances (Call.give_back (negsuc n)) h = ground arith
call-Balances (Call.refund z) h = ground arith

-- However many calls are made, and whether they return or raise, no gas appears or is lost, and
-- the default strategy keeps the refund counter from falling below zero.
pub run-Balances :
    (start : ℕ) (calls : List Call) (m : GasMeter) (b : Books)
    → Balances start m b
    → Balances start (run calls m b).0 (run calls m b).1
unfolding run
run-Balances start [] m b h = h
run-Balances start (c ∷ calls) m b h =
    run-Balances start calls (call c m).1 (note c (call c m).0 b) (call-Balances c h)
