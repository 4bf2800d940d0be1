-- ===== src/Calls/Spends.antt =====
-- A call takes gas.
use veda_bvm.Calls.Child.{Honest, deliver-Within}
use veda_bvm.Calls.Fees.{compute_msg_gas_lem}
use veda_bvm.Calls.{
  ChainAccounts, CallClass, CallParams, compute_msg_gas, deliver, send, load_account, code_source,
  get_account_load_fee, call_with, get_call_params, call_op, operands, params_of, params_from,
  pop_rest, force_bytes_to_address,
}
use veda_bvm.Common.{ℕ, ◌≤◌, ◌<◌, ◌≡◌, refl, sym, ◌∙◌, inl, inr, List, ⊤, arith, Bool-cases, lt→ltb}
use veda_bvm.Common.Int.{pos}
use veda_bvm.Computation.{on_stack, on_gas_meter, extend_memory}
use veda_bvm.Exceptions.{ok, Action, ◌>>=◌, ◌>>◌, gets}
use veda_bvm.Execution.Ends.{Spends}
use veda_bvm.Execution.Run.{frame, on_computation}
use veda_bvm.Execution.Within.{
  Within, Strict, known-Within, then-Within, then-Strict, known-Strict, on_stack-Within,
  gets-Within, reads-Within, extend_memory-Within, pay-Within, pay-Strict, Strict-Spends,
}
use veda_bvm.Execution.{Tree}
use veda_bvm.External.{EthUtils}
use veda_bvm.Gas.{consume_gas}
use veda_bvm.Memory.{read_bytes}
use veda_bvm.Message.{Address}
use veda_bvm.Stack.{pop1_int, pop1_bytes, pop_ints}

module _ {S : Type 0} (chain : ChainAccounts S) (honest : Honest chain) where
  covered :
      (class : CallClass) (p : CallParams) (s : S) (t : Tree) (g : ℕ × ℕ)
      → compute_msg_gas chain class p.gas p.to p.value (s, t) ≡ ok g
      → g.0 ≤ g.1
  covered class p s t g computed = elim (compute_msg_gas_lem chain class p.gas p.to p.value s t) [
    | inl (child, fee, answer, shared) ↦
        let same : ok (child, fee) ≡ ok g = sym answer ∙ computed in ground (arith, shared.covered)
    | inr (_, failed) ↦ let clash = sym failed ∙ computed in cc
  ]

  send-Within :
      (class : CallClass) (p : CallParams) (call_data : List ℕ)
      → Within 0 (send chain class p call_data)
  unfolding send
  send-Within class p call_data =
      let compute : Action (S × Tree) (ℕ × ℕ) =
        λ st. (compute_msg_gas chain class p.gas p.to p.value st, st) in
      known-Within compute
        (λ g.
          on_computation (on_gas_meter (consume_gas (pos g.1))) >> deliver chain p call_data g.0)
        {j = 0} {k = 0} (omega arith)
        (reads-Within (λ st. compute_msg_gas chain class p.gas p.to p.value st))
        (λ s t g computed.
          pay-Within g.1 g.0 (deliver chain p call_data g.0) (covered class p s t g computed)
            (deliver-Within chain honest p call_data g.0))

  load_account-Strict :
      (class : CallClass) (p : CallParams) (call_data : List ℕ) (fee : ℕ)
      → 0 < fee
      → Strict (load_account chain class p call_data fee)
  unfolding load_account
  load_account-Strict class p call_data fee positive =
      rw (load_account, lt→ltb 0 fee positive)
        (pay-Strict fee 0 (send chain class p call_data) positive (send-Within class p call_data))

  get_account_load_fee-Within : (a : Address) → Within 0 (get_account_load_fee chain a)
  unfolding get_account_load_fee
  get_account_load_fee-Within a s t = elim (Bool-cases (chain.is_address_warm a s)) [
    | inl warm ↦ rw warm (record {
      same_message = refl;
      same_error = refl;
      same_start = refl;
      bounded = omega arith;
    })
    | inr cold ↦ rw cold (record {
      same_message = refl;
      same_error = refl;
      same_start = refl;
      bounded = omega arith;
    })
  ]

  get_account_load_fee-pos :
      (a : Address) (s : S) (t : Tree) (fee : ℕ)
      → (get_account_load_fee chain a (s, t)).0 ≡ ok fee
      → 0 < fee
  unfolding get_account_load_fee
  get_account_load_fee-pos a s t fee h = ground arith

  call_with-Strict : (class : CallClass) (p : CallParams) → Strict (call_with chain class p)
  unfolding call_with
  call_with-Strict class p =
      let into : Action (S × Tree) ⊤ =
        on_computation (extend_memory p.memory_input_start_position p.memory_input_size) in
      let out_of : Action (S × Tree) ⊤ =
        on_computation (extend_memory p.memory_output_start_position p.memory_output_size) in
      let reading : Action (S × Tree) (List ℕ) =
        on_computation
          (gets (λ c. read_bytes p.memory_input_start_position p.memory_input_size c.memory)) in
      let loading = λ (d : List ℕ).
        get_account_load_fee chain (code_source chain p) >>= load_account chain class p d in
      then-Strict into (λ _. out_of >> (reading >>= loading))
        (extend_memory-Within p.memory_input_start_position p.memory_input_size)
        (λ _.
          then-Strict out_of (λ _. reading >>= loading)
            (extend_memory-Within p.memory_output_start_position p.memory_output_size)
            (λ _.
              then-Strict reading loading
                (gets-Within
                  (λ c. read_bytes p.memory_input_start_position p.memory_input_size c.memory))
                (λ d.
                  known-Strict (get_account_load_fee chain (code_source chain p))
                    (load_account chain class p d)
                    (get_account_load_fee-Within (code_source chain p))
                    (λ s t fee answer.
                      load_account-Strict class p d fee
                        (get_account_load_fee-pos (code_source chain p) s t fee answer)))))

  module _ ⦃eth : EthUtils⦄ where
    params_from-Within :
        (class : CallClass) (gas : ℕ) (address items : List ℕ)
        → Within 0 (params_from chain class gas address items)
    unfolding params_from
    params_from-Within class gas address items =
        reads-Within (λ st.
          params_of chain class gas (force_bytes_to_address chain address) items (frame st.1))

    pop_rest-Within :
        (class : CallClass) (gas : ℕ) (address : List ℕ)
        → Within 0 (pop_rest chain class gas address)
    unfolding pop_rest
    pop_rest-Within class gas address =
        then-Within (on_computation (on_stack (pop_ints (operands chain class))))
          (params_from chain class gas address) (on_stack-Within (pop_ints (operands chain class)))
          (params_from-Within class gas address)

    get_call_params-Within : (class : CallClass) → Within 0 (get_call_params chain class)
    unfolding get_call_params
    get_call_params-Within class =
        let addressed =
          λ (gas : ℕ). on_computation {S = S} (on_stack pop1_bytes) >>= pop_rest chain class gas in
        then-Within (on_computation (on_stack pop1_int)) addressed (on_stack-Within pop1_int)
          (λ gas.
            then-Within (on_computation (on_stack pop1_bytes)) (pop_rest chain class gas)
              (on_stack-Within pop1_bytes) (pop_rest-Within class gas))

    -- Each opcode that calls a contract takes gas when it returns, whatever its child does, and keeps
    -- the message, the start and the bound of the gas, provided that no child has more gas left than
    -- its message had.
    pub call_op-Spends : (class : CallClass) → Spends (call_op chain class)
    unfolding call_op
    call_op-Spends class = Strict-Spends (call_op chain class) (
        then-Strict (get_call_params chain class) (call_with chain class)
          (get_call_params-Within class) (call_with-Strict class))
