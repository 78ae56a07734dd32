-- ===== src/Gateway/Balances.antt =====
-- The accounts of the payments contract after any sequence of invocations.
use trellis_contracts.Prelude.{◌≡◌, List, arith}
use trellis_contracts.Host.{Env, bind_then, ok}
use trellis_contracts.Host.Token.{Token}
use trellis_contracts.Gateway.{
  Gateway, set_fee_rate, total_deposits, withdraw, withdraw_amount, create_escrow_entry,
  release_escrow_entry, refund_escrow_entry, batch_payout,
}
use trellis_contracts.Gateway.Accounts.{
  IsBalanced, deposit-IsBalanced, withdraw-IsBalanced, withdraw_amount-IsBalanced,
}
use trellis_contracts.Gateway.Calls.{
  Call, invoke, run, run_keeps, fee_call, deposit_call, withdraw_call, withdraw_amount_call,
  entry_call, release_call, refund_call, payout_call,
}

module _ {T : Type 0} (c : Token T) where
  same_IsBalanced :
      (s s' : Gateway T)
      → IsBalanced c s
      → s'.depos ≡ s.depos
      → s'.t_depo ≡ s.t_depo
      → IsBalanced c s'
  unfolding total_deposits
  same_IsBalanced s s' v d t = record {
    nonneg = rw d v.nonneg;
    summed = rw (d, t) v.summed;
    range = rw t v.range;
  }

  pub invoke-IsBalanced :
      (env : Env) (k : Call) (s s' : Gateway T)
      → IsBalanced c s
      → invoke c env k s ≡ ok s'
      → IsBalanced c s'
  unfolding invoke set_fee_rate create_escrow_entry release_escrow_entry refund_escrow_entry
      batch_payout
  invoke-IsBalanced env (fee_call a x) s s' v e =
      same_IsBalanced s s' v (ground arith) (ground arith)
  invoke-IsBalanced env (deposit_call a x) s s' v e = deposit-IsBalanced c env a x s s' v e
  invoke-IsBalanced env (withdraw_call a) s s' v e = bind_then (withdraw c env a s) _ e λ out h e₁.
      let q : out.1 ≡ s' = cc in rw (← q) (withdraw-IsBalanced c env a (out.0) s (out.1) v h)
  invoke-IsBalanced env (withdraw_amount_call a x) s s' v e =
      bind_then (withdraw_amount c env a x s) _ e λ out h e₁.
        let q : out.1 ≡ s' = cc in
        rw (← q) (withdraw_amount-IsBalanced c env a x (out.0) s (out.1) v h)
  invoke-IsBalanced env (entry_call d b x n) s s' v e =
      same_IsBalanced s s' v (ground arith) (ground arith)
  invoke-IsBalanced env (release_call a k) s s' v e =
      same_IsBalanced s s' v (ground arith) (ground arith)
  invoke-IsBalanced env (refund_call a k) s s' v e =
      same_IsBalanced s s' v (ground arith) (ground arith)
  invoke-IsBalanced env (payout_call a ps) s s' v e =
      same_IsBalanced s s' v (ground arith) (ground arith)

  -- After any sequence of invocations of the payments contract but initialize, batch payouts
  -- included, no account is negative and TOTAL_DEPOSITS is the sum of the accounts, within i128,
  -- if so before.
  pub run-IsBalanced :
      (ks : List (Env × Call)) (s : Gateway T) → IsBalanced c s → IsBalanced c (run c ks s)
  run-IsBalanced ks s v =
      run_keeps c (IsBalanced c) (λ env k s s' h e. invoke-IsBalanced env k s s' h e) ks s v
