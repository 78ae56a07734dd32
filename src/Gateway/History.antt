-- ===== src/Gateway/History.antt =====
-- The payments contract after any sequence of invocations: it can pay its accounts and its escrows.
use trellis_contracts.Gateway.Balances.{invoke-IsBalanced}
use trellis_contracts.Shared.Payments.{calculate_fee_split}
use trellis_contracts.Prelude.{
  ◌≡◌, sym, ◌∙◌, List, [], ◌∷◌, arith, unwrap_or, ℤ, ◌-ℤ◌, ltb_ℤ, leb_ℤ, pos,
}
use trellis_contracts.Host.{
  Env, Address, fail_if, require_auth, ok_or, bind_then, commit, commit_keeps, ok,
}
use trellis_contracts.Host.Token.{Token, IsToken}
use trellis_contracts.Shared.Errors.{
  not_found, payment_invalid_amount, payment_insufficient_balance,
}
use trellis_contracts.Gateway.{
  Gateway, purse, set_fee_rate, balance_of, deposit, pay_positive, pay_out, withdraw,
  withdraw_amount, create_escrow_entry,
}
use trellis_contracts.Gateway.Accounts.{
  deposit_effect, deposit-IsBalanced, withdraw-IsBalanced, withdraw_amount-IsBalanced,
}
use trellis_contracts.Gateway.Calls.{
  Call, invoke, run, fee_call, deposit_call, withdraw_call, withdraw_amount_call, entry_call,
  release_call, refund_call, payout_call,
}
use trellis_contracts.Gateway.Backing.{
  owed, IsBacked, deposit-IsBacked, withdraw-IsBacked, withdraw_amount-IsBacked,
}
use trellis_contracts.Gateway.Solvency.{
  IsSolid, IsPlain, IsPlain-self, ArePlain, same_escrows, create_escrow_entry-IsSolid,
  release_escrow_entry-IsSolid, refund_escrow_entry-IsSolid,
}

module _ {T : Type 0} (c : Token T) where
  -- What a payout leaves of the escrows.
  pay_out_escrows :
      (env : Env) (who : Address) (amount remaining net : ℤ) (s s' : Gateway T)
      → pay_out c env who amount remaining s ≡ ok (net, s')
      → (s'.escrows.esc_rec ≡ s.escrows.esc_rec)
        × (s'.escrows.esc_seq ≡ s.escrows.esc_seq)
        × (s'.token_key ≡ s.token_key)
  unfolding pay_out
  pay_out_escrows env who amount remaining net s s' e =
      bind_then (ok_or s.token_key not_found) _ e λ token h₁ e₁.
        bind_then (ok_or s.fee_rcp not_found) _ e₁ λ recipient h₂ e₂.
          bind_then (calculate_fee_split amount (unwrap_or s.fee_rt (pos 0))) _ e₂ λ split h₃ e₃.
            bind_then (pay_positive c env token recipient split.0 (purse c s)) _ e₃ λ p₁ h₄ e₄.
              bind_then (pay_positive c env token who split.1 p₁) _ e₄
                λ p₂ h₅ e₅. (ground arith, ground arith, ground arith)

  withdraw_escrows :
      (env : Env) (who : Address) (net : ℤ) (s s' : Gateway T)
      → withdraw c env who s ≡ ok (net, s')
      → (s'.escrows.esc_rec ≡ s.escrows.esc_rec)
        × (s'.escrows.esc_seq ≡ s.escrows.esc_seq)
        × (s'.token_key ≡ s.token_key)
  unfolding withdraw
  withdraw_escrows env who net s s' e =
      let b = balance_of c who s in
      bind_then (require_auth env who) _ e λ _ _ e₁.
        bind_then (fail_if (leb_ℤ b (pos 0)) payment_insufficient_balance) _ e₁ λ _ h e₂.
          bind_then (pay_out c env who b (pos 0) s) _ e₂ λ out h₃ e₃.
            let (r, q, t) = pay_out_escrows env who b (pos 0) (out.0) s (out.1) h₃ in
            (ground arith, ground arith, ground arith)

  withdraw_amount_escrows :
      (env : Env) (who : Address) (amount net : ℤ) (s s' : Gateway T)
      → withdraw_amount c env who amount s ≡ ok (net, s')
      → (s'.escrows.esc_rec ≡ s.escrows.esc_rec)
        × (s'.escrows.esc_seq ≡ s.escrows.esc_seq)
        × (s'.token_key ≡ s.token_key)
  unfolding withdraw_amount
  withdraw_amount_escrows env who amount net s s' e =
      let b = balance_of c who s in
      bind_then (fail_if (leb_ℤ amount (pos 0)) payment_invalid_amount) _ e λ _ _ e₁.
        bind_then (require_auth env who) _ e₁ λ _ _ e₂.
          bind_then (fail_if (ltb_ℤ b amount) payment_insufficient_balance) _ e₂
            λ _ _ e₃. pay_out_escrows env who amount (b -ℤ amount) net s s' e₃

  deposit_escrows :
      (env : Env) (from : Address) (amount : ℤ) (s s' : Gateway T)
      → deposit c env from amount s ≡ ok s'
      → s'.escrows.esc_seq ≡ s.escrows.esc_seq
  unfolding deposit
  deposit_escrows env from amount s s' e = ground arith

  fee-IsBacked :
      (me : Address) (env : Env) (a : Address) (x : ℤ) (s s' : Gateway T)
      → IsBacked c me s
      → set_fee_rate c env a x s ≡ ok s'
      → IsBacked c me s'
  unfolding set_fee_rate owed
  fee-IsBacked me env a x s s' v e u k =
      let d : s'.depos ≡ s.depos = ground arith in
      let r : s'.escrows ≡ record (s.escrows) { events = s'.escrows.events } = ground arith in
      let t : s'.token_key ≡ s.token_key = ground arith in rw (d, r) (v u (sym t ∙ k))

module _ {T : Type 0} (c : Token T) (laws : IsToken c) where
  invoke-IsSolid :
      (env : Env) (k : Call) (s s' : Gateway T)
      → IsPlain env.current_contract_address env k
      → IsSolid c env.current_contract_address s
      → invoke c env k s ≡ ok s'
      → IsSolid c env.current_contract_address s'
  unfolding invoke set_fee_rate
  invoke-IsSolid env (fee_call a x) s s' p v e =
      same_escrows c laws env s s' v (invoke-IsBalanced c env (fee_call a x) s s' v.balanced e)
        (fee-IsBacked c env.current_contract_address env a x s s' v.backed e) (ground arith)
        (ground arith) (ground arith)
  invoke-IsSolid env (deposit_call a x) s s' (_, ne) v e =
      let (_, _, _, _, _, _, _, _, r, t) = deposit_effect c env a x s s' e in
      same_escrows c laws env s s' v (deposit-IsBalanced c env a x s s' v.balanced e)
        (deposit-IsBacked c laws env a x s s' v.backed ne e) r (deposit_escrows c env a x s s' e) t
  invoke-IsSolid env (withdraw_call a) s s' p v e = bind_then (withdraw c env a s) _ e λ out h e₁.
      let q : out.1 ≡ s' = cc in
      let (r, n, t) = withdraw_escrows c env a (out.0) s (out.1) h in
      rw (← q) (
        same_escrows c laws env s (out.1) v
          (withdraw-IsBalanced c env a (out.0) s (out.1) v.balanced h)
          (withdraw-IsBacked c laws env a (out.0) s (out.1) v.backed v.balanced h) r n t)
  invoke-IsSolid env (withdraw_amount_call a x) s s' p v e =
      bind_then (withdraw_amount c env a x s) _ e λ out h e₁.
        let q : out.1 ≡ s' = cc in
        let (r, n, t) = withdraw_amount_escrows c env a x (out.0) s (out.1) h in
        rw (← q) (
          same_escrows c laws env s (out.1) v
            (withdraw_amount-IsBalanced c env a x (out.0) s (out.1) v.balanced h)
            (withdraw_amount-IsBacked c laws env a x (out.0) s (out.1) v.backed v.balanced h) r n t)
  invoke-IsSolid env (entry_call d b x n) s s' (_, ne) v e =
      bind_then (create_escrow_entry c env d b x n s) _ e λ out h e₁.
        let q : out.1 ≡ s' = cc in
        rw (← q) (create_escrow_entry-IsSolid c laws env d b n (out.0) x s (out.1) v ne h)
  invoke-IsSolid env (release_call a k) s s' p v e =
      release_escrow_entry-IsSolid c laws env a k s s' v e
  invoke-IsSolid env (refund_call a k) s s' p v e =
      refund_escrow_entry-IsSolid c laws env a k s s' v e
  invoke-IsSolid env (payout_call a ps) s s' p v e = absurd p

  -- At the contract's own address.
  invoke_at :
      (me : Address) (env : Env) (k : Call) (s s' : Gateway T)
      → IsPlain me env k
      → IsSolid c me s
      → invoke c env k s ≡ ok s'
      → IsSolid c me s'
  invoke_at me env k s s' p v e =
      let (at, p') = IsPlain-self me env k p in rw at (invoke-IsSolid env k s s' p' (rw (← at) v) e)

  -- With the token laws: after any sequence of fee changes, deposits, withdrawals and escrow calls
  -- of the payments contract at one address, none of which draws on its own tokens, its books are
  -- balanced, its balance of its token covers the accounts and the active escrows, and the escrows
  -- are numbered and in that token, if so before.
  pub run-IsSolid :
      (me : Address) (ks : List (Env × Call)) (s : Gateway T)
      → ArePlain me ks
      → IsSolid c me s
      → IsSolid c me (run c ks s)
  unfolding ArePlain run
  run-IsSolid me [] s p v = v
  run-IsSolid me ((env, k) ∷ ks) s (p, ps) v =
      run-IsSolid me ks (commit s (invoke c env k s)) ps
        (commit_keeps (IsSolid c me) (invoke c env k s) s v λ t e. invoke_at me env k s t p v e)
