-- ===== src/Gateway/Accounts.antt =====
-- The accounts of the payments contract: deposits and withdrawals keep the recorded total equal to
-- the sum of the balances, and the contract holds the tokens that it owes.
use trellis_contracts.Shared.Errors.{
  payment_invalid_amount, payment_insufficient_balance, not_found,
}
use trellis_contracts.Shared.Payments.{calculate_fee_split, safe_transfer_from_contract}
use trellis_contracts.Host.Token.{Token}
use trellis_contracts.Prelude.{
  ◌-ℤ◌, ltb_ℤ, leb_ℤ, checked_sub, ◌⊎◌, List, ◌≡◌, inl, inr, true, some, arith, Option-cases,
  unwrap_or, lookup, insert, total, itself, AllNonneg, insert-AllNonneg, lookup-le-total,
  total-insert-itself, ℤ, int_laws, ◌+ℤ◌, ◌≤ℤ◌, i128_max, checked_add, pos,
}
use trellis_contracts.Host.{
  require_auth, fail_if, bind_then, ok_or-eq_ok, ok_or, Event, Env, Address, ok,
}
use trellis_contracts.Gateway.{
  withdraw_amount, withdraw, sub_or_zero, purse, pay_positive, pay_out, Gateway, balance_of,
  total_deposits, deposit,
}

module _ {T : Type 0} (c : Token T) where
  -- No account is negative, and `TOTAL_DEPOSITS` is the sum of the accounts and an `i128`.
  pub record IsBalanced (s : Gateway T) : Type 0 where
    pub nonneg : AllNonneg s.depos
    pub summed : total itself s.depos ≡ total_deposits c s
    pub range : total_deposits c s ≤ℤ i128_max

  -- A deposit that goes through credits the account and the total with the amount.
  pub deposit_effect :
      (env : Env) (from : Address) (amount : ℤ) (s s' : Gateway T)
      → deposit c env from amount s ≡ ok s'
      → (token : Address) × (s.token_key ≡ some token)
        × (pos 1 ≤ℤ amount)
        × (env.authorized from ≡ true)
        × (c.transfer token from env.current_contract_address amount s.escrows.ledger
            ≡ some s'.escrows.ledger)
        × (s'.depos ≡ insert from (balance_of c from s +ℤ amount) s.depos)
        × (total_deposits c s' ≡ total_deposits c s +ℤ amount)
        × (total_deposits c s' ≤ℤ i128_max)
        × (s'.escrows.esc_rec ≡ s.escrows.esc_rec)
        × (s'.token_key ≡ s.token_key)
  unfolding deposit checked_add
  deposit_effect env from amount s s' e = elim (Option-cases s.token_key) [
    | inl unset ↦ absurd (ground arith)
    | inr (token, set) ↦
        elim (Option-cases
          (c.transfer token from env.current_contract_address amount s.escrows.ledger)) [
            | inl refused ↦ absurd (ground arith)
            | inr (l, paid) ↦ (
              token,
              set,
              ground arith,
              ground arith,
              ground arith,
              ground arith,
              ground arith,
              ground arith,
              ground arith,
              ground arith,
            )
          ]
  ]

  -- A deposit keeps no account negative and TOTAL_DEPOSITS the sum of the accounts, within i128.
  pub deposit-IsBalanced :
      (env : Env) (from : Address) (amount : ℤ) (s s' : Gateway T)
      → IsBalanced s
      → deposit c env from amount s ≡ ok s'
      → IsBalanced s'
  unfolding balance_of
  deposit-IsBalanced env from amount s s' v e =
      let (token, set, p, signed, paid, after, sum, fits, _, _) =
        deposit_effect env from amount s s' e in
      let b = unwrap_or (lookup from s.depos) (pos 0) in
      let old = lookup-le-total from s.depos v.nonneg in
      record {
        nonneg = rw after (insert-AllNonneg from (b +ℤ amount) s.depos v.nonneg (omega int_laws));
        summed =
            rw after
              (grind (int_laws, sum, v.summed, total-insert-itself from (b +ℤ amount) s.depos));
        range = fits;
      }

  -- A payout of shared::payments that goes through moved the amount, or had nothing to move.
  pub pay_positive_effect :
      (env : Env) (token to : Address) (x : ℤ) (p p' : T × List Event)
      → pay_positive c env token to x p ≡ ok p'
      → ((pos 1 ≤ℤ x) × (c.transfer token env.current_contract_address to x p.0 ≡ some p'.0))
        ⊎ ((x ≤ℤ pos 0) × (p' ≡ p))
  unfolding safe_transfer_from_contract
  pay_positive_effect env token to x p p' e =
      elim (Option-cases (c.transfer token env.current_contract_address to x p.0)) [
        | inl refused ↦ ground arith
        | inr (l, paid) ↦ ground arith
      ]

  -- What a payout out of an account has done.
  pub pay_out_effect :
      (env : Env) (who : Address) (amount remaining net : ℤ) (s s' : Gateway T)
      → pay_out c env who amount remaining s ≡ ok (net, s')
      → (token : Address) × (recipient : Address) × (fee : ℤ) × (p₁ p₂ : T × List Event)
        × (s.token_key ≡ some token)
        × (calculate_fee_split amount (unwrap_or s.fee_rt (pos 0)) ≡ ok (fee, net))
        × (pay_positive c env token recipient fee (purse c s) ≡ ok p₁)
        × (pay_positive c env token who net p₁ ≡ ok p₂)
        × (s'.escrows.ledger ≡ p₂.0)
        × (s'.depos ≡ insert who remaining s.depos)
        × (total_deposits c s' ≡ sub_or_zero (total_deposits c s) amount)
        × (s'.escrows.esc_rec ≡ s.escrows.esc_rec)
        × (s'.token_key ≡ s.token_key)
  unfolding pay_out
  pay_out_effect env who amount remaining net s s' e =
      bind_then (ok_or s.token_key not_found) _ e λ token h₁ e₁.
        bind_then (ok_or s.fee_rcp not_found) _ e₁ λ recipient h₂ e₂.
          bind_then (calculate_fee_split amount (unwrap_or s.fee_rt (pos 0))) _ e₂ λ split h₃ e₃.
            bind_then (pay_positive c env token recipient split.0 (purse c s)) _ e₃ λ p₁ h₄ e₄.
              bind_then (pay_positive c env token who split.1 p₁) _ e₄ λ p₂ h₅ e₅.
                let n : split.1 ≡ net = cc in
                (
                  token,
                  recipient,
                  split.0,
                  p₁,
                  p₂,
                  ok_or-eq_ok s.token_key not_found h₁,
                  rw (← n) h₃,
                  h₄,
                  rw (← n) h₅,
                  ground arith,
                  ground arith,
                  ground arith,
                  ground arith,
                  ground arith,
                )

  -- A payout of part of an account keeps the books balanced.
  pub pay_out-IsBalanced :
      (env : Env) (who : Address) (amount remaining net : ℤ) (s s' : Gateway T)
      → IsBalanced s
      → pos 0 ≤ℤ amount
      → pos 0 ≤ℤ remaining
      → balance_of c who s ≡ remaining +ℤ amount
      → pay_out c env who amount remaining s ≡ ok (net, s')
      → IsBalanced s'
  unfolding balance_of checked_sub
  pay_out-IsBalanced env who amount remaining net s s' v a r b e =
      let (_, _, _, _, _, _, _, _, _, _, after, sum, _, _) =
        pay_out_effect env who amount remaining net s s' e in
      let old = lookup-le-total who s.depos v.nonneg in
      let new = total-insert-itself who remaining s.depos in
      record {
        nonneg = rw after (insert-AllNonneg who remaining s.depos v.nonneg r);
        summed = rw after (grind (int_laws, sum, v.summed, v.range, new, old, b));
        range = grind (int_laws, sum, v.summed, v.range, old, b);
      }

  -- Withdrawing everything keeps no account negative and TOTAL_DEPOSITS the sum of the accounts.
  pub withdraw-IsBalanced :
      (env : Env) (who : Address) (net : ℤ) (s s' : Gateway T)
      → IsBalanced s
      → withdraw c env who s ≡ ok (net, s')
      → IsBalanced s'
  unfolding withdraw total_deposits
  withdraw-IsBalanced env who net s s' v e =
      let b = balance_of c who s in
      bind_then (require_auth env who) _ e λ _ _ e₁.
        bind_then (fail_if (leb_ℤ b (pos 0)) payment_insufficient_balance) _ e₁ λ _ h e₂.
          bind_then (pay_out c env who b (pos 0) s) _ e₂ λ out h₃ e₃.
            let w =
              pay_out-IsBalanced env who b (pos 0) out.0 s out.1 v (ground arith) (omega arith)
                (omega int_laws) h₃ in
            let d : s'.depos ≡ out.1.depos = ground arith in
            let t : s'.t_depo ≡ out.1.t_depo = ground arith in
            record { nonneg = rw d w.nonneg; summed = rw (d, t) w.summed; range = rw t w.range }

  -- Withdrawing an amount keeps no account negative and TOTAL_DEPOSITS the sum of the accounts.
  pub withdraw_amount-IsBalanced :
      (env : Env) (who : Address) (amount net : ℤ) (s s' : Gateway T)
      → IsBalanced s
      → withdraw_amount c env who amount s ≡ ok (net, s')
      → IsBalanced s'
  unfolding withdraw_amount
  withdraw_amount-IsBalanced env who amount net s s' v e =
      let b = balance_of c who s in
      bind_then (fail_if (leb_ℤ amount (pos 0)) payment_invalid_amount) _ e λ _ h e₁.
        bind_then (require_auth env who) _ e₁ λ _ _ e₂.
          bind_then (fail_if (ltb_ℤ b amount) payment_insufficient_balance) _ e₂ λ _ h₂ e₃.
            pay_out-IsBalanced env who amount (b -ℤ amount) net s s' v (ground arith)
              (grind int_laws) (omega int_laws) e₃
