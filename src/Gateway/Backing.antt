-- ===== src/Gateway/Backing.antt =====
-- The payments contract holds the tokens that it owes: the accounts and the active escrows.
use trellis_contracts.Shared.Errors.{payment_insufficient_balance, payment_invalid_amount}
use trellis_contracts.Host.Token.{Token, IsToken}
use trellis_contracts.Prelude.{
  ltb_ℤ, arith, leb_ℤ, lookup-le-total, i128_max, insert, ◌≡◌, sym, ◌∙◌, ◌≢◌, inl, inr, some, List,
  unwrap_or, lookup, total, itself, total-insert-itself, ℤ, int_laws, ◌+ℤ◌, ◌-ℤ◌, ◌≤ℤ◌, IsI128, pos,
}
use trellis_contracts.Host.{fail_if, require_auth, bind_then, Env, Event, Address, ok}
use trellis_contracts.Shared.Payments.Fees.{calculate_fee_split_exact}
use trellis_contracts.Shared.Payments.Escrows.{locked}
use trellis_contracts.Gateway.{
  withdraw_amount, withdraw, Gateway, purse, balance_of, deposit, pay_positive, pay_out,
}
use trellis_contracts.Gateway.Accounts.{
  IsBalanced, deposit_effect, pay_positive_effect, pay_out_effect,
}

-- Debts that fall by as much as two payouts together stay covered.
covered :
    (sum sum' rest old remaining amount fee net b b₁ b₂ : ℤ)
    → sum' +ℤ old ≡ sum +ℤ remaining
    → old ≡ remaining +ℤ amount
    → fee +ℤ net ≡ amount
    → sum +ℤ rest ≤ℤ b
    → b -ℤ fee ≤ℤ b₁
    → b₁ -ℤ net ≤ℤ b₂
    → sum' +ℤ rest ≤ℤ b₂
covered sum sum' rest old remaining amount fee net b b₁ b₂ h₁ h₂ h₃ h₄ h₅ h₆ = grind int_laws

module _ {T : Type 0} (c : Token T) where
  -- What the contract owes in the token `u`: the accounts and the active escrows in it.
  unfoldable pub owed : Address → Gateway T → ℤ
  owed u s = total itself s.depos +ℤ total (locked u) s.escrows.esc_rec

  -- The contract's balance of its token covers what it owes in it.
  abbrev pub IsBacked : Address → Gateway T → Type 0
  IsBacked self s =
      (u : Address) → s.token_key ≡ some u → owed u s ≤ℤ c.balance u self s.escrows.ledger

module _ {T : Type 0} (c : Token T) (laws : IsToken c) (env : Env) where
  abbrev self : Address
  self = env.current_contract_address

  -- With the token laws, a deposit into the payments contract by anybody but the contract itself
  -- keeps its token balance at least the sum of its accounts and its active escrows.
  pub deposit-IsBacked :
      (from : Address) (amount : ℤ) (s s' : Gateway T)
      → IsBacked c self s
      → from ≢ self
      → deposit c env from amount s ≡ ok s'
      → IsBacked c self s'
  unfolding owed balance_of
  deposit-IsBacked from amount s s' v ne e u k =
      let (token, set, p, signed, paid, after, sum, fits, same, key) =
        deposit_effect c env from amount s s' e in
      let t : token ≡ u = cc in
      let b = unwrap_or (lookup from s.depos) (pos 0) in
      let old = v u (sym key ∙ k) in
      let credit =
        laws.credits u from self amount s.escrows.ledger s'.escrows.ledger (rw (← t) paid)
          (λ q. ne (sym q)) in
      rw (after, same)
        (grind (int_laws, old, credit, total-insert-itself from (b +ℤ amount) s.depos))

  -- One payout takes at most its amount.
  pay_positive_debits :
      (token to : Address) (x : ℤ) (p p' : T × List Event)
      → pos 0 ≤ℤ x
      → pay_positive c env token to x p ≡ ok p'
      → c.balance token self p.0 -ℤ x ≤ℤ c.balance token self p'.0
  pay_positive_debits token to x p p' h e = elim (pay_positive_effect c env token to x p p' e) [
    | inl (_, moved) ↦ laws.debits token self to x p.0 p'.0 moved
    | inr (_, same) ↦ rw same (omega int_laws)
  ]

  -- A payout of `amount` out of an account keeps the debts covered.
  pay_out-IsBacked :
      (who : Address) (amount remaining net : ℤ) (s s' : Gateway T)
      → IsBacked c self s
      → IsI128 amount
      → balance_of c who s ≡ remaining +ℤ amount
      → pay_out c env who amount remaining s ≡ ok (net, s')
      → IsBacked c self s'
  unfolding owed balance_of
  pay_out-IsBacked who amount remaining net s s' v i b e u k =
      let (token, recipient, fee, p₁, p₂, set, split, paid₁, paid₂, after, depos, sum, same, key) =
        pay_out_effect c env who amount remaining net s s' e in
      let t : token ≡ u = cc in
      let old = v u (sym key ∙ k) in
      let exact = calculate_fee_split_exact amount (unwrap_or s.fee_rt (pos 0)) fee net i split in
      let d₁ = pay_positive_debits token recipient fee (purse c s) p₁ exact.1 paid₁ in
      let d₂ = pay_positive_debits token who net p₁ p₂ exact.2 paid₂ in
      let new = total-insert-itself who remaining s.depos in
      rw (after, depos, same)
        (covered (total itself s.depos) (total itself (insert who remaining s.depos))
          (total (locked u) s.escrows.esc_rec) (balance_of c who s) remaining amount fee net
          (c.balance u self s.escrows.ledger) (c.balance u self p₁.0) (c.balance u self p₂.0) new b
          exact.0 old (rw t at d₁) (rw t at d₂))

  -- In balanced books every account is an `i128` that is not negative.
  balance_range :
      (who : Address) (s : Gateway T)
      → IsBalanced c s
      → (pos 0 ≤ℤ balance_of c who s) × (balance_of c who s ≤ℤ i128_max)
  unfolding balance_of
  balance_range who s w =
      let p = lookup-le-total who s.depos w.nonneg in
      let r = rw (← w.summed) at w.range in (p.0, omega arith)

  -- With the token laws, a withdrawal of everything from a payments contract with balanced books
  -- keeps its token balance at least the sum of its accounts and its active escrows.
  pub withdraw-IsBacked :
      (who : Address) (net : ℤ) (s s' : Gateway T)
      → IsBacked c self s
      → IsBalanced c s
      → withdraw c env who s ≡ ok (net, s')
      → IsBacked c self s'
  unfolding withdraw owed
  withdraw-IsBacked who net s s' v w e =
      let b = balance_of c who s in
      let small = balance_range who s w in
      bind_then (require_auth env who) _ e λ _ _ e₁.
        bind_then (fail_if (leb_ℤ b (pos 0)) payment_insufficient_balance) _ e₁ λ _ h e₂.
          bind_then (pay_out c env who b (pos 0) s) _ e₂ λ out h₃ e₃.
            let backed =
              pay_out-IsBacked who b (pos 0) out.0 s out.1 v (omega arith) (omega int_laws) h₃ in
            let d : s'.depos ≡ out.1.depos = ground arith in
            let l : s'.escrows.ledger ≡ out.1.escrows.ledger = ground arith in
            let r : s'.escrows.esc_rec ≡ out.1.escrows.esc_rec = ground arith in
            let t : s'.token_key ≡ out.1.token_key = ground arith in
            λ u k. rw (d, l, r) (backed u (sym t ∙ k))

  -- With the token laws, a withdrawal of an amount from a payments contract with balanced books
  -- keeps its token balance at least the sum of its accounts and its active escrows.
  pub withdraw_amount-IsBacked :
      (who : Address) (amount net : ℤ) (s s' : Gateway T)
      → IsBacked c self s
      → IsBalanced c s
      → withdraw_amount c env who amount s ≡ ok (net, s')
      → IsBacked c self s'
  unfolding withdraw_amount
  withdraw_amount-IsBacked who amount net s s' v w e =
      let b = balance_of c who s in
      let small = balance_range who s w in
      bind_then (fail_if (leb_ℤ amount (pos 0)) payment_invalid_amount) _ e λ _ h e₁.
        bind_then (require_auth env who) _ e₁ λ _ _ e₂.
          bind_then (fail_if (ltb_ℤ b amount) payment_insufficient_balance) _ e₂ λ _ h₂ e₃.
            pay_out-IsBacked who amount (b -ℤ amount) net s s' v (ground arith) (omega int_laws) e₃
