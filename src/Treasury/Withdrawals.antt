-- ===== src/Treasury/Withdrawals.antt =====
-- What a withdrawal and a deposit do, on success and on each refusal.
use trellis_contracts.Shared.Events.{emit_treasury_withdrawal}
use trellis_contracts.Prelude.{
  ◌∷◌, +ℤ_cancel, symbol_short, ◌+ℤ◌, int_laws, insert, checked_add, ◌≡◌, ◌↔◌, true, arith, ◌==◌,
  if◌then◌else◌, lookup-insert, ℤ, ◌-ℤ◌, ◌≤ℤ◌, pos,
}
use trellis_contracts.Host.{Env, Address, Symbol, ok}
use trellis_contracts.Shared.Auth.{has_role, treasury_manager}
use trellis_contracts.Treasury.{
  done, Treasury, category_balance, withdrawal_limit, deposit, withdraw,
}
use trellis_contracts.Treasury.Balances.{IsFunded}

-- The state after a withdrawal of `amount` from the category `k`.
abbrev paid_out : Env → Address → Address → ℤ → Symbol → Treasury → Treasury
paid_out env caller to amount k s =
    let remaining = category_balance k s -ℤ amount in
    record s {
      cat_bal = insert k remaining s.cat_bal;
      events =
          done env (symbol_short "withdraw") caller
          ∷ emit_treasury_withdrawal k to amount remaining
          ∷ s.events;
    }

-- A treasury withdrawal succeeds exactly when the amount is positive and within the limit and the
-- balance, and an authorised manager asks for it.
pub withdraw_iff :
    (env : Env) (caller to : Address) (amount : ℤ) (k : Symbol) (s : Treasury)
    → ((s' : Treasury) × (withdraw env caller to amount k s ≡ ok s')) ↔ (
        (pos 1 ≤ℤ amount)
        × (amount ≤ℤ withdrawal_limit s)
        × (amount ≤ℤ category_balance k s)
        × (has_role s.auth caller treasury_manager ≡ true)
        × (env.authorized caller ≡ true))
unfolding withdraw
withdraw_iff env caller to amount k s =
    (λ (s', e). ground arith, λ h. (paid_out env caller to amount k s, ground arith))

-- A withdrawal takes the amount from its category and leaves every other category, the limit, the
-- admin and the roles alone.
pub withdraw_debits :
    (env : Env) (caller to : Address) (amount : ℤ) (k j : Symbol) (s s' : Treasury)
    → withdraw env caller to amount k s ≡ ok s'
    → (category_balance j s'
        ≡ (if j == k then category_balance k s -ℤ amount else category_balance j s))
      × (s'.max_wd ≡ s.max_wd)
      × (s'.auth ≡ s.auth)
      × (s'.ref_ctr ≡ s.ref_ctr)
unfolding withdraw
withdraw_debits env caller to amount k j s s' e =
    let b = category_balance k s -ℤ amount in ground (arith, lookup-insert k j b s.cat_bal)

-- With balances in range, what was deposited can be withdrawn by the same manager within the
-- limit, and then every category has the balance that it had.
pub deposit-withdraw :
    (env : Env) (caller to : Address) (amount : ℤ) (k j : Symbol) (s s' : Treasury)
    → IsFunded s.cat_bal
    → amount ≤ℤ withdrawal_limit s
    → deposit env caller k amount s ≡ ok s'
    → (s'' : Treasury) × (withdraw env caller to amount k s' ≡ ok s'')
      × (category_balance j s'' ≡ category_balance j s)
unfolding withdraw deposit checked_add
deposit-withdraw env caller to amount k j s s' v l e =
    let b = category_balance k s in
    (
      paid_out env caller to amount k s',
      grind (int_laws, v k, lookup-insert k k (b +ℤ amount) s.cat_bal),
      grind (
        int_laws,
        lookup-insert k j (b +ℤ amount -ℤ amount) s'.cat_bal,
        lookup-insert k j (b +ℤ amount) s.cat_bal,
        lookup-insert k k (b +ℤ amount) s.cat_bal,
        +ℤ_cancel b amount,
      ),
    )
