-- ===== src/Treasury/Balances.antt =====
-- The balances of the treasury under every call: they stay in range, and their sum moves by what a
-- call brings in or pays out.
use trellis_contracts.Treasury.Calls.{
  set_referral_call, set_limit_call, remove_manager_call, add_manager_call, reward_call,
  emergency_call, initialize_call, withdraw_call, deposit_call, invoke, Call,
}
use trellis_contracts.Prelude.{
  false, total-insert, refl, itself, total, true, checked_sub, Bool, ◌-ℤ◌, ℕ, ◌≡◌, arith, unwrap_or,
  FinMap, lookup, insert, lookup-insert, ℤ, int_laws, ◌+ℤ◌, ◌≤ℤ◌, i128_max, checked_add, pos,
}
use trellis_contracts.Host.{Env, ok}
use trellis_contracts.Treasury.{
  set_referral_contract, set_withdrawal_limit, remove_treasury_manager, add_treasury_manager,
  reserve_category, rewards_category, initialize, withdraw, emergency_withdraw, distribute_reward,
  Treasury, deposit,
}

-- Every category's balance is from 0 to `i128::MAX`.
abbrev pub IsFunded : FinMap ℤ → Type 0
IsFunded m = (k : ℕ) → let x = unwrap_or (lookup k m) (pos 0) in (pos 0 ≤ℤ x) × (x ≤ℤ i128_max)

insert-IsFunded :
    (k : ℕ) (x : ℤ) (m : FinMap ℤ)
    → IsFunded m
    → pos 0 ≤ℤ x
    → x ≤ℤ i128_max
    → IsFunded (insert k x m)
insert-IsFunded k x m v l h j = ground (arith, lookup-insert k j x m, v j)

deposit-IsFunded :
    (env : Env) (a k : ℕ) (x : ℤ) (s s' : Treasury)
    → IsFunded s.cat_bal
    → deposit env a k x s ≡ ok s'
    → IsFunded s'.cat_bal
unfolding deposit checked_add
deposit-IsFunded env a k x s s' v e =
    let b = unwrap_or (lookup k s.cat_bal) (pos 0) in
    grind (int_laws, v k, insert-IsFunded k (b +ℤ x) s.cat_bal v)

withdraw-IsFunded :
    (env : Env) (a to : ℕ) (x : ℤ) (k : ℕ) (s s' : Treasury)
    → IsFunded s.cat_bal
    → withdraw env a to x k s ≡ ok s'
    → IsFunded s'.cat_bal
unfolding withdraw
withdraw-IsFunded env a to x k s s' v e =
    let b = unwrap_or (lookup k s.cat_bal) (pos 0) in
    grind (int_laws, v k, insert-IsFunded k (b -ℤ x) s.cat_bal v)

emergency_withdraw-IsFunded :
    (env : Env) (a to : ℕ) (x : ℤ) (s s' : Treasury)
    → IsFunded s.cat_bal
    → emergency_withdraw env a to x s ≡ ok s'
    → IsFunded s'.cat_bal
unfolding emergency_withdraw checked_sub
emergency_withdraw-IsFunded env a to x s s' v e =
    let b = unwrap_or (lookup reserve_category s.cat_bal) (pos 0) in
    grind (int_laws, v reserve_category, insert-IsFunded reserve_category (b -ℤ x) s.cat_bal v)

distribute_reward-IsFunded :
    (env : Env) (to : ℕ) (x : ℤ) (s s' : Treasury)
    → IsFunded s.cat_bal
    → distribute_reward env to x s ≡ ok s'
    → IsFunded s'.cat_bal
unfolding distribute_reward
distribute_reward-IsFunded env to x s s' v e =
    let b = unwrap_or (lookup rewards_category s.cat_bal) (pos 0) in
    grind (int_laws, v rewards_category, insert-IsFunded rewards_category (b -ℤ x) s.cat_bal v)

-- Calls that only configure the contract.
abbrev pub configures : Call → Bool
configures (initialize_call _ _) = true
configures (add_manager_call _ _) = true
configures (remove_manager_call _ _) = true
configures (set_limit_call _ _) = true
configures (deposit_call _ _ _) = false
configures (withdraw_call _ _ _ _) = false
configures (emergency_call _ _ _) = false
configures (set_referral_call _ _) = true
configures (reward_call _ _) = false

pub configures_cat_bal :
    (env : Env) (c : Call) (s s' : Treasury)
    → configures c ≡ true
    → invoke env c s ≡ ok s'
    → s'.cat_bal ≡ s.cat_bal
unfolding invoke initialize add_treasury_manager remove_treasury_manager set_withdrawal_limit
    set_referral_contract
configures_cat_bal env (initialize_call _ _) s s' h e = ground arith
configures_cat_bal env c s s' h e = ground arith

-- No call drives a balance out of range, whoever makes it.
pub invoke-IsFunded :
    (env : Env) (c : Call) (s s' : Treasury)
    → IsFunded s.cat_bal
    → invoke env c s ≡ ok s'
    → IsFunded s'.cat_bal
unfolding invoke
invoke-IsFunded env (deposit_call a k x) s s' v e = deposit-IsFunded env a k x s s' v e
invoke-IsFunded env (withdraw_call a to x k) s s' v e = withdraw-IsFunded env a to x k s s' v e
invoke-IsFunded env (emergency_call a to x) s s' v e =
    emergency_withdraw-IsFunded env a to x s s' v e
invoke-IsFunded env (reward_call to x) s s' v e = distribute_reward-IsFunded env to x s s' v e
invoke-IsFunded env c s s' v e = rw (configures_cat_bal env c s s' refl e) v

-- What a call adds to the sum of the balances when it succeeds.
pub flow : Call → ℤ
flow (deposit_call _ _ x) = x
flow (withdraw_call _ _ x _) = pos 0 -ℤ x
flow (emergency_call _ _ x) = pos 0 -ℤ x
flow (reward_call _ x) = pos 0 -ℤ x
flow (initialize_call _ _) = pos 0
flow (add_manager_call _ _) = pos 0
flow (remove_manager_call _ _) = pos 0
flow (set_limit_call _ _) = pos 0
flow (set_referral_call _ _) = pos 0

-- A successful call changes the sum of all balances by exactly its flow.
pub invoke_conserves :
    (env : Env) (c : Call) (s s' : Treasury)
    → invoke env c s ≡ ok s'
    → total itself s'.cat_bal ≡ total itself s.cat_bal +ℤ flow c
unfolding invoke flow deposit withdraw emergency_withdraw distribute_reward checked_add checked_sub
invoke_conserves env (deposit_call a k x) s s' e =
    let b = unwrap_or (lookup k s.cat_bal) (pos 0) in
    grind (int_laws, total-insert itself k (b +ℤ x) s.cat_bal)
invoke_conserves env (withdraw_call a to x k) s s' e =
    let b = unwrap_or (lookup k s.cat_bal) (pos 0) in
    grind (int_laws, total-insert itself k (b -ℤ x) s.cat_bal)
invoke_conserves env (emergency_call a to x) s s' e =
    let b = unwrap_or (lookup reserve_category s.cat_bal) (pos 0) in
    grind (int_laws, total-insert itself reserve_category (b -ℤ x) s.cat_bal)
invoke_conserves env (reward_call to x) s s' e =
    let b = unwrap_or (lookup rewards_category s.cat_bal) (pos 0) in
    grind (int_laws, total-insert itself rewards_category (b -ℤ x) s.cat_bal)
invoke_conserves env c s s' e = grind (int_laws, configures_cat_bal env c s s' refl e)
