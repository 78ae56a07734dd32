-- ===== src/Treasury/Tests.antt =====
-- Runs of the treasury, and its theorems at concrete histories.
use trellis_contracts.Prelude.{
  false, symbol_short, ◌≡◌, refl, ◌↔◌, true, some, List, [], ◌∷◌, arith, ◌==◌, if◌then◌else◌,
  lookup, insert, total, itself, ◌+ℤ◌, ◌-ℤ◌, ◌≤ℤ◌, pos,
}
use trellis_contracts.Host.{Env, commit, ok, err}
use trellis_contracts.Host.Sample.{env_of}
use trellis_contracts.Shared.Auth.{has_role, treasury_manager, set_admin, set_role}
use trellis_contracts.Shared.Events.{emit_action_executed, emit_permission_changed}
use trellis_contracts.Shared.Errors.{insufficient_balance, not_paused}
use trellis_contracts.Treasury.{
  add_treasury_manager, remove_treasury_manager, set_withdrawal_limit, Treasury, deployed,
  initialize, deposit, withdraw, emergency_withdraw, distribute_reward, set_referral_contract,
  category_balance, withdrawal_limit, rewards_category, done, manager_changed, referral_contract,
}
use trellis_contracts.Treasury.Calls.{
  add_manager_call, remove_manager_call, set_limit_call, Call, invoke, run, initialize_call,
  deposit_call, withdraw_call, set_referral_call,
}
use trellis_contracts.Treasury.Balances.{IsFunded, invoke-IsFunded, flow, invoke_conserves}
use trellis_contracts.Treasury.Withdrawals.{withdraw_iff, deposit-withdraw}
use trellis_contracts.Treasury.Authority.{MaySpend, spend_needs_authority}
use trellis_contracts.Treasury.History.{run_conserves, net_flow, emergency_withdraw_never}

abbrev history : List (Env × Call)
history =
    (env_of 1, initialize_call 1 (pos 40))
    ∷ (env_of 1, deposit_call 1 9 (pos 50))
    ∷ (env_of 1, withdraw_call 1 3 (pos 20) 9)
    ∷ (env_of 2, withdraw_call 2 2 (pos 10) 9)
    ∷ []

-- One manager, a limit of 40, and 50 in the category 9.
abbrev stocked : Treasury
stocked = record deployed {
  auth = set_role 1 treasury_manager (set_admin 1 deployed.auth);
  cat_bal = (9, pos 50) ∷ [];
  max_wd = some (pos 40);
}

abbrev after : Call → Treasury
after call = commit stocked (invoke (env_of 1) call stocked)

deployed-IsFunded : IsFunded deployed.cat_bal
unfolding lookup
deployed-IsFunded k = (omega arith, omega arith)

stocked-IsFunded : IsFunded stocked.cat_bal
unfolding lookup
stocked-IsFunded k = ground arith

history_balance : category_balance 9 (run history deployed) ≡ pos 30
unfolding run category_balance lookup invoke withdraw deposit initialize
    trellis_contracts.Prelude.checked_add ◌+ℤ◌ insert ◌-ℤ◌
history_balance = refl

done_event : done (env_of 1) 7 1 ≡ emit_action_executed (symbol_short "treasury") 7 1 true 7
unfolding done
done_event = refl

manager_event :
    manager_changed (env_of 1) 4 true
    ≡ emit_permission_changed (symbol_short "treasury") (symbol_short "manager") 4 true 7
unfolding manager_changed
manager_event = refl

set_manager : has_role (after (add_manager_call 1 4)).auth 4 treasury_manager ≡ true
unfolding invoke add_treasury_manager has_role set_admin
set_manager = refl

unset_manager : has_role (after (remove_manager_call 1 1)).auth 1 treasury_manager ≡ false
unfolding invoke remove_treasury_manager has_role set_role set_admin
unset_manager = refl

limit_changed : withdrawal_limit (after (set_limit_call 1 (pos 70))) ≡ pos 70
unfolding invoke set_withdrawal_limit withdrawal_limit set_role set_admin
limit_changed = refl

reward_unregistered : distribute_reward (env_of 1) 3 (pos 5) stocked ≡ err insufficient_balance
unfolding distribute_reward rewards_category lookup
reward_unregistered = refl

referral_registered : referral_contract (after (set_referral_call 1 6)) ≡ some 6
unfolding invoke set_referral_contract referral_contract set_role set_admin
referral_registered = refl

invoke-IsFunded_example : IsFunded (after (withdraw_call 1 3 (pos 20) 9)).cat_bal
unfolding invoke withdraw lookup set_role
invoke-IsFunded_example =
    invoke-IsFunded (env_of 1) (withdraw_call 1 3 (pos 20) 9) stocked
      (after (withdraw_call 1 3 (pos 20) 9)) stocked-IsFunded refl

invoke_conserves_example :
    total itself (after (withdraw_call 1 3 (pos 20) 9)).cat_bal
    ≡ total itself stocked.cat_bal +ℤ flow (withdraw_call 1 3 (pos 20) 9)
unfolding invoke withdraw lookup set_role
invoke_conserves_example =
    invoke_conserves (env_of 1) (withdraw_call 1 3 (pos 20) 9) stocked
      (after (withdraw_call 1 3 (pos 20) 9)) refl

run_conserves_example :
    total itself (run history deployed).cat_bal
    ≡ total itself deployed.cat_bal +ℤ net_flow history deployed
run_conserves_example = run_conserves history deployed

emergency_withdraw_never_example :
    emergency_withdraw (env_of 1) 1 2 (pos 5) (run history deployed) ≡ err not_paused
emergency_withdraw_never_example =
    emergency_withdraw_never history (env_of 1) 1 2 (pos 5) (omega arith)

withdraw_iff_example : ((s' : Treasury) × (withdraw (env_of 1) 1 3 (pos 20) 9 stocked ≡ ok s')) ↔ (
    (pos 1 ≤ℤ pos 20)
    × (pos 20 ≤ℤ withdrawal_limit stocked)
    × (pos 20 ≤ℤ category_balance 9 stocked)
    × (has_role stocked.auth 1 treasury_manager ≡ true)
    × ((env_of 1).authorized 1 ≡ true))
withdraw_iff_example = withdraw_iff (env_of 1) 1 3 (pos 20) 9 stocked

deposit-withdraw_example :
    (s'' : Treasury) × (withdraw (env_of 1) 1 3 (pos 25) 9 (after (deposit_call 1 9 (pos 25)))
      ≡ ok s'')
    × (category_balance 9 s'' ≡ category_balance 9 stocked)
unfolding invoke deposit withdrawal_limit set_role trellis_contracts.Prelude.checked_add ◌+ℤ◌ lookup
deposit-withdraw_example =
    deposit-withdraw (env_of 1) 1 3 (pos 25) 9 9 stocked (after (deposit_call 1 9 (pos 25)))
      stocked-IsFunded (omega arith) refl

spend_needs_authority_example : MaySpend (env_of 1) 9 stocked (withdraw_call 1 3 (pos 20) 9)
unfolding invoke withdraw category_balance lookup insert ◌-ℤ◌ set_role
spend_needs_authority_example =
    spend_needs_authority (env_of 1) 9 (withdraw_call 1 3 (pos 20) 9) stocked
      (after (withdraw_call 1 3 (pos 20) 9)) stocked-IsFunded refl (omega arith)
