-- ===== src/Treasury/Calls.antt =====
-- The entry points of the treasury as calls, and the state after a sequence of invocations.
use trellis_contracts.Prelude.{List, [], ◌∷◌, ℤ}
use trellis_contracts.Host.{commit, Env, Result, Address, Symbol}
use trellis_contracts.Shared.Errors.{Error}
use trellis_contracts.Treasury.{
  Treasury, initialize, add_treasury_manager, remove_treasury_manager, set_withdrawal_limit,
  deposit, withdraw, emergency_withdraw, set_referral_contract, distribute_reward,
}

pub data Call : Type 0 where
  initialize_call : Address → ℤ → Call
  add_manager_call remove_manager_call : Address → Address → Call
  set_limit_call : Address → ℤ → Call
  deposit_call : Address → Symbol → ℤ → Call
  withdraw_call : Address → Address → ℤ → Symbol → Call
  emergency_call : Address → Address → ℤ → Call
  set_referral_call : Address → Address → Call
  reward_call : Address → ℤ → Call

unfoldable pub invoke : Env → Call → Treasury → Result Error Treasury
invoke env (initialize_call a l) s = initialize env a l s
invoke env (add_manager_call c w) s = add_treasury_manager env c w s
invoke env (remove_manager_call c w) s = remove_treasury_manager env c w s
invoke env (set_limit_call c l) s = set_withdrawal_limit env c l s
invoke env (deposit_call c k x) s = deposit env c k x s
invoke env (withdraw_call c to x k) s = withdraw env c to x k s
invoke env (emergency_call c to x) s = emergency_withdraw env c to x s
invoke env (set_referral_call c r) s = set_referral_contract env c r s
invoke env (reward_call to x) s = distribute_reward env to x s

-- The state after a sequence of invocations, each in its own environment.
unfoldable pub run : List (Env × Call) → Treasury → Treasury
run [] s = s
run ((env, c) ∷ cs) s = run cs (commit s (invoke env c s))
