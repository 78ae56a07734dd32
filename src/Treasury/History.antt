-- ===== src/Treasury/History.antt =====
-- What holds of the treasury after any sequence of invocations.
use trellis_contracts.Prelude.{
  ◌≡◌, refl, ◌∙◌, List, [], ◌∷◌, arith, total, itself, ℤ, int_laws, ◌+ℤ◌, ◌≤ℤ◌, pos,
}
use trellis_contracts.Host.{
  commit, commit_keeps, Env, Result, Address, ok, err, panic_with_error, trap,
}
use trellis_contracts.Shared.Errors.{Error, not_paused}
use trellis_contracts.Treasury.{
  Treasury, deployed, initialize, add_treasury_manager, remove_treasury_manager,
  set_withdrawal_limit, deposit, withdraw, emergency_withdraw, set_referral_contract,
  distribute_reward,
}
use trellis_contracts.Treasury.Calls.{Call, invoke, run, initialize_call}
use trellis_contracts.Treasury.Balances.{IsFunded, invoke-IsFunded, flow, invoke_conserves}

-- Every sequence of treasury invocations keeps every category between 0 and i128::MAX, if they
-- were before.
pub run-IsFunded :
    (cs : List (Env × Call)) (s : Treasury) → IsFunded s.cat_bal → IsFunded (run cs s).cat_bal
unfolding run
run-IsFunded [] s v = v
run-IsFunded ((env, c) ∷ cs) s v = run-IsFunded cs _ (
    commit_keeps (λ t. IsFunded t.cat_bal) (invoke env c s) s v
      (λ s' e. invoke-IsFunded env c s s' v e))

-- The flow of an invocation that succeeds; one that fails has none.
abbrev pub settled : Result Error Treasury → ℤ → ℤ
settled (ok _) x = x
settled (err _) x = pos 0
settled (panic_with_error _) x = pos 0
settled trap x = pos 0

-- The deposits less the payouts of the invocations that succeed.
unfoldable pub net_flow : List (Env × Call) → Treasury → ℤ
net_flow [] s = pos 0
net_flow ((env, c) ∷ cs) s =
    settled (invoke env c s) (flow c) +ℤ net_flow cs (commit s (invoke env c s))

commit_conserves :
    (env : Env) (c : Call) (s : Treasury)
    → total itself (commit s (invoke env c s)).cat_bal
      ≡ total itself s.cat_bal +ℤ settled (invoke env c s) (flow c)
commit_conserves env c s = go (invoke env c s) refl
  where
    go :
        (r : Result Error Treasury)
        → invoke env c s ≡ r
        → total itself (commit s r).cat_bal ≡ total itself s.cat_bal +ℤ settled r (flow c)
    go (ok s') e = invoke_conserves env c s s' e
    go (err _) e = omega int_laws
    go (panic_with_error _) e = omega int_laws
    go trap e = omega int_laws

-- After any sequence of invocations the treasury's balances sum up to what they were plus the
-- deposits less the payouts of the invocations that succeeded.
pub run_conserves :
    (cs : List (Env × Call)) (s : Treasury)
    → total itself (run cs s).cat_bal ≡ total itself s.cat_bal +ℤ net_flow cs s
unfolding run net_flow
run_conserves [] s = omega int_laws
run_conserves ((env, c) ∷ cs) s =
    let t = commit s (invoke env c s) in
    grind (int_laws, run_conserves cs t, commit_conserves env c s)

-- No call sets the pause flag.
invoke_paused_key :
    (env : Env) (c : Call) (s s' : Treasury)
    → invoke env c s ≡ ok s'
    → s'.auth.paused_key ≡ s.auth.paused_key
unfolding invoke initialize add_treasury_manager remove_treasury_manager set_withdrawal_limit
    set_referral_contract deposit withdraw emergency_withdraw distribute_reward
invoke_paused_key env (initialize_call _ _) s s' e = ground arith
invoke_paused_key env c s s' e = ground arith

run_paused_key :
    (cs : List (Env × Call)) (s : Treasury) → (run cs s).auth.paused_key ≡ s.auth.paused_key
unfolding run
run_paused_key [] s = refl
run_paused_key ((env, c) ∷ cs) s =
    run_paused_key cs _
    ∙ commit_keeps (λ t. t.auth.paused_key ≡ s.auth.paused_key) (invoke env c s) s refl
        (λ s' e. invoke_paused_key env c s s' e)

-- An emergency withdrawal of a positive amount is refused with NotPaused after every history of
-- the treasury, also for the admin.
pub emergency_withdraw_never :
    (cs : List (Env × Call)) (env : Env) (caller to : Address) (amount : ℤ)
    → pos 1 ≤ℤ amount
    → emergency_withdraw env caller to amount (run cs deployed) ≡ err not_paused
unfolding emergency_withdraw
emergency_withdraw_never cs env caller to amount h = ground (arith, run_paused_key cs deployed)
