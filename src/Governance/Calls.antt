-- ===== src/Governance/Calls.antt =====
-- The entry points of the governance contract that change its state, as calls, and sequences.
use trellis_contracts.Prelude.{ℕ, ◌≡◌, List, [], ◌∷◌, ℤ}
use trellis_contracts.Host.{Env, Result, Address, ◌>>=◌, commit, commit_keeps, ok}
use trellis_contracts.Shared.Errors.{Error}
use trellis_contracts.Shared.Auth.{Role}
use trellis_contracts.Governance.Params.{ParameterKey}
use trellis_contracts.Governance.{
  grant_role, revoke_role, ProposalAction, Governance, initialize, set_admin_set, propose, approve,
  execute, set_param,
}

pub data Call : Type 0 where
  initialize_call : Address → ℕ → List Address → Call
  grant_role_call revoke_role_call : Address → Address → Role → Call
  set_admin_set_call : Address → List Address → ℕ → Call
  propose_call : Address → ProposalAction → Call
  approve_call execute_call : Address → ℕ → Call
  set_param_call : Address → ParameterKey → ℤ → Call

unfoldable pub invoke : Env → Call → Governance → Result Error Governance
invoke env (initialize_call a t as') s = initialize env a t as' s
invoke env (grant_role_call c u r) s = grant_role env c u r s
invoke env (revoke_role_call c u r) s = revoke_role env c u r s
invoke env (set_admin_set_call c as' t) s = set_admin_set env c as' t s
invoke env (propose_call c a) s = propose env c a s >>= λ out. ok (out.1)
invoke env (approve_call c i) s = approve env c i s
invoke env (execute_call c i) s = execute env c i s
invoke env (set_param_call c k v) s = set_param env c k v s

-- The state after a sequence of invocations, each in its own environment.
unfoldable pub run : List (Env × Call) → Governance → Governance
run [] s = s
run ((env, c) ∷ cs) s = run cs (commit s (invoke env c s))

-- What every successful call keeps holds after every sequence of invocations.
pub run_keeps :
    (P : Governance → Type 0)
    → ((env : Env) (c : Call) (s s' : Governance) → P s → invoke env c s ≡ ok s' → P s')
    → (cs : List (Env × Call)) (s : Governance) → P s
    → P (run cs s)
unfolding run
run_keeps P keep [] s h = h
run_keeps P keep ((env, c) ∷ cs) s h =
    run_keeps P keep cs _ (commit_keeps P (invoke env c s) s h λ s' e. keep env c s s' h e)
