-- ===== src/AccessControl/Calls.antt =====
-- The entry points of the access-control contract that change its state, as calls, and sequences of
-- invocations, each with its environment and its budget.
use trellis_contracts.Prelude.{ℕ, ◌≡◌, List, [], ◌∷◌}
use trellis_contracts.Host.{Env, Result, Address, commit, commit_keeps, ok}
use trellis_contracts.Host.{Symbol}
use trellis_contracts.AccessControl.{
  AccessControl, AccessControlError, initialize, add_admin, remove_admin, create_role,
  set_role_parent, grant_role, revoke_role,
}

pub data Call : Type 0 where
  initialize_call : Address → Call
  add_admin_call remove_admin_call : Address → Address → Call
  create_call : Address → Symbol → Call
  parent_call : Address → Symbol → Symbol → Call
  grant_call revoke_call : Address → Symbol → Address → Call

unfoldable pub invoke : ℕ → Env → Call → AccessControl → Result AccessControlError AccessControl
invoke budget env (initialize_call a) s = ok (initialize env a s)
invoke budget env (add_admin_call c a) s = add_admin env c a s
invoke budget env (remove_admin_call c a) s = remove_admin env c a s
invoke budget env (create_call c r) s = create_role env c r s
invoke budget env (parent_call c r p) s = set_role_parent budget env c r p s
invoke budget env (grant_call c r u) s = grant_role env c r u s
invoke budget env (revoke_call c r u) s = revoke_role env c r u s

-- The state after a sequence of invocations.
unfoldable pub run : List (ℕ × Env × Call) → AccessControl → AccessControl
run [] s = s
run ((budget, env, c) ∷ cs) s = run cs (commit s (invoke budget env c s))

-- What every successful call keeps holds after every sequence of invocations.
pub run_keeps :
    (P : AccessControl → Type 0)
    → ((n : ℕ) (env : Env) (c : Call) (s s' : AccessControl)
        → P s
        → invoke n env c s ≡ ok s'
        → P s')
    → (cs : List (ℕ × Env × Call)) (s : AccessControl) → P s
    → P (run cs s)
unfolding run
run_keeps P keep [] s h = h
run_keeps P keep ((n, env, c) ∷ cs) s h =
    run_keeps P keep cs _ (commit_keeps P (invoke n env c s) s h λ s' e. keep n env c s s' h e)
