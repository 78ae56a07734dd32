-- ===== src/Governance/Once.antt =====
-- A governance proposal that was executed stays executed, whatever is invoked afterwards.
use trellis_contracts.Governance.Params.{validate_param}
use trellis_contracts.Prelude.{ℕ, ◌≡◌, refl, ◌∙◌, inl, inr, some, List, arith, ◌==◌, Bool-cases}
use trellis_contracts.Host.{Env, Address, bind_then, ok}
use trellis_contracts.Governance.{
  Proposal, Governance, require_admin_role, require_governance, initialize, grant_role, revoke_role,
  set_admin_set, propose, approve, execute, set_param, executed,
}
use trellis_contracts.Governance.Calls.{
  Call, invoke, run, run_keeps, initialize_call, grant_role_call, revoke_role_call,
  set_admin_set_call, propose_call, approve_call, execute_call, set_param_call,
}
use trellis_contracts.Governance.Execution.{execute_needs_threshold, executed_closed}
use trellis_contracts.Governance.Approvals.{
  IsTallied, propose_effect, approve_effect, execute_effect, invoke-IsTallied,
}

-- The proposal is stored as executed, in a tallied state.
record IsDone (i : ℕ) (s : Governance) : Type 0 where
  tallied : IsTallied s
  proposal : Proposal
  stored : s.proposal i ≡ some proposal
  done : proposal.status ≡ executed

-- What a call leaves of an executed proposal.
invoke-kept :
    (i : ℕ) (env : Env) (c : Call) (s s' : Governance)
    → IsDone i s
    → invoke env c s ≡ ok s'
    → s'.proposal i ≡ s.proposal i
unfolding invoke initialize grant_role revoke_role set_admin_set set_param
invoke-kept i env (initialize_call a t as') s s' v e = ground arith
invoke-kept i env (grant_role_call c u r) s s' v e =
    bind_then (require_admin_role env s.auth c) _ e λ _ _ e₁. ground arith
invoke-kept i env (revoke_role_call c u r) s s' v e =
    bind_then (require_admin_role env s.auth c) _ e λ _ _ e₁. ground arith
invoke-kept i env (set_admin_set_call c as' t) s s' v e =
    bind_then (require_admin_role env s.auth c) _ e λ _ _ e₁. ground arith
invoke-kept i env (set_param_call c key x) s s' v e =
    bind_then (require_governance env s.auth c) _ e
      λ _ _ e₁. bind_then (validate_param key x) _ e₁ λ u h e₂. ground arith
invoke-kept i env (propose_call c a) s s' v e = bind_then (propose env c a s) _ e λ out h e₁.
    let same : out.1 ≡ s' = ground arith in
    let (p, n, zero', cnt, props, app) = propose_effect env c a (out.0) s (out.1) h in
    let stored = v.stored in rw (← same) (ground (arith, props, n, stored, v.tallied.fresh i))
invoke-kept i env (approve_call c j) s s' v e = elim (Bool-cases (i == j)) [
  | inl same ↦
      let q : i ≡ j = ground arith in
      let shut = executed_closed env c i s v.proposal v.stored v.done in
      absurd (shut.1 (s', rw (← q) at e))
  | inr other ↦
      let (p, found, new, cnt, props, app) = approve_effect env c j s s' e in ground (arith, props)
]
invoke-kept i env (execute_call c j) s s' v e = elim (Bool-cases (i == j)) [
  | inl same ↦
      let q : i ≡ j = ground arith in
      let shut = executed_closed env c i s v.proposal v.stored v.done in
      absurd (shut.0 (s', rw (← q) at e))
  | inr other ↦
      let (p, found, cnt, props, app) = execute_effect env c j s s' e in ground (arith, props)
]

run-IsDone : (i : ℕ) (cs : List (Env × Call)) (s : Governance) → IsDone i s → IsDone i (run cs s)
run-IsDone i cs s v =
    run_keeps (IsDone i)
      (λ env c t t' w e. record {
        tallied = invoke-IsTallied env c t t' w.tallied e;
        proposal = w.proposal;
        stored = invoke-kept i env c t t' w e ∙ w.stored;
        done = w.done;
      })
      cs s v

-- In a tallied state (no proposal beyond the counter, each count the number of its ballot): after
-- a proposal was executed, no sequence of governance invocations leads to a state in which anybody
-- can execute or approve it again.
pub execute_once :
    (env env' : Env) (c c' : Address) (i : ℕ) (s s' : Governance) (cs : List (Env × Call))
    → IsTallied s
    → execute env c i s ≡ ok s'
    → (¬ ((t : Governance) × (execute env' c' i (run cs s') ≡ ok t)))
      × (¬ ((t : Governance) × (approve env' c' i (run cs s') ≡ ok t)))
unfolding invoke
execute_once env env' c c' i s s' cs v e =
    let (p, _, _, _, _, _, after) = execute_needs_threshold env c i i s s' e in
    let last = run-IsDone i cs s' (record {
      tallied = invoke-IsTallied env (execute_call c i) s s' v e;
      proposal = record p { status = executed };
      stored = ground (arith, after);
      done = refl;
    }) in
    executed_closed env' c' i (run cs s') last.proposal last.stored last.done
