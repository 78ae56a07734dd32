-- ===== src/Governance/Execution.antt =====
-- The execution of governance proposals: what it takes, and that it closes the proposal.
use trellis_contracts.Prelude.{ℕ, ◌≤◌, ◌≡◌, true, not, some, arith, ltb, ◌==◌, if◌then◌else◌}
use trellis_contracts.Host.{Env, Address, fail_if, ok_or, ok_or-eq_ok, bind_then, ok}
use trellis_contracts.Shared.Errors.{already_executed, below_threshold, proposal_not_found}
use trellis_contracts.Governance.{
  Governance, Proposal, ProposalAction, set_parameter, execute_action, execute, approve,
  get_threshold, is_pending, pending, executed, require_admin_role,
}
use trellis_contracts.Governance.Params.{validate_param}
use trellis_contracts.Shared.Auth.{has_role, require_role, admin}

pub execute_action-proposal :
    (a : ProposalAction) (s t : Governance) → execute_action a s ≡ ok t → t.proposal ≡ s.proposal
unfolding execute_action
execute_action-proposal (set_parameter key v) s t e =
    bind_then (validate_param key v) _ e λ u h f. ground arith
execute_action-proposal a s t e = ground arith

-- A proposal that is executed was pending with at least the threshold of approvals, an authorised
-- admin executed it, and afterwards it is stored as executed while no other proposal has changed.
pub execute_needs_threshold :
    (env : Env) (c : Address) (i j : ℕ) (s s' : Governance)
    → execute env c i s ≡ ok s'
    → (p : Proposal) × (s.proposal i ≡ some p)
      × (p.status ≡ pending)
      × (get_threshold s ≤ p.approval_count)
      × (has_role s.auth c admin ≡ true)
      × (env.authorized c ≡ true)
      × (s'.proposal j ≡ (if j == i then some (record p { status = executed }) else s.proposal j))
unfolding execute require_admin_role require_role
execute_needs_threshold env c i j s s' e = bind_then (require_admin_role env s.auth c) _ e λ _ g e₁.
    bind_then (ok_or (s.proposal i) proposal_not_found) _ e₁ λ p q e₂.
      bind_then (fail_if (not (is_pending p.status)) already_executed) _ e₂ λ _ w e₃.
        bind_then (fail_if (ltb p.approval_count (get_threshold s)) below_threshold) _ e₃ λ _ b e₄.
          bind_then (execute_action p.action s) _ e₄ λ t h e₅. (
            p,
            ok_or-eq_ok (s.proposal i) proposal_not_found q,
            ground arith,
            ground arith,
            ground arith,
            ground arith,
            ground (arith, execute_action-proposal p.action s t h),
          )

-- A stored proposal that was executed can be neither executed nor approved.
pub executed_closed :
    (env : Env) (c : Address) (i : ℕ) (s : Governance) (p : Proposal)
    → s.proposal i ≡ some p
    → p.status ≡ executed
    → (¬ ((t : Governance) × (execute env c i s ≡ ok t)))
      × (¬ ((t : Governance) × (approve env c i s ≡ ok t)))
unfolding execute approve
executed_closed env c i s p q x = (
  λ (t, e). bind_then (require_admin_role env s.auth c) _ e λ _ _ e₁. ground arith,
  λ (t, e). bind_then (require_admin_role env s.auth c) _ e λ _ _ e₁. ground arith,
)
