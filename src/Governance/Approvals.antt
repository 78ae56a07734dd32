-- ===== src/Governance/Approvals.antt =====
-- The approvals of governance proposals: the stored count is the number of distinct approvers.
use trellis_contracts.Prelude.{
  ◌≤◌, ℕ, ◌+◌, ◌-◌, ◌^◌, ◌<◌, ◌≡◌, refl, ◌∙◌, inl, inr, Bool, true, false, not, Option, none, some,
  List, [], ◌∷◌, arith, ltb, leb, ◌==◌, if◌then◌else◌, Bool-cases, unwrap_or, length, update,
  FinMap, lookup, insert, lookup-insert,
}
use trellis_contracts.Host.{Env, Address, fail_if, ok_or, ok_or-eq_ok, bind_then, ok}
use trellis_contracts.Shared.Errors.{
  already_approved, already_executed, proposal_not_found, overflow, below_threshold,
}
use trellis_contracts.Governance.{
  Governance, Proposal, initialize, grant_role, revoke_role, set_admin_set, propose, approve,
  execute, execute_action, set_param, get_threshold, is_pending, executed, pending,
  require_admin_role, require_governance, ProposalAction, set_parameter,
}
use trellis_contracts.Governance.Params.{validate_param}
use trellis_contracts.Governance.Calls.{
  Call, invoke, run, run_keeps, initialize_call, grant_role_call, revoke_role_call,
  set_admin_set_call, propose_call, approve_call, execute_call, set_param_call,
}
use trellis_contracts.Governance.Execution.{execute_action-proposal, execute_needs_threshold}

-- The approvals of one proposal: every entry is a yes, and no address has two.
abbrev pub IsBallot : FinMap Bool → Type 0
IsBallot [] = Unit {0}
IsBallot ((k, b) ∷ m) = (b ≡ true) × (lookup k m ≡ none) × IsBallot m

insert-IsBallot :
    (k : ℕ) (m : FinMap Bool)
    → IsBallot m
    → unwrap_or (lookup k m) false ≡ false
    → IsBallot (insert k true m) × (length (insert k true m) ≡ length m + 1)
unfolding lookup insert
insert-IsBallot k [] v h = ((refl, refl, tt), refl)
insert-IsBallot k ((j, b) ∷ m) v h =
    ground (arith, insert-IsBallot k m (v.2), lookup-insert k j true m)

abbrev approvals : Option Proposal → ℕ
approvals none = 0
approvals (some p) = p.approval_count

-- No proposal is stored beyond the counter, and each has as many approvals as its ballot.
pub record IsTallied (s : Governance) : Type 0 where
  pub fresh : (i : ℕ) → unwrap_or s.prop_cnt 0 < i → s.proposal i ≡ none
  pub counted : (i : ℕ) → approvals (s.proposal i) ≡ length (s.approval i)
  pub ballot : (i : ℕ) → IsBallot (s.approval i)

-- Calls that leave the proposals alone.
same_IsTallied :
    (s s' : Governance)
    → IsTallied s
    → s'.proposal ≡ s.proposal
    → s'.approval ≡ s.approval
    → s'.prop_cnt ≡ s.prop_cnt
    → IsTallied s'
same_IsTallied s s' v p a n = record {
  fresh = rw (p, n) v.fresh;
  counted = rw (p, a) v.counted;
  ballot = rw a v.ballot;
}

pub propose_effect :
    (env : Env) (c : Address) (a : ProposalAction) (n : ℕ) (s s' : Governance)
    → propose env c a s ≡ ok (n, s')
    → (p : Proposal) × (n ≡ unwrap_or s.prop_cnt 0 + 1)
      × (p.approval_count ≡ 0)
      × (s'.prop_cnt ≡ some n)
      × (s'.proposal ≡ update s.proposal n p)
      × (s'.approval ≡ s.approval)
unfolding propose
propose_effect env c a n s s' e = bind_then (require_admin_role env s.auth c) _ e λ _ _ e₁.
    bind_then (fail_if (leb (2 ^ 64 - 1) (unwrap_or s.prop_cnt 0)) overflow) _ e₁ λ _ _ e₂.
      let i = unwrap_or s.prop_cnt 0 + 1 in
      let p : Proposal = record {
        id = i;
        proposer = c;
        action = a;
        approval_count = 0;
        status = pending;
        created_at = env.timestamp;
      } in
      (p, ground arith, refl, ground arith, ground arith, ground arith)

pub approve_effect :
    (env : Env) (c : Address) (i : ℕ) (s s' : Governance)
    → approve env c i s ≡ ok s'
    → (p : Proposal) × (s.proposal i ≡ some p)
      × (unwrap_or (lookup c (s.approval i)) false ≡ false)
      × (s'.prop_cnt ≡ s.prop_cnt)
      × (s'.proposal ≡ update s.proposal i (record p { approval_count = p.approval_count + 1 }))
      × (s'.approval ≡ (λ j. if j == i then insert c true (s.approval i) else s.approval j))
unfolding approve
approve_effect env c i s s' e = bind_then (require_admin_role env s.auth c) _ e λ _ _ e₁.
    bind_then (ok_or (s.proposal i) proposal_not_found) _ e₁ λ p q e₂.
      bind_then (fail_if (not (is_pending p.status)) already_executed) _ e₂ λ _ _ e₃.
        bind_then (fail_if (unwrap_or (lookup c (s.approval i)) false) already_approved) _ e₃
          λ _ y e₄. bind_then (fail_if (leb (2 ^ 32 - 1) p.approval_count) overflow) _ e₄ λ _ _ e₅.
            (
              p,
              ok_or-eq_ok (s.proposal i) proposal_not_found q,
              ground arith,
              ground arith,
              ground arith,
              ground arith,
            )

execute_action_same :
    (a : ProposalAction) (s t : Governance)
    → execute_action a s ≡ ok t
    → (t.approval ≡ s.approval) × (t.prop_cnt ≡ s.prop_cnt)
unfolding execute_action
execute_action_same (set_parameter key v) s t e =
    bind_then (validate_param key v) _ e λ u h f. (ground arith, ground arith)
execute_action_same a s t e = (ground arith, ground arith)

pub execute_effect :
    (env : Env) (c : Address) (i : ℕ) (s s' : Governance)
    → execute env c i s ≡ ok s'
    → (p : Proposal) × (s.proposal i ≡ some p)
      × (s'.prop_cnt ≡ s.prop_cnt)
      × (s'.proposal ≡ update s.proposal i (record p { status = executed }))
      × (s'.approval ≡ s.approval)
unfolding execute
execute_effect env c i s s' e = bind_then (require_admin_role env s.auth c) _ e λ _ g e₁.
    bind_then (ok_or (s.proposal i) proposal_not_found) _ e₁ λ p q e₂.
      bind_then (fail_if (not (is_pending p.status)) already_executed) _ e₂ λ _ w e₃.
        bind_then (fail_if (ltb p.approval_count (get_threshold s)) below_threshold) _ e₃ λ _ b e₄.
          bind_then (execute_action p.action s) _ e₄ λ t h e₅.
            let k = execute_action_same p.action s t h in
            let o = execute_action-proposal p.action s t h in
            let x : s'.approval ≡ t.approval = ground arith in
            let y : s'.prop_cnt ≡ t.prop_cnt = ground arith in
            let z : s'.proposal ≡ update t.proposal i (record p { status = executed }) =
              ground arith in
            (p, ok_or-eq_ok (s.proposal i) proposal_not_found q, y ∙ k.1, rw (← o) z, x ∙ k.0)

pub invoke-IsTallied :
    (env : Env) (c : Call) (s s' : Governance) → IsTallied s → invoke env c s ≡ ok s' → IsTallied s'
unfolding invoke initialize grant_role revoke_role set_admin_set set_param
invoke-IsTallied env (initialize_call a t as') s s' v e =
    same_IsTallied s s' v (ground arith) (ground arith) (ground arith)
invoke-IsTallied env (grant_role_call c u r) s s' v e =
    bind_then (require_admin_role env s.auth c) _ e
      λ _ _ e₁. same_IsTallied s s' v (ground arith) (ground arith) (ground arith)
invoke-IsTallied env (revoke_role_call c u r) s s' v e =
    bind_then (require_admin_role env s.auth c) _ e
      λ _ _ e₁. same_IsTallied s s' v (ground arith) (ground arith) (ground arith)
invoke-IsTallied env (set_admin_set_call c as' t) s s' v e =
    bind_then (require_admin_role env s.auth c) _ e
      λ _ _ e₁. same_IsTallied s s' v (ground arith) (ground arith) (ground arith)
invoke-IsTallied env (set_param_call c key x) s s' v e =
    bind_then (require_governance env s.auth c) _ e λ _ _ e₁.
      bind_then (validate_param key x) _ e₁
        λ u h e₂. same_IsTallied s s' v (ground arith) (ground arith) (ground arith)
invoke-IsTallied env (propose_call c a) s s' v e = bind_then (propose env c a s) _ e λ out h e₁.
    let same : out.1 ≡ s' = ground arith in
    let (p, n, zero', cnt, props, app) = propose_effect env c a out.0 s out.1 h in
    rw (← same) (record {
      fresh = λ i lt. ground (arith, cnt, props, n, v.fresh i);
      counted = λ i. ground (arith, props, app, n, zero', v.counted i, v.fresh i);
      ballot = rw app v.ballot;
    })
invoke-IsTallied env (approve_call c i) s s' v e =
    let (p, found, new, cnt, props, app) = approve_effect env c i s s' e in
    let grown = insert-IsBallot c (s.approval i) (v.ballot i) new in
    record {
      fresh = λ j lt. ground (arith, cnt, props, found, v.fresh j);
      counted = λ j. ground (arith, props, app, found, v.counted j, grown.1);
      ballot = λ j. rw app (elim (Bool-cases (j == i)) [
        | inl same ↦ rw same grown.0
        | inr other ↦ rw other (v.ballot j)
      ]);
    }
invoke-IsTallied env (execute_call c i) s s' v e =
    let (p, found, cnt, props, app) = execute_effect env c i s s' e in
    record {
      fresh = λ j lt. ground (arith, cnt, props, found, v.fresh j);
      counted = λ j. ground (arith, props, app, found, v.counted j);
      ballot = rw app v.ballot;
    }

-- After every sequence of governance invocations the approval count of each proposal is the number
-- of its distinct approvers, and no proposal is stored beyond the counter, if so before.
pub run-IsTallied : (cs : List (Env × Call)) (s : Governance) → IsTallied s → IsTallied (run cs s)
run-IsTallied cs s h =
    run_keeps IsTallied (λ env c t t' v e. invoke-IsTallied env c t t' v e) cs s h

-- In a tallied state a proposal that is executed had at least the threshold of yes votes from
-- distinct addresses.
pub execute_needs_approvers :
    (env : Env) (c : Address) (i : ℕ) (s s' : Governance)
    → IsTallied s
    → execute env c i s ≡ ok s'
    → IsBallot (s.approval i) × (get_threshold s ≤ length (s.approval i))
execute_needs_approvers env c i s s' v e =
    let (p, found, _, enough, _, _, _) = execute_needs_threshold env c i i s s' e in
    (v.ballot i, ground (arith, v.counted i))
