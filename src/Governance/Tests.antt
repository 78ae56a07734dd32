-- ===== src/Governance/Tests.antt =====
-- Runs of the governance contract, and its theorems at concrete states.
use trellis_contracts.Prelude.{
  inr, inl, Bool-cases, arith, length, lookup, ◌≤◌, ◌≡◌, refl, true, false, none, some, List, [],
  ◌∷◌, ◌==◌, if◌then◌else◌, symbol_short, pos,
}
use trellis_contracts.Host.{Env, commit, ok}
use trellis_contracts.Host.Sample.{env_of}
use trellis_contracts.Shared.Auth.{has_role, set_role, no_auth, admin, pauser, is_paused}
use trellis_contracts.Governance.{
  Governance, Proposal, ProposalStatus, deployed, pending, executed, execute, approve, set_param,
  get_param, get_threshold, get_proposal, grant_role_action, role_name, action_symbol, pause,
  revoke_role,
}
use trellis_contracts.Governance.Params.{validate_param, referral_max_tiers}
use trellis_contracts.Governance.Calls.{
  Call, invoke, run, initialize_call, set_param_call, propose_call, approve_call,
  set_admin_set_call, grant_role_call,
}
use trellis_contracts.Governance.Bounds.{IsInBounds, run-IsInBounds}
use trellis_contracts.Governance.Approvals.{
  IsTallied, IsBallot, run-IsTallied, execute_needs_approvers,
}
use trellis_contracts.Governance.Execution.{execute_needs_threshold}
use trellis_contracts.Governance.Once.{execute_once}

-- Admins 1 and 2, both approvals needed, and a proposal to pause.
abbrev history : List (Env × Call)
history =
    (env_of 1, initialize_call 1 2 (1 ∷ 2 ∷ []))
    ∷ (env_of 1, propose_call 1 pause)
    ∷ (env_of 1, approve_call 1 1)
    ∷ (env_of 1, approve_call 1 1)
    ∷ (env_of 2, approve_call 2 1)
    ∷ (env_of 1, set_param_call 1 referral_max_tiers (pos 5))
    ∷ []

abbrev vote : Proposal
vote = record {
  id = 1;
  proposer = 1;
  action = pause;
  approval_count = 2;
  status = pending;
  created_at = 7;
}

-- A state where that proposal has both approvals.
abbrev ready : Governance
ready = record deployed {
  auth = record (set_role 1 admin no_auth) { admin_key = some 1 };
  thresh = some 2;
  prop_cnt = some 1;
  proposal = λ i. if i == 1 then some vote else none;
  approval = λ i. if i == 1 then (1, true) ∷ (2, true) ∷ [] else [];
}

abbrev done : Governance
done = commit ready (execute (env_of 1) 1 1 ready)

abbrev tuned : Governance
tuned = commit ready (set_param (env_of 1) 1 referral_max_tiers (pos 5) ready)

approved_twice : get_proposal 1 (run history deployed) ≡ ok vote
unfolding run get_proposal invoke set_param trellis_contracts.Governance.require_governance approve
    trellis_contracts.Governance.propose trellis_contracts.Governance.initialize
    trellis_contracts.Prelude.lookup trellis_contracts.Prelude.insert validate_param
approved_twice = refl

executed_pauses : is_paused done.auth ≡ true
unfolding execute is_paused trellis_contracts.Governance.require_admin_role set_role get_threshold
    trellis_contracts.Governance.execute_action
executed_pauses = refl

threshold_lowered :
    get_threshold (commit ready (invoke (env_of 1) (set_admin_set_call 1 (1 ∷ []) 1) ready)) ≡ 1
unfolding invoke get_threshold trellis_contracts.Governance.set_admin_set set_role
threshold_lowered = refl

role_granted :
    has_role (commit ready (invoke (env_of 1) (grant_role_call 1 4 pauser) ready)).auth 4 pauser
    ≡ true
unfolding invoke has_role trellis_contracts.Governance.grant_role
role_granted = refl

role_revoked : has_role (commit ready (revoke_role (env_of 1) 1 1 admin ready)).auth 1 admin ≡ false
unfolding revoke_role set_role
role_revoked = refl

names : (role_name pauser ≡ symbol_short "pauser") × (action_symbol pause ≡ symbol_short "pause")
unfolding role_name action_symbol
names = (refl, refl)

run-IsInBounds_example : IsInBounds (run history deployed).params
run-IsInBounds_example = run-IsInBounds history deployed (λ key v h. cc)

execute_needs_threshold_example :
    (p : Proposal) × (ready.proposal 1 ≡ some p)
    × (p.status ≡ pending)
    × (get_threshold ready ≤ p.approval_count)
    × (has_role ready.auth 1 admin ≡ true)
    × ((env_of 1).authorized 1 ≡ true)
    × (done.proposal 1
        ≡ (if 1 == 1 then some (record p { status = executed }) else ready.proposal 1))
unfolding execute trellis_contracts.Governance.require_admin_role set_role get_threshold
    trellis_contracts.Governance.execute_action
execute_needs_threshold_example = execute_needs_threshold (env_of 1) 1 1 1 ready done refl

ready-IsTallied : IsTallied ready
unfolding lookup
ready-IsTallied = record {
  fresh = λ i h. ground arith;
  counted = λ i. ground arith;
  ballot = λ i. elim (Bool-cases (i == 1)) [
    | inl first ↦ rw first (refl, refl, (refl, refl, tt))
    | inr other ↦ rw other tt
  ];
}

execute_once_example :
    (¬ ((t : Governance) × (execute (env_of 2) 2 1 (run history done) ≡ ok t)))
    × (¬ ((t : Governance) × (approve (env_of 2) 2 1 (run history done) ≡ ok t)))
unfolding execute trellis_contracts.Governance.require_admin_role set_role get_threshold
    trellis_contracts.Governance.execute_action
execute_once_example =
    execute_once (env_of 1) (env_of 2) 1 2 1 ready done history ready-IsTallied refl

run-IsTallied_example : IsTallied (run history deployed)
run-IsTallied_example =
    run-IsTallied history deployed
      (record { fresh = λ i h. refl; counted = λ i. refl; ballot = λ i. tt })

execute_needs_approvers_example :
    IsBallot (ready.approval 1) × (get_threshold ready ≤ length (ready.approval 1))
unfolding execute trellis_contracts.Governance.require_admin_role set_role get_threshold
    trellis_contracts.Governance.execute_action
execute_needs_approvers_example =
    execute_needs_approvers (env_of 1) 1 1 ready done ready-IsTallied refl
