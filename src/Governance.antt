-- ===== src/Governance.antt =====
-- The governance contract (contracts/governance-contract/src/lib.rs): an admin role, proposals that
-- a threshold of approvals executes, and protocol parameters within bounds.
pub mod Params
pub mod Calls
pub mod Bounds
pub mod Approvals
pub mod Execution
pub mod Once
mod Tests
use trellis_contracts.Prelude.{
  ℕ, ◌+◌, ◌-◌, ◌^◌, Bool, true, false, not, ◌||◌, Option, none, some, List, [], ◌∷◌, ◌++◌, ltb, leb,
  ◌==◌, if◌then◌else◌, unwrap_or, length, update, symbol_short, FinMap, lookup, insert, ℤ,
}
use trellis_contracts.Host.{
  Env, Result, Event, Address, Symbol, ◌>>=◌, ◌>>◌, fail_if, ok_or, ok, int,
}
use trellis_contracts.Shared.Errors.{
  Error, overflow, invalid_argument, proposal_not_found, already_approved, below_threshold,
  already_executed,
}
use trellis_contracts.Shared.Events.{
  emit, emit_module_initialized, emit_action_executed, emit_role_granted, emit_role_revoked,
  emit_proposal_created, emit_proposal_approved, emit_proposal_executed,
}
use trellis_contracts.Shared.Auth.{
  Role, AuthStore, no_auth, set_admin, require_admin, set_role, remove_role, require_role,
  set_paused, admin, upgrader, treasury_manager, pauser, referral_manager, oracle_signer,
}
use trellis_contracts.Governance.Params.{
  ParameterKey, key_val, validate_param, ParamStore, write_param, read_param, seed_defaults,
}

pub data ProposalAction : Type 0 where
  grant_role_action : Address → Role → ProposalAction
  revoke_role_action : Address → Role → ProposalAction
  set_parameter : ParameterKey → ℤ → ProposalAction
  pause unpause : ProposalAction

pub data ProposalStatus : Type 0 where
  pending executed : ProposalStatus

abbrev pub is_pending : ProposalStatus → Bool
is_pending pending = true
is_pending executed = false

pub record Proposal : Type 0 where
  pub id : ℕ
  pub proposer : Address
  pub action : ProposalAction
  pub approval_count : ℕ
  pub status : ProposalStatus
  pub created_at : ℕ

-- The storage: `KEY_THRESHOLD`, `KEY_ADMIN_SET`, `KEY_PROP_CNT`, `(KEY_PROPOSAL, id)`, and
-- `(KEY_APPROVAL, id, address)` as one map of addresses for each id; the parameters, the keys of
-- shared::auth, and the event log.
pub record Governance : Type 0 where
  pub auth : AuthStore
  pub thresh : Option ℕ
  pub adm_set : Option (List Address)
  pub prop_cnt : Option ℕ
  pub proposal : ℕ → Option Proposal
  pub approval : ℕ → FinMap Bool
  pub params : ParamStore
  pub events : List Event

abbrev pub deployed : Governance
deployed = record {
  auth = no_auth;
  thresh = none;
  adm_set = none;
  prop_cnt = none;
  proposal = λ _. none;
  approval = λ _. [];
  params = λ _. none;
  events = [];
}

abbrev log : Event → Governance → Governance
log e s = record s { events = e ∷ s.events }

role_name : Role → Symbol
role_name admin = symbol_short "admin"
role_name upgrader = symbol_short "upgrader"
role_name treasury_manager = symbol_short "treas_m"
role_name pauser = symbol_short "pauser"
role_name referral_manager = symbol_short "refrl_m"
role_name oracle_signer = symbol_short "oracle_s"

action_symbol : ProposalAction → Symbol
action_symbol (grant_role_action _ _) = symbol_short "grt_role"
action_symbol (revoke_role_action _ _) = symbol_short "rvk_role"
action_symbol (set_parameter _ _) = symbol_short "set_param"
action_symbol pause = symbol_short "pause"
action_symbol unpause = symbol_short "unpause"

pub require_admin_role : Env → AuthStore → Address → Result Error (Unit {0})
unfolding require_role
require_admin_role env s caller = require_role env s caller admin

pub require_governance : Env → AuthStore → Address → Result Error (Unit {0})
unfolding require_admin
require_governance env s caller = require_admin env s caller

-- The loop of `initialize`.
grant_all : List Address → AuthStore → AuthStore
unfolding set_role
grant_all [] s = s
grant_all (a ∷ as') s = grant_all as' (set_role a admin s)

pub initialize : Env → Address → ℕ → List Address → Governance → Result Error Governance
unfolding grant_all set_admin seed_defaults
initialize env admin_addr threshold admin_set s = do
  fail_if (ltb threshold 1) invalid_argument
  fail_if (ltb (length admin_set) threshold) invalid_argument
  ok (
      log (emit_module_initialized (symbol_short "gov") 1 admin_addr env.timestamp) (record s {
        auth = grant_all admin_set (set_admin admin_addr s.auth);
        thresh = some threshold;
        adm_set = some admin_set;
        params = seed_defaults s.params;
      }))

pub grant_role : Env → Address → Address → Role → Governance → Result Error Governance
unfolding require_admin_role set_role
grant_role env caller user role s = do
  require_admin_role env s.auth caller
  ok (
      log (emit_role_granted caller user (role_name role) env.timestamp)
        (record s { auth = set_role user role s.auth }))

pub revoke_role : Env → Address → Address → Role → Governance → Result Error Governance
unfolding require_admin_role remove_role
revoke_role env caller user role s = do
  require_admin_role env s.auth caller
  ok (
      log (emit_role_revoked caller user (role_name role) env.timestamp)
        (record s { auth = remove_role user role s.auth }))

pub set_admin_set : Env → Address → List Address → ℕ → Governance → Result Error Governance
unfolding require_admin_role
set_admin_set env caller new_admin_set new_threshold s = do
  require_admin_role env s.auth caller
  fail_if (ltb new_threshold 1 || ltb (length new_admin_set) new_threshold) invalid_argument
  ok (record s { thresh = some new_threshold; adm_set = some new_admin_set })

pub get_threshold : Governance → ℕ
get_threshold s = unwrap_or s.thresh 0

pub propose : Env → Address → ProposalAction → Governance → Result Error (ℕ × Governance)
unfolding require_admin_role
propose env caller action s = do
  require_admin_role env s.auth caller
  let proposal_id = unwrap_or s.prop_cnt 0
  fail_if (leb (2 ^ 64 - 1) proposal_id) overflow
  let new_id = proposal_id + 1
  let p : Proposal = record {
    id = new_id;
    proposer = caller;
    action = action;
    approval_count = 0;
    status = pending;
    created_at = env.timestamp;
  }
  ok (
    new_id,
    log (emit_proposal_created new_id caller (action_symbol action) env.timestamp)
        (record s { prop_cnt = some new_id; proposal = update s.proposal new_id p }),
  )

pub approve : Env → Address → ℕ → Governance → Result Error Governance
unfolding require_admin_role
approve env caller proposal_id s = do
  require_admin_role env s.auth caller
  p ← ok_or (s.proposal proposal_id) proposal_not_found
  fail_if (not (is_pending p.status)) already_executed
  fail_if (unwrap_or (lookup caller (s.approval proposal_id)) false) already_approved
  fail_if (leb (2 ^ 32 - 1) p.approval_count) overflow
  let count = p.approval_count + 1
  ok (
      log (emit_proposal_approved proposal_id caller count env.timestamp) (record s {
        approval = λ i.
            if i == proposal_id then insert caller true (s.approval proposal_id) else s.approval i;
        proposal = update s.proposal proposal_id (record p { approval_count = count });
      }))

pub execute_action : ProposalAction → Governance → Result Error Governance
unfolding set_role remove_role set_paused write_param validate_param
execute_action (grant_role_action user role) s = ok (record s { auth = set_role user role s.auth })
execute_action (revoke_role_action user role) s =
    ok (record s { auth = remove_role user role s.auth })
execute_action (set_parameter key value) s =
    validate_param key value >> ok (record s { params = write_param key value s.params })
execute_action pause s = ok (record s { auth = set_paused true s.auth })
execute_action unpause s = ok (record s { auth = set_paused false s.auth })

pub execute : Env → Address → ℕ → Governance → Result Error Governance
execute env caller proposal_id s = do
  require_admin_role env s.auth caller
  p ← ok_or (s.proposal proposal_id) proposal_not_found
  fail_if (not (is_pending p.status)) already_executed
  fail_if (ltb p.approval_count (get_threshold s)) below_threshold
  s' ← execute_action p.action s
  ok (
      log (emit_proposal_executed proposal_id caller p.approval_count env.timestamp)
        (record s' { proposal = update s'.proposal proposal_id (record p { status = executed }) }))

pub get_proposal : ℕ → Governance → Result Error Proposal
get_proposal proposal_id s = ok_or (s.proposal proposal_id) proposal_not_found

pub set_param : Env → Address → ParameterKey → ℤ → Governance → Result Error Governance
set_param env caller key value s = do
  require_governance env s.auth caller
  validate_param key value
  ok (
      log
        (emit_action_executed (symbol_short "gov") (symbol_short "set_param") caller true
          env.timestamp)
        (log (emit (symbol_short "param_chg") (key_val key ++ int value ∷ []))
          (record s { params = write_param key value s.params })))

pub get_param : ParameterKey → Governance → Result Error ℤ
unfolding read_param
get_param key s = read_param key s.params
