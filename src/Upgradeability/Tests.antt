-- ===== src/Upgradeability/Tests.antt =====
-- Runs of the upgradeability contract, and its theorems at concrete states.
use trellis_contracts.Prelude.{
  update, arith, take, ℕ, ◌+◌, ◌≡◌, refl, ◌↔◌, true, false, not, none, some, List, [], ◌∷◌, ◌==◌,
}
use trellis_contracts.Host.{Env, Result, commit, ok, err}
use trellis_contracts.Host.Sample.{env_of}
use trellis_contracts.Shared.Auth.{no_auth, require_role, set_role, has_role, upgrader}
use trellis_contracts.Upgradeability.{
  new_entry, require_upgrader_role, set_migration_hook, require_admin_role, initialize,
  UpgradeError, UpgradeProposal, Upgrades, upgrade_code, deployed, register_contract,
  get_registry_entry, get_registry_entry_by_name, get_registered_count, get_version, get_wasm_hash,
  proposal_not_found, already_pending, pending_status,
}
use trellis_contracts.Upgradeability.Proposals.{
  new_proposal, execute_pre_upgrade_hook, execute_post_upgrade_hook, Hooks, propose_upgrade,
  get_proposal, get_upgrade_status, get_upgrade_history, cancel_proposal,
  verify_upgrade_authorization, execute_upgrade,
}
use trellis_contracts.Upgradeability.Calls.{
  invoke, Call, run, initialize_call, register_call, hook_call, propose_call, cancel_call,
  execute_call,
}
use trellis_contracts.Upgradeability.Effects.{last_id}
use trellis_contracts.Upgradeability.Pending.{
  IsTracked, run-IsTracked, verify_upgrade_authorization_iff,
}
use trellis_contracts.Upgradeability.Once.{execute_upgrade_once}
use trellis_contracts.Upgradeability.Records.{records_from, get_upgrade_history_lem}

-- Hooks that count their calls, and agree to every upgrade but one to version 13.
abbrev hooks : Hooks ℕ
hooks = record {
  pre_upg = λ a old new l. some (not (new == 13), l + 1);
  pst_upg = λ a old new l. some (l + 1);
}

-- 1 is the admin; contract 50 goes from version 1 to 2 and, with its hook, to 3.
abbrev history : List (Env × Call)
history =
    (env_of 1, initialize_call 1)
    ∷ (env_of 1, register_call 1 50 7 1 1_001)
    ∷ (env_of 1, propose_call 1 50 1_002 2 [])
    ∷ (env_of 1, propose_call 1 50 1_003 3 [])
    ∷ (env_of 1, execute_call 1 1)
    ∷ (env_of 1, hook_call 1 50 60)
    ∷ (env_of 1, propose_call 1 50 1_013 13 [])
    ∷ (env_of 1, execute_call 1 2)
    ∷ (env_of 1, cancel_call 1 2)
    ∷ (env_of 1, propose_call 1 50 1_003 3 [])
    ∷ []

abbrev after : Upgrades × ℕ
after = run hooks history (deployed, 0)

-- The refused upgrade leaves no trace, and proposal 3 waits.
waits :
    (get_version 50 (after.0) ≡ ok 2) × (get_upgrade_status 50 (after.0) ≡ ok (pending_status 3))
unfolding run invoke propose_upgrade require_upgrader_role cancel_proposal execute_upgrade
    set_migration_hook require_admin_role register_contract initialize get_version
    get_upgrade_status
waits = (refl, refl)

pending_refused : propose_upgrade (env_of 1) 1 50 1_009 9 [] (after.0) ≡ err already_pending
unfolding propose_upgrade require_upgrader_role run invoke cancel_proposal execute_upgrade
    set_migration_hook require_admin_role register_contract initialize
pending_refused = refl

by_name : get_registry_entry_by_name 7 (after.0) ≡ get_registry_entry 50 (after.0)
unfolding get_registry_entry get_registry_entry_by_name run invoke propose_upgrade
    require_upgrader_role cancel_proposal execute_upgrade set_migration_hook require_admin_role
    register_contract initialize
by_name = refl

counted : get_registered_count (after.0) ≡ 1
unfolding get_registered_count run invoke propose_upgrade require_upgrader_role cancel_proposal
    execute_upgrade set_migration_hook require_admin_role register_contract initialize
counted = refl

hash_kept : get_wasm_hash 50 (after.0) ≡ ok 1_002
unfolding get_wasm_hash run invoke propose_upgrade require_upgrader_role cancel_proposal
    execute_upgrade set_migration_hook require_admin_role register_contract initialize
hash_kept = refl

proposals :
    (get_proposal 2 (after.0) ≡ err proposal_not_found) × (upgrade_code proposal_not_found ≡ 903)
unfolding get_proposal run invoke propose_upgrade require_upgrader_role cancel_proposal
    execute_upgrade set_migration_hook require_admin_role register_contract initialize
proposals = (refl, refl)

abbrev executed : Result UpgradeError (Upgrades × ℕ)
executed = execute_upgrade hooks (env_of 1) 1 3 after

hooks_ran : (commit after executed).1 ≡ 2
unfolding execute_upgrade require_upgrader_role run invoke propose_upgrade cancel_proposal
    set_migration_hook require_admin_role register_contract initialize
hooks_ran = refl

-- Anyone may pass the proposer's address, since `cancel_proposal` asks for no authorization.
cancelled_by_anyone :
    (commit (after.0) (cancel_proposal (env_of 99) 1 3 (after.0))).upg_pend 50 ≡ none
unfolding cancel_proposal run invoke propose_upgrade require_upgrader_role execute_upgrade
    set_migration_hook require_admin_role register_contract initialize
cancelled_by_anyone = refl

-- The same contract under a second name starts again from the version that the admin gives.
registered_twice :
    get_version 50 (commit (after.0) (register_contract (env_of 1) 1 50 8 1 1_001 (after.0))) ≡ ok 1
unfolding get_version register_contract require_admin_role run invoke propose_upgrade
    require_upgrader_role cancel_proposal execute_upgrade set_migration_hook initialize
registered_twice = refl

deployed-IsTracked : IsTracked deployed
deployed-IsTracked = record {
  own_id = λ i p e. cc;
  open_one = λ c i e. absurd (cc);
  is_pending = λ i p e wait. cc;
}

run-IsTracked_example : IsTracked (after.0)
run-IsTracked_example = run-IsTracked hooks history (deployed, 0) deployed-IsTracked

verify_upgrade_authorization_iff_example :
    verify_upgrade_authorization 50 1 1_003 (after.0) ≡ ok 1_003 ↔ (
      (◌≡◌ {A = ℕ} 1_003 1_003)
      × (has_role (after.0).auth 1 upgrader ≡ true)
      × ((i : ℕ) × (p : UpgradeProposal) × ((after.0).upg_prp i ≡ some p)
          × (p.contract_id ≡ 50)
          × (p.new_wasm_hash ≡ 1_003)
          × (p.executed ≡ false)))
verify_upgrade_authorization_iff_example =
    verify_upgrade_authorization_iff 50 1 1_003 1_003 (after.0)
      (run-IsTracked hooks history (deployed, 0) deployed-IsTracked)

get_upgrade_history_lem_example :
    get_upgrade_history 50 5 (after.0)
    ≡ take 5 (records_from ((after.0).upg_hist 50) (last_id (after.0)))
unfolding run invoke propose_upgrade require_upgrader_role cancel_proposal execute_upgrade
    set_migration_hook require_admin_role register_contract initialize
get_upgrade_history_lem_example = get_upgrade_history_lem 50 5 (after.0) _ refl

-- 1 is an upgrader, and a proposal from version 1 to 2 waits.
abbrev ready : Upgrades
ready = record deployed {
  auth = set_role 1 upgrader no_auth;
  reg_ent = update (λ _. none) 50 (new_entry (env_of 1) 50 7 1 1_001);
  upg_cnt = some 1;
  upg_prp = update (λ _. none) 1 (new_proposal (env_of 1) 1 50 1_002 2 [] 1);
  upg_pend = update (λ _. none) 50 1;
}

ready-IsTracked : IsTracked ready
ready-IsTracked = record {
  own_id = λ i p e. ground arith;
  open_one = λ c i e. (new_proposal (env_of 1) 1 50 1_002 2 [] 1, ground arith, ground arith, refl);
  is_pending = λ i p e wait. ground arith;
}

abbrev upgraded_once : Upgrades × ℕ
upgraded_once = commit (ready, 0) (execute_upgrade hooks (env_of 1) 1 1 (ready, 0))

execute_upgrade_once_example :
    ¬ execute_upgrade hooks (env_of 1) 1 1 (run hooks history upgraded_once) ≡ ok (deployed, 0)
unfolding execute_upgrade require_upgrader_role require_role has_role set_role
    execute_pre_upgrade_hook execute_post_upgrade_hook
execute_upgrade_once_example =
    execute_upgrade_once hooks (env_of 1) (env_of 1) 1 1 1 ready (upgraded_once.0) 0
      (upgraded_once.1) history ready-IsTracked refl (deployed, 0)
