-- ===== src/Upgradeability/Proposals.antt =====
-- Upgrade proposals (contracts/upgradeability/src/lib.rs). The migration hooks are other contracts,
-- a parameter; `T` is their state.
use trellis_contracts.Prelude.{
  ℕ, zero, suc, Bool, true, false, not, ◌&&◌, Option, none, some, List, [], ◌∷◌, leb, ◌==◌,
  if◌then◌else◌, unwrap_or, is_some, update, without,
}
use trellis_contracts.Host.{Env, Result, Address, ◌>>=◌, ◌>>◌, fail_if, ok_or, ok, err}
use trellis_contracts.Shared.Auth.{has_role, admin, upgrader}
use trellis_contracts.Shared.Events.{emit_upgrade_proposed, emit_upgrade_executed}
use trellis_contracts.Upgradeability.{
  Upgrades, UpgradeError, RegistryEntry, UpgradeProposal, UpgradeRecord, UpgradeStatus,
  pending_status, current_status, log, increment, require_upgrader_role, contract_not_registered,
  no_change_detected, already_pending, proposal_not_found, already_executed, migration_hook_failed,
  not_upgrader, invalid_wasm_hash,
}

-- A hook contract's entry points, on an old and a new version: `none` where the call fails.
pub record Hooks (T : Type 0) : Type 0 where
  pub pre_upg : Address → ℕ → ℕ → T → Option (Bool × T)
  pub pst_upg : Address → ℕ → ℕ → T → Option T

abbrev pub new_proposal : Env → ℕ → Address → ℕ → ℕ → List ℕ → Address → UpgradeProposal
new_proposal env i contract_id hash version note proposer = record {
  id = i;
  contract_id = contract_id;
  new_wasm_hash = hash;
  new_version = version;
  note = note;
  proposer = proposer;
  executed = false;
  created_at = env.timestamp;
  executed_at = 0;
}

unfoldable pub propose_upgrade :
    Env → Address → Address → ℕ → ℕ → List ℕ → Upgrades → Result UpgradeError (ℕ × Upgrades)
propose_upgrade env caller contract_id new_wasm_hash new_version note s = do
  require_upgrader_role env caller s
  entry ← ok_or (s.reg_ent contract_id) contract_not_registered
  fail_if (leb new_version entry.current.version) no_change_detected
  fail_if (new_wasm_hash == entry.current.wasm_hash) no_change_detected
  fail_if (is_some (s.upg_pend contract_id)) already_pending
  proposal_id ← increment (unwrap_or s.upg_cnt 0)
  let p = new_proposal env proposal_id contract_id new_wasm_hash new_version note caller
  ok (
    proposal_id,
    log (emit_upgrade_proposed proposal_id contract_id new_version caller env.timestamp) (record s {
      upg_cnt = some proposal_id;
      upg_prp = update s.upg_prp proposal_id p;
      upg_pend = update s.upg_pend contract_id proposal_id;
    }),
  )

unfoldable pub get_proposal : ℕ → Upgrades → Result UpgradeError UpgradeProposal
get_proposal proposal_id s = ok_or (s.upg_prp proposal_id) proposal_not_found

unfoldable pub get_upgrade_status : Address → Upgrades → Result UpgradeError UpgradeStatus
get_upgrade_status contract_id s =
    fail_if (not (is_some (s.reg_ent contract_id))) contract_not_registered
    >> elim (s.upg_pend contract_id) [
      | some proposal_id ↦ ok (pending_status proposal_id)
      | none ↦ ok current_status
    ]

-- The loop of `get_upgrade_history` from proposal `pid` down, with `missing` results left to find.
unfoldable pub history_loop : (ℕ → Option UpgradeRecord) → ℕ → ℕ → List UpgradeRecord
history_loop get zero missing = []
history_loop get (suc pid) zero = []
history_loop get (suc pid) (suc missing) = elim (get (suc pid)) [
  | some found ↦ found ∷ history_loop get pid missing
  | none ↦ history_loop get pid (suc missing)
]

unfoldable pub get_upgrade_history : Address → ℕ → Upgrades → List UpgradeRecord
unfolding history_loop
get_upgrade_history contract_id max_results s =
    if is_some (s.reg_ent contract_id)
    then history_loop (s.upg_hist contract_id) (unwrap_or s.upg_cnt 0) max_results
    else []

unfoldable pub cancel_proposal : Env → Address → ℕ → Upgrades → Result UpgradeError Upgrades
unfolding has_role
cancel_proposal env caller proposal_id s = do
  p ← ok_or (s.upg_prp proposal_id) proposal_not_found
  fail_if p.executed already_executed
  fail_if (not (p.proposer == caller) && not (has_role s.auth caller admin)) not_upgrader
  ok (record s {
    upg_pend = without s.upg_pend p.contract_id;
    upg_prp = without s.upg_prp proposal_id;
  })

unfoldable pub verify_upgrade_authorization :
    Address → Address → ℕ → Upgrades → Result UpgradeError ℕ
unfolding has_role
verify_upgrade_authorization contract_id caller new_wasm_hash s = do
  fail_if (not (has_role s.auth caller upgrader)) not_upgrader
  pending_id ← ok_or (s.upg_pend contract_id) contract_not_registered
  p ← ok_or (s.upg_prp pending_id) proposal_not_found
  fail_if (not (p.new_wasm_hash == new_wasm_hash)) invalid_wasm_hash
  ok (p.new_wasm_hash)

abbrev pub upgraded_entry : Env → UpgradeProposal → RegistryEntry → RegistryEntry
upgraded_entry env p e = record e {
  current = record {
    version = p.new_version;
    wasm_hash = p.new_wasm_hash;
    deployed_at = env.timestamp;
    description = p.note;
  };
}

-- The registry, the proposal and the history after an execution.
abbrev pub upgraded : Env → Address → ℕ → UpgradeProposal → RegistryEntry → Upgrades → Upgrades
upgraded env caller i p e s =
    log (emit_upgrade_executed i p.contract_id e.current.version p.new_version caller env.timestamp)
      (record s {
        reg_ent = update s.reg_ent p.contract_id (upgraded_entry env p e);
        upg_prp = update s.upg_prp i (record p { executed = true; executed_at = env.timestamp });
        upg_pend = without s.upg_pend p.contract_id;
        upg_hist = λ c j.
            if c == p.contract_id && j == i
            then some (record {
              contract_id = p.contract_id;
              old_version = e.current.version;
              new_version = p.new_version;
              old_wasm_hash = e.current.wasm_hash;
              new_wasm_hash = p.new_wasm_hash;
              executor = caller;
              executed_at = env.timestamp;
              note = p.note;
            })
            else s.upg_hist c j;
      })

module _ {T : Type 0} (h : Hooks T) where
  -- `if let Some(ref hook_addr) = entry.migration_hook { execute_pre_upgrade_hook(..)?; }`
  abbrev approval : Option (Bool × T) → Result UpgradeError T
  approval none = err migration_hook_failed
  approval (some (true, l)) = ok l
  approval (some (false, l)) = err migration_hook_failed

  unfoldable pub execute_pre_upgrade_hook : Option Address → ℕ → ℕ → T → Result UpgradeError T
  execute_pre_upgrade_hook none old new l = ok l
  execute_pre_upgrade_hook (some hook_addr) old new l = approval (h.pre_upg hook_addr old new l)

  unfoldable pub execute_post_upgrade_hook : Option Address → ℕ → ℕ → T → Result UpgradeError T
  execute_post_upgrade_hook none old new l = ok l
  execute_post_upgrade_hook (some hook_addr) old new l =
      ok_or (h.pst_upg hook_addr old new l) migration_hook_failed

  unfoldable pub execute_upgrade :
      Env → Address → ℕ → Upgrades × T → Result UpgradeError (Upgrades × T)
  unfolding execute_pre_upgrade_hook execute_post_upgrade_hook
  execute_upgrade env caller proposal_id (s, l) = do
    require_upgrader_role env caller s
    p ← ok_or (s.upg_prp proposal_id) proposal_not_found
    fail_if p.executed already_executed
    e ← ok_or (s.reg_ent p.contract_id) contract_not_registered
    l₁ ← execute_pre_upgrade_hook e.migration_hook e.current.version p.new_version l
    l₂ ← execute_post_upgrade_hook e.migration_hook e.current.version p.new_version l₁
    ok (upgraded env caller proposal_id p e s, l₂)
