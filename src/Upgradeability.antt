-- ===== src/Upgradeability.antt =====
-- The upgradeability contract (contracts/upgradeability/src/lib.rs): the registry of upgradeable
-- contracts, with their versions and migration hooks. A wasm hash is a number, which is only
-- compared; a note is a list of bytes.
pub mod Proposals
pub mod Calls
pub mod Effects
pub mod Pending
pub mod Versions
pub mod Growth
pub mod Once
pub mod Records
mod Tests
use trellis_contracts.Prelude.{
  ℕ, ◌+◌, ◌-◌, ◌^◌, Bool, Option, none, some, List, [], ◌∷◌, ltb, leb, if◌then◌else◌, unwrap_or,
  is_some, update, symbol_short,
}
use trellis_contracts.Host.{
  Env, Result, Event, Address, Symbol, ◌>>=◌, ◌>>◌, fail_if, ok_or, ok, err, panic_with_error, trap,
}
use trellis_contracts.Shared.Errors.{Error}
use trellis_contracts.Shared.Events.{
  emit_module_initialized, emit_contract_registered, emit_migration_hook_set,
}
use trellis_contracts.Shared.Auth.{
  Role, AuthStore, no_auth, set_admin, set_role, require_role, admin, upgrader,
}

pub data UpgradeError : Type 0 where
  contract_not_registered contract_already_registered no_change_detected : UpgradeError
  proposal_not_found already_executed migration_hook_failed already_pending : UpgradeError
  not_upgrader invalid_wasm_hash storage_incompatible invalid_migration_hook : UpgradeError

abbrev pub upgrade_code : UpgradeError → ℕ
upgrade_code contract_not_registered = 900
upgrade_code contract_already_registered = 901
upgrade_code no_change_detected = 902
upgrade_code proposal_not_found = 903
upgrade_code already_executed = 904
upgrade_code migration_hook_failed = 905
upgrade_code already_pending = 906
upgrade_code not_upgrader = 907
upgrade_code invalid_wasm_hash = 908
upgrade_code storage_incompatible = 909
upgrade_code invalid_migration_hook = 910

pub record VersionInfo : Type 0 where
  pub version : ℕ
  pub wasm_hash : ℕ
  pub deployed_at : ℕ
  pub description : List ℕ

pub record RegistryEntry : Type 0 where
  pub contract_id : Address
  pub name : Symbol
  pub current : VersionInfo
  pub migration_hook : Option Address

pub record UpgradeProposal : Type 0 where
  pub id : ℕ
  pub contract_id : Address
  pub new_wasm_hash : ℕ
  pub new_version : ℕ
  pub note : List ℕ
  pub proposer : Address
  pub executed : Bool
  pub created_at : ℕ
  pub executed_at : ℕ

pub record UpgradeRecord : Type 0 where
  pub contract_id : Address
  pub old_version : ℕ
  pub new_version : ℕ
  pub old_wasm_hash : ℕ
  pub new_wasm_hash : ℕ
  pub executor : Address
  pub executed_at : ℕ
  pub note : List ℕ

pub data UpgradeStatus : Type 0 where
  current_status completed_status : UpgradeStatus
  pending_status : ℕ → UpgradeStatus

-- The storage: one field for each `KEY_..` constant, the keys of shared::auth, and the event log.
pub record Upgrades : Type 0 where
  pub auth : AuthStore
  pub reg_cnt : Option ℕ
  pub reg_ent : ℕ → Option RegistryEntry
  pub crt_name : ℕ → Option Address
  pub upg_cnt : Option ℕ
  pub upg_prp : ℕ → Option UpgradeProposal
  pub mig_hook : ℕ → Option Address
  pub upg_hist : ℕ → ℕ → Option UpgradeRecord
  pub upg_pend : ℕ → Option ℕ
  pub events : List Event

abbrev pub deployed : Upgrades
deployed = record {
  auth = no_auth;
  reg_cnt = none;
  reg_ent = λ _. none;
  crt_name = λ _. none;
  upg_cnt = none;
  upg_prp = λ _. none;
  mig_hook = λ _. none;
  upg_hist = λ _ _. none;
  upg_pend = λ _. none;
  events = [];
}

abbrev pub log : Event → Upgrades → Upgrades
log e s = record s { events = e ∷ s.events }

-- `u64` and `u32` additions panic on overflow in the workspace's release profile.
abbrev pub increment : ℕ → Result UpgradeError ℕ
increment n = if leb (2 ^ 64 - 1) n then trap else ok (n + 1)

-- Every error of `require_role` becomes `NotUpgrader`.
abbrev pub as_not_upgrader : Result Error (Unit {0}) → Result UpgradeError (Unit {0})
as_not_upgrader (ok u) = ok u
as_not_upgrader (err _) = err not_upgrader
as_not_upgrader (panic_with_error n) = panic_with_error n
as_not_upgrader trap = trap

pub require_admin_role : Env → Address → Upgrades → Result UpgradeError (Unit {0})
unfolding require_role
require_admin_role env caller s = as_not_upgrader (require_role env s.auth caller admin)

pub require_upgrader_role : Env → Address → Upgrades → Result UpgradeError (Unit {0})
unfolding require_role
require_upgrader_role env caller s = as_not_upgrader (require_role env s.auth caller upgrader)

pub initialize : Env → Address → Upgrades → Upgrades
unfolding set_admin set_role
initialize env admin_addr s =
    log (emit_module_initialized (symbol_short "upg_reg") 1 admin_addr env.timestamp) (record s {
      auth = set_role admin_addr admin (set_role admin_addr upgrader (set_admin admin_addr s.auth));
    })

-- The description "initial" of a registered version.
abbrev initial : List ℕ
initial = 105 ∷ 110 ∷ 105 ∷ 116 ∷ 105 ∷ 97 ∷ 108 ∷ []

abbrev pub new_entry : Env → Address → Symbol → ℕ → ℕ → RegistryEntry
new_entry env contract_id name version wasm_hash = record {
  contract_id = contract_id;
  name = name;
  current = record {
    version = version;
    wasm_hash = wasm_hash;
    deployed_at = env.timestamp;
    description = initial;
  };
  migration_hook = none;
}

pub register_contract :
    Env → Address → Address → Symbol → ℕ → ℕ → Upgrades → Result UpgradeError Upgrades
register_contract env caller contract_id name version wasm_hash s = do
  require_admin_role env caller s
  fail_if (ltb version 1) invalid_wasm_hash
  fail_if (is_some (s.crt_name name)) contract_already_registered
  count ← increment (unwrap_or s.reg_cnt 0)
  ok (
      log (emit_contract_registered contract_id name version wasm_hash env.timestamp) (record s {
        reg_ent = update s.reg_ent contract_id (new_entry env contract_id name version wasm_hash);
        crt_name = update s.crt_name name contract_id;
        reg_cnt = some count;
      }))

pub get_registry_entry : Address → Upgrades → Result UpgradeError RegistryEntry
get_registry_entry contract_id s = ok_or (s.reg_ent contract_id) contract_not_registered

pub get_registry_entry_by_name : Symbol → Upgrades → Result UpgradeError RegistryEntry
get_registry_entry_by_name name s = do
  contract_id ← ok_or (s.crt_name name) contract_not_registered
  ok_or (s.reg_ent contract_id) contract_not_registered

pub get_registered_count : Upgrades → ℕ
get_registered_count s = unwrap_or s.reg_cnt 0

pub get_version : Address → Upgrades → Result UpgradeError ℕ
get_version contract_id s =
    ok_or (s.reg_ent contract_id) contract_not_registered >>= λ entry. ok (entry.current.version)

pub get_wasm_hash : Address → Upgrades → Result UpgradeError ℕ
get_wasm_hash contract_id s =
    ok_or (s.reg_ent contract_id) contract_not_registered >>= λ entry. ok (entry.current.wasm_hash)

pub set_migration_hook : Env → Address → Address → Address → Upgrades → Result UpgradeError Upgrades
set_migration_hook env caller contract_id hook_addr s = do
  require_admin_role env caller s
  entry ← ok_or (s.reg_ent contract_id) contract_not_registered
  ok (
      log (emit_migration_hook_set contract_id hook_addr env.timestamp) (record s {
        reg_ent = update s.reg_ent contract_id (record entry { migration_hook = some hook_addr });
        mig_hook = update s.mig_hook contract_id hook_addr;
      }))
