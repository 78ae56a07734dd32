-- ===== src/Registry.antt =====
-- The registry contract (contracts/registry-contract/src/lib.rs): addresses and versions of the
-- other contracts, the history of versions, and metadata that may be immutable.
pub mod Entries
mod Tests
use trellis_contracts.Prelude.{
  ℕ, Bool, true, false, not, ◌||◌, Option, none, some, List, [], ◌∷◌, ◌++◌, ◌==◌, if◌then◌else◌,
  unwrap_or, length, symbol_short, FinMap, lookup, insert,
}
use trellis_contracts.Host.{
  Env, Result, Event, Address, Symbol, ◌>>=◌, ◌>>◌, fail_if, ok_or, commit, ok,
}
use trellis_contracts.Shared.Errors.{
  Error, not_found, immutable_entry, invalid_hash, invalid_argument, metadata_not_found,
}
use trellis_contracts.Shared.Events.{emit_module_initialized, emit_action_executed}
use trellis_contracts.Shared.Auth.{AuthStore, no_auth, set_admin, require_admin}

pub record ContractRegistration : Type 0 where
  pub address : Address
  pub version : ℕ

-- `Bytes` are lists of numbers below 256.
pub record MetadataEntry : Type 0 where
  pub uri : List ℕ
  pub hash : List ℕ
  pub immutable : Bool
  pub updated_at : ℕ
  pub schema_version : ℕ

-- The storage: `KEY_CONTRACTS`, `KEY_METADATA` and `KEY_HISTORY`, each a map that is empty while it
-- is missing, the keys of shared::auth, and the event log.
pub record Registry : Type 0 where
  pub auth : AuthStore
  pub contracts : FinMap ContractRegistration
  pub metadata : FinMap MetadataEntry
  pub history : FinMap (List ℕ)
  pub events : List Event

abbrev pub deployed : Registry
deployed = record { auth = no_auth; contracts = []; metadata = []; history = []; events = [] }

pub initialize : Env → Address → Registry → Registry
unfolding set_admin
initialize env admin_addr s = record s {
  auth = set_admin admin_addr s.auth;
  events = emit_module_initialized (symbol_short "registry") 1 admin_addr env.timestamp ∷ s.events;
}

-- `versions.iter().any(|existing| existing == version)`
abbrev pub any_version : ℕ → List ℕ → Bool
any_version v [] = false
any_version v (w ∷ ws) = w == v || any_version v ws

-- `!versions.is_empty() && versions.get(versions.len() - 1).unwrap_or(0) == version`
abbrev pub last_is : ℕ → List ℕ → Bool
last_is v [] = false
last_is v (w ∷ []) = w == v
last_is v (w ∷ x ∷ ws) = last_is v (x ∷ ws)

-- The update of the history: nothing if the version is the last or anywhere in it.
pub record_version : ℕ → ℕ → FinMap (List ℕ) → FinMap (List ℕ)
record_version name version m =
    let versions = unwrap_or (lookup name m) [] in
    if last_is version versions
    then m
    else if any_version version versions
    then m
    else insert name (versions ++ version ∷ []) m

pub set_contract : Env → Address → Symbol → Address → ℕ → Registry → Result Error Registry
unfolding require_admin record_version
set_contract env caller name address version s = do
  require_admin env s.auth caller
  ok (record s {
    contracts = insert name (record { address = address; version = version }) s.contracts;
    history = record_version name version s.history;
    events =
        emit_action_executed (symbol_short "registry") (symbol_short "set_ctr") caller true
          env.timestamp
        ∷ s.events;
  })

pub get_contract : Symbol → Registry → Result Error (Address × ℕ)
get_contract name s = do
  registration ← ok_or (lookup name s.contracts) not_found
  ok (registration.address, registration.version)

pub get_version_history : Symbol → Registry → Result Error (List ℕ)
get_version_history name s = ok_or (lookup name s.history) not_found

abbrev pub is_fixed : Option MetadataEntry → Bool
is_fixed none = false
is_fixed (some existing) = existing.immutable

pub set_metadata :
    Env → Address → Symbol → List ℕ → List ℕ → Bool → ℕ → Registry → Result Error Registry
unfolding require_admin
set_metadata env caller name uri hash immutable schema_version s = do
  require_admin env s.auth caller
  fail_if (is_fixed (lookup name s.metadata)) immutable_entry
  fail_if (not (length hash == 32)) invalid_hash
  fail_if (length uri == 0) invalid_argument
  let entry : MetadataEntry = record {
    uri = uri;
    hash = hash;
    immutable = immutable;
    updated_at = env.timestamp;
    schema_version = schema_version;
  }
  ok (record s { metadata = insert name entry s.metadata })

pub get_metadata : Symbol → Registry → Result Error MetadataEntry
get_metadata name s = ok_or (lookup name s.metadata) metadata_not_found

pub get_metadata_hash : Symbol → Registry → Result Error (List ℕ)
unfolding get_metadata
get_metadata_hash name s = get_metadata name s >>= λ entry. ok (entry.hash)

pub is_immutable : Symbol → Registry → Result Error Bool
unfolding get_metadata
is_immutable name s = get_metadata name s >>= λ entry. ok (entry.immutable)

-- A `RegistryEntry` is the pair of its two fields.
pub get_registry_entry : Symbol → Registry → Result Error (ContractRegistration × MetadataEntry)
get_registry_entry name s = do
  contract ← ok_or (lookup name s.contracts) not_found
  entry ← ok_or (lookup name s.metadata) metadata_not_found
  ok (contract, entry)

pub data Call : Type 0 where
  initialize_call : Address → Call
  contract_call : Address → Symbol → Address → ℕ → Call
  metadata_call : Address → Symbol → List ℕ → List ℕ → Bool → ℕ → Call

pub invoke : Env → Call → Registry → Result Error Registry
unfolding initialize set_contract set_metadata
invoke env (initialize_call a) s = ok (initialize env a s)
invoke env (contract_call c n a v) s = set_contract env c n a v s
invoke env (metadata_call c n u h i v) s = set_metadata env c n u h i v s

-- The state after a sequence of invocations, each in its own environment.
pub run : List (Env × Call) → Registry → Registry
unfolding invoke
run [] s = s
run ((env, c) ∷ cs) s = run cs (commit s (invoke env c s))
