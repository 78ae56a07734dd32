-- ===== src/Registry/Tests.antt =====
-- Runs of the registry, and its theorems at concrete histories.
use trellis_contracts.Prelude.{◌≡◌, refl, true, false, some, List, [], ◌∷◌, lookup}
use trellis_contracts.Host.{Env, ok}
use trellis_contracts.Host.Sample.{env_of}
use trellis_contracts.Registry.{
  Registry, MetadataEntry, Call, initialize_call, contract_call, metadata_call, deployed, run,
  get_contract, get_version_history, get_metadata, get_metadata_hash, is_immutable,
  get_registry_entry,
}
use trellis_contracts.Registry.Entries.{run_immutable, run-IsHistoric, IsHistoric}

abbrev history : List (Env × Call)
history =
    (env_of 1, initialize_call 1)
    ∷ (env_of 1, contract_call 1 5 20 1)
    ∷ (env_of 1, contract_call 1 5 21 2)
    ∷ (env_of 1, contract_call 1 5 20 1)
    ∷ (env_of 2, contract_call 2 5 66 9)
    ∷ (env_of 1, metadata_call 1 5 [] [] false 1)
    ∷ []

abbrev fixed : MetadataEntry
fixed = record { uri = 1 ∷ []; hash = 2 ∷ []; immutable = true; updated_at = 3; schema_version = 1 }

abbrev stored : Registry
stored = record deployed {
  metadata = (5, fixed) ∷ [];
  contracts = (5, record { address = 20; version = 1 }) ∷ [];
  history = (5, 1 ∷ []) ∷ [];
}

resolved : get_contract 5 (run history deployed) ≡ ok (20, 1)
unfolding run get_contract lookup trellis_contracts.Prelude.insert
resolved = refl

versions_kept : get_version_history 5 (run history deployed) ≡ ok (1 ∷ 2 ∷ [])
unfolding run get_version_history lookup trellis_contracts.Prelude.insert
versions_kept = refl

metadata_read :
    (get_metadata 5 stored ≡ ok fixed)
    × (get_metadata_hash 5 stored ≡ ok (2 ∷ []))
    × (is_immutable 5 stored ≡ ok true)
    × (get_registry_entry 5 stored ≡ ok (record { address = 20; version = 1 }, fixed))
unfolding get_metadata get_metadata_hash is_immutable get_registry_entry lookup
metadata_read = (refl, refl, refl, refl)

run_immutable_example : lookup 5 (run history stored).metadata ≡ some fixed
unfolding lookup
run_immutable_example = run_immutable history 5 fixed stored refl refl

run-IsHistoric_example : IsHistoric (run history deployed)
unfolding lookup
run-IsHistoric_example =
    run-IsHistoric history deployed (record { distinct = λ n. tt; recorded = λ n. tt })
