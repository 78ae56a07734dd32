-- ===== src/AccessControl/Tests.antt =====
-- Runs of the access-control contract, and its theorems at concrete histories.
use trellis_contracts.Prelude.{ℕ, ◌+◌, ◌≡◌, refl, ◌↔◌, Bool, true, false, some, List, [], ◌∷◌}
use trellis_contracts.Host.{Env, err}
use trellis_contracts.Host.Sample.{env_of}
use trellis_contracts.AccessControl.{
  AccessControl, deployed, is_admin, flagged, has_ancestor, has_role_recursive, get_role_ancestors,
  set_role_parent, remove_admin, cycle_detected, cannot_remove_super_admin, access_code,
}
use trellis_contracts.AccessControl.Hierarchy.{Ancestor, Holds, has_role_iff}
use trellis_contracts.AccessControl.Calls.{
  Call, invoke, run, initialize_call, add_admin_call, remove_admin_call, create_call, parent_call,
  grant_call, revoke_call,
}
use trellis_contracts.AccessControl.Histories.{run_acyclic, run_walks_end, run_super_admin}

-- Roles 10, 11 and 12, each below the next; 5 is a member of the top one, 6 is no longer.
abbrev history : List (ℕ × Env × Call)
history =
    (9, env_of 1, initialize_call 1)
    ∷ (9, env_of 1, add_admin_call 1 2)
    ∷ (9, env_of 2, create_call 2 10)
    ∷ (9, env_of 2, create_call 2 11)
    ∷ (9, env_of 2, create_call 2 12)
    ∷ (9, env_of 1, parent_call 1 10 11)
    ∷ (9, env_of 1, parent_call 1 11 12)
    ∷ (9, env_of 1, parent_call 1 12 10)
    ∷ (9, env_of 1, grant_call 1 12 5)
    ∷ (9, env_of 1, grant_call 1 12 6)
    ∷ (9, env_of 1, revoke_call 1 12 6)
    ∷ (9, env_of 1, remove_admin_call 1 2)
    ∷ (9, env_of 2, remove_admin_call 2 1)
    ∷ []

inherits : has_role_recursive 9 (run history deployed) 10 5 ≡ some true
unfolding run has_role_recursive trellis_contracts.Prelude.lookup invoke remove_admin
    trellis_contracts.AccessControl.gate trellis_contracts.AccessControl.revoke_role
    trellis_contracts.AccessControl.grant_role set_role_parent
    trellis_contracts.AccessControl.create_role trellis_contracts.AccessControl.add_admin
    trellis_contracts.AccessControl.initialize trellis_contracts.Prelude.insert
    trellis_contracts.Prelude.symbol_short has_ancestor
inherits = refl

revoked : has_role_recursive 9 (run history deployed) 10 6 ≡ some false
unfolding run has_role_recursive trellis_contracts.Prelude.lookup invoke remove_admin
    trellis_contracts.AccessControl.gate trellis_contracts.AccessControl.revoke_role
    trellis_contracts.AccessControl.grant_role set_role_parent
    trellis_contracts.AccessControl.create_role trellis_contracts.AccessControl.add_admin
    trellis_contracts.AccessControl.initialize trellis_contracts.Prelude.insert
    trellis_contracts.Prelude.symbol_short has_ancestor
revoked = refl

cycle_refused : set_role_parent 9 (env_of 1) 1 12 10 (run history deployed) ≡ err cycle_detected
unfolding run set_role_parent trellis_contracts.AccessControl.gate trellis_contracts.Prelude.lookup
    invoke remove_admin trellis_contracts.AccessControl.revoke_role
    trellis_contracts.AccessControl.grant_role trellis_contracts.AccessControl.create_role
    trellis_contracts.AccessControl.add_admin trellis_contracts.AccessControl.initialize
    trellis_contracts.Prelude.insert trellis_contracts.Prelude.symbol_short has_ancestor
cycle_refused = refl

super_stays : remove_admin (env_of 1) 1 1 (run history deployed) ≡ err cannot_remove_super_admin
unfolding run remove_admin trellis_contracts.AccessControl.gate trellis_contracts.Prelude.lookup
    invoke trellis_contracts.AccessControl.revoke_role trellis_contracts.AccessControl.grant_role
    set_role_parent trellis_contracts.AccessControl.create_role
    trellis_contracts.AccessControl.add_admin trellis_contracts.AccessControl.initialize
    trellis_contracts.Prelude.insert trellis_contracts.Prelude.symbol_short has_ancestor
super_stays = refl

chain_of_ten : get_role_ancestors 9 (run history deployed).role_parent 10 ≡ some (11 ∷ 12 ∷ [])
unfolding run get_role_ancestors invoke remove_admin trellis_contracts.AccessControl.gate
    trellis_contracts.Prelude.lookup trellis_contracts.AccessControl.revoke_role
    trellis_contracts.AccessControl.grant_role set_role_parent
    trellis_contracts.AccessControl.create_role trellis_contracts.AccessControl.add_admin
    trellis_contracts.AccessControl.initialize trellis_contracts.Prelude.insert
    trellis_contracts.Prelude.symbol_short has_ancestor
chain_of_ten = refl

error_codes : access_code cycle_detected ≡ 205
error_codes = refl

has_role_iff_example : (true ≡ true) ↔ Holds (run history deployed) 5 10
unfolding run has_role_recursive trellis_contracts.Prelude.lookup invoke remove_admin
    trellis_contracts.AccessControl.gate trellis_contracts.AccessControl.revoke_role
    trellis_contracts.AccessControl.grant_role set_role_parent
    trellis_contracts.AccessControl.create_role trellis_contracts.AccessControl.add_admin
    trellis_contracts.AccessControl.initialize trellis_contracts.Prelude.insert
    trellis_contracts.Prelude.symbol_short has_ancestor
has_role_iff_example = has_role_iff 9 (run history deployed) 10 5 true refl

run_acyclic_example : ¬ Ancestor (run history deployed).role_parent 11 11
run_acyclic_example = run_acyclic history 11

run_walks_end_example :
    (n : ℕ) × ((k role user : ℕ)
      → ((b : Bool) × (has_role_recursive (n + k) (run history deployed) role user ≡ some b))
        × ((b : Bool) × (has_ancestor (n + k) (run history deployed).role_parent role user
              ≡ some b))
        × ((chain : List ℕ) × (get_role_ancestors (n + k) (run history deployed).role_parent role
              ≡ some chain)))
run_walks_end_example = run_walks_end history

run_super_admin_example : is_admin 1 (run history deployed) ≡ true
unfolding run invoke remove_admin trellis_contracts.AccessControl.gate
    trellis_contracts.Prelude.lookup trellis_contracts.AccessControl.revoke_role
    trellis_contracts.AccessControl.grant_role set_role_parent
    trellis_contracts.AccessControl.create_role trellis_contracts.AccessControl.add_admin
    trellis_contracts.AccessControl.initialize trellis_contracts.Prelude.insert
    trellis_contracts.Prelude.symbol_short has_ancestor
run_super_admin_example = run_super_admin history 1 refl
