-- ===== src/Upgradeability/Versions.antt =====
-- How each call moves the versions of the registered contracts, and the proposals above them.
use trellis_contracts.Upgradeability.Effects.{propose_upgrade_effect, cancel_proposal_effect}
use trellis_contracts.Upgradeability.Proposals.{propose_upgrade, cancel_proposal}
use trellis_contracts.Prelude.{
  List, ℕ, ◌≤◌, ◌<◌, ◌≡◌, refl, inl, inr, false, none, some, arith, ◌==◌, Bool-cases,
}
use trellis_contracts.Host.{Env, ok_or, ok_or-eq_ok, bind_then, ok}
use trellis_contracts.Upgradeability.{
  RegistryEntry, UpgradeProposal, Upgrades, require_admin_role, register_contract,
  set_migration_hook, contract_not_registered,
}
use trellis_contracts.Upgradeability.Calls.{
  Call, initialize_call, register_call, hook_call, propose_call, cancel_call, execute_call,
}
use trellis_contracts.Upgradeability.Pending.{IsTracked}

-- Every proposal that waits is for a version above the current one of its contract.
pub record IsAscending (s : Upgrades) : Type 0 where
  pub tracked : IsTracked s
  pub above :
      (i : ℕ) (p : UpgradeProposal)
      → s.upg_prp i ≡ some p
      → p.executed ≡ false
      → (x : RegistryEntry) × (s.reg_ent p.contract_id ≡ some x)
        × (x.current.version < p.new_version)

-- A call registers no contract a second time.
abbrev pub IsFresh : Call → Upgrades → Type 0
IsFresh (register_call c i n v x) s = s.reg_ent i ≡ none
IsFresh (initialize_call a) s = Unit
IsFresh (hook_call c i a) s = Unit
IsFresh (propose_call c i x v n) s = Unit
IsFresh (cancel_call c i) s = Unit
IsFresh (execute_call c i) s = Unit

-- Every contract keeps its entry, at the same version or a later one.
abbrev pub HasGrown : Upgrades → Upgrades → Type 0
HasGrown s s' =
    (c : ℕ) (x : RegistryEntry)
    → s.reg_ent c ≡ some x
    → (x' : RegistryEntry) × (s'.reg_ent c ≡ some x') × (x.current.version ≤ x'.current.version)

pub HasGrown-same : (s s' : Upgrades) → s'.reg_ent ≡ s.reg_ent → HasGrown s s'
HasGrown-same s s' e c x h = (x, rw e h, omega arith)

-- The proposals stay; the entries may have grown but no further than in `above`.
pub kept_IsAscending :
    (s s' : Upgrades)
    → IsAscending s
    → IsTracked s'
    → s'.upg_prp ≡ s.upg_prp
    → ((c : ℕ) (x : RegistryEntry)
        → s.reg_ent c ≡ some x
        → (x' : RegistryEntry) × (s'.reg_ent c ≡ some x')
          × (x'.current.version ≡ x.current.version))
    → IsAscending s'
kept_IsAscending s s' v t e keep = record {
  tracked = t;
  above = λ i p h wait.
      let (x, at, lt) = v.above i p (rw (← e) h) wait in
      let (x', at', same) = keep p.contract_id x at in (x', at', omega arith);
}

pub register_contract_keeps :
    (env : Env) (c i n w x : ℕ) (s s' : Upgrades)
    → s.reg_ent i ≡ none
    → register_contract env c i n w x s ≡ ok s'
    → (k : ℕ) (y : RegistryEntry) → s.reg_ent k ≡ some y
    → (y' : RegistryEntry) × (s'.reg_ent k ≡ some y') × (y'.current.version ≡ y.current.version)
unfolding register_contract
register_contract_keeps env c i n w x s s' free e k y h = (y, ground arith, refl)

pub set_migration_hook_keeps :
    (env : Env) (c i a : ℕ) (s s' : Upgrades)
    → set_migration_hook env c i a s ≡ ok s'
    → (k : ℕ) (y : RegistryEntry) → s.reg_ent k ≡ some y
    → (y' : RegistryEntry) × (s'.reg_ent k ≡ some y') × (y'.current.version ≡ y.current.version)
unfolding set_migration_hook
set_migration_hook_keeps env c i a s s' e k y h =
    bind_then (require_admin_role env c s) _ e λ _ _ e₁.
      bind_then (ok_or (s.reg_ent i) contract_not_registered) _ e₁ λ entry found e₂.
        let at = ok_or-eq_ok (s.reg_ent i) contract_not_registered found in
        elim (Bool-cases (k == i)) [
          | inl same ↦
              let q : k ≡ i = ground arith in
              (record entry { migration_hook = some a }, ground arith, ground arith)
          | inr other ↦ (y, ground arith, refl)
        ]

-- The same, with the growth of the entries.
pub unmoved_IsAscending :
    (s s' : Upgrades)
    → IsAscending s
    → IsTracked s'
    → s'.upg_prp ≡ s.upg_prp
    → ((c : ℕ) (x : RegistryEntry)
        → s.reg_ent c ≡ some x
        → (x' : RegistryEntry) × (s'.reg_ent c ≡ some x')
          × (x'.current.version ≡ x.current.version))
    → IsAscending s' × HasGrown s s'
unmoved_IsAscending s s' v t e keep = (
  kept_IsAscending s s' v t e keep,
  λ c x at. let (x', at', same) = keep c x at in (x', at', omega arith),
)

pub register_contract_prp :
    (env : Env) (c i n w x : ℕ) (s s' : Upgrades)
    → register_contract env c i n w x s ≡ ok s'
    → s'.upg_prp ≡ s.upg_prp
unfolding register_contract
register_contract_prp env c i n w x s s' e = ground arith

pub set_migration_hook_prp :
    (env : Env) (c i a : ℕ) (s s' : Upgrades)
    → set_migration_hook env c i a s ≡ ok s'
    → s'.upg_prp ≡ s.upg_prp
unfolding set_migration_hook
set_migration_hook_prp env c i a s s' e = ground arith

pub propose_upgrade-IsAscending :
    (env : Env) (c i x n j : ℕ) (note : List ℕ) (s s' : Upgrades)
    → IsAscending s
    → IsTracked s'
    → propose_upgrade env c i x n note s ≡ ok (j, s')
    → IsAscending s'
propose_upgrade-IsAscending env c i x n j note s s' v t e =
    let (entry, at, lt, _, k, prp, _, _, ent, _) =
      propose_upgrade_effect env c i x n j note s s' e in
    record {
      tracked = t;
      above =
          rw (prp, ent)
            λ m p h wait. elim (Bool-cases (m == j)) [
              | inl same ↦ (entry, ground arith, ground arith)
              | inr other ↦ v.above m p (ground arith) wait
            ];
    }

pub cancel_proposal-IsAscending :
    (env : Env) (c i : ℕ) (s s' : Upgrades)
    → IsAscending s
    → IsTracked s'
    → cancel_proposal env c i s ≡ ok s'
    → IsAscending s'
cancel_proposal-IsAscending env c i s s' v t e =
    let (_, _, _, _, prp, _, _, ent, _) = cancel_proposal_effect env c i s s' e in
    record { tracked = t; above = rw (prp, ent) λ m p h wait. v.above m p (ground arith) wait }
