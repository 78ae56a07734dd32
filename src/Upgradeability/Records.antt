-- ===== src/Upgradeability/Records.antt =====
-- The upgrade history of a contract.
use trellis_contracts.Prelude.{
  take, ℕ, zero, suc, ◌≡◌, inl, inr, Option, none, some, List, [], ◌∷◌, arith, Option-cases,
}
use trellis_contracts.Upgradeability.{RegistryEntry, UpgradeRecord, Upgrades}
use trellis_contracts.Upgradeability.Proposals.{history_loop, get_upgrade_history}
use trellis_contracts.Upgradeability.Effects.{last_id}

-- Every record below a proposal, the newest first.
unfoldable pub records_from : (ℕ → Option UpgradeRecord) → ℕ → List UpgradeRecord
records_from get zero = []
records_from get (suc pid) = elim (get (suc pid)) [
  | some found ↦ found ∷ records_from get pid
  | none ↦ records_from get pid
]

history_loop-take :
    (get : ℕ → Option UpgradeRecord) (pid missing : ℕ)
    → history_loop get pid missing ≡ take missing (records_from get pid)
unfolding history_loop records_from
history_loop-take get zero zero = ground arith
history_loop-take get zero (suc missing) = ground arith
history_loop-take get (suc pid) zero = ground arith
history_loop-take get (suc pid) (suc missing) = elim (Option-cases (get (suc pid))) [
  | inl no' ↦ ground (arith, history_loop-take get pid (suc missing))
  | inr (found, yes') ↦ ground (arith, history_loop-take get pid missing)
]

-- For a registered contract the loop of get_upgrade_history returns the first max_results of all
-- its records from the last proposal down, the newest first.
pub get_upgrade_history_lem :
    (contract_id max_results : ℕ) (s : Upgrades) (x : RegistryEntry)
    → s.reg_ent contract_id ≡ some x
    → get_upgrade_history contract_id max_results s
      ≡ take max_results (records_from (s.upg_hist contract_id) (last_id s))
unfolding get_upgrade_history
get_upgrade_history_lem c m s x e =
    let h = history_loop-take (s.upg_hist c) (last_id s) m in ground arith
