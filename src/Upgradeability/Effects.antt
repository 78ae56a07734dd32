-- ===== src/Upgradeability/Effects.antt =====
-- What the successful calls on upgrade proposals find and leave behind.
use trellis_contracts.Prelude.{
  ℕ, ◌+◌, ◌<◌, ◌≡◌, true, false, not, ◌&&◌, some, List, arith, leb, ◌==◌, unwrap_or, is_some,
  update, without,
}
use trellis_contracts.Host.{Env, fail_if, ok_or, ok_or-eq_ok, bind_then, ok}
use trellis_contracts.Shared.Auth.{has_role, require_role, admin, upgrader}
use trellis_contracts.Upgradeability.{
  RegistryEntry, UpgradeProposal, Upgrades, increment, require_upgrader_role,
  contract_not_registered, no_change_detected, proposal_not_found, already_executed,
  already_pending, not_upgrader,
}
use trellis_contracts.Upgradeability.Proposals.{
  Hooks, new_proposal, propose_upgrade, cancel_proposal, upgraded, execute_pre_upgrade_hook,
  execute_post_upgrade_hook, execute_upgrade,
}

-- The number of the last proposal.
abbrev pub last_id : Upgrades → ℕ
last_id s = unwrap_or s.upg_cnt 0

-- A new proposal has the next number and a version above the current one, and its contract had no
-- pending proposal.
pub propose_upgrade_effect :
    (env : Env) (c i x n j : ℕ) (note : List ℕ) (s s' : Upgrades)
    → propose_upgrade env c i x n note s ≡ ok (j, s')
    → (entry : RegistryEntry) × (s.reg_ent i ≡ some entry)
      × (entry.current.version < n)
      × (is_some (s.upg_pend i) ≡ false)
      × (j ≡ last_id s + 1)
      × (s'.upg_prp ≡ update s.upg_prp j (new_proposal env j i x n note c))
      × (s'.upg_pend ≡ update s.upg_pend i j)
      × (s'.upg_cnt ≡ some j)
      × (s'.reg_ent ≡ s.reg_ent)
      × (s'.upg_hist ≡ s.upg_hist)
unfolding propose_upgrade
propose_upgrade_effect env c i x n j note s s' e =
    bind_then (require_upgrader_role env c s) _ e λ _ _ e₁.
      bind_then (ok_or (s.reg_ent i) contract_not_registered) _ e₁ λ entry found e₂.
        bind_then (fail_if (leb n entry.current.version) no_change_detected) _ e₂ λ _ above e₃.
          bind_then (fail_if (x == entry.current.wasm_hash) no_change_detected) _ e₃ λ _ _ e₄.
            bind_then (fail_if (is_some (s.upg_pend i)) already_pending) _ e₄ λ _ free e₅.
              bind_then (increment (unwrap_or s.upg_cnt 0)) _ e₅ λ k up e₆.
                let q : k ≡ j = ground arith in
                let up' : increment (unwrap_or s.upg_cnt 0) ≡ ok j = rw (← q) up in
                (
                  entry,
                  ok_or-eq_ok (s.reg_ent i) contract_not_registered found,
                  ground arith,
                  ground arith,
                  ground arith,
                  ground arith,
                  ground arith,
                  ground arith,
                  ground arith,
                  ground arith,
                )

pub cancel_proposal_effect :
    (env : Env) (c i : ℕ) (s s' : Upgrades)
    → cancel_proposal env c i s ≡ ok s'
    → (p : UpgradeProposal) × (s.upg_prp i ≡ some p)
      × (p.executed ≡ false)
      × (not (p.proposer == c) && not (has_role s.auth c admin) ≡ false)
      × (s'.upg_prp ≡ without s.upg_prp i)
      × (s'.upg_pend ≡ without s.upg_pend p.contract_id)
      × (s'.upg_cnt ≡ s.upg_cnt)
      × (s'.reg_ent ≡ s.reg_ent)
      × (s'.upg_hist ≡ s.upg_hist)
unfolding cancel_proposal has_role
cancel_proposal_effect env c i s s' e =
    bind_then (ok_or (s.upg_prp i) proposal_not_found) _ e λ p hp e₁.
      bind_then (fail_if p.executed already_executed) _ e₁ λ _ _ e₂.
        bind_then (fail_if (not (p.proposer == c) && not (has_role s.auth c admin)) not_upgrader) _
          e₂
          λ _ _ e₃. (
            p,
            ok_or-eq_ok (s.upg_prp i) proposal_not_found hp,
            ground arith,
            ground arith,
            ground arith,
            ground arith,
            ground arith,
            ground arith,
            ground arith,
          )

-- What a successful execution found and left behind: the proposal was not executed, the pre-upgrade
-- hook agreed and the post-upgrade hook succeeded, each on the old and the new version.
pub execute_upgrade_effect :
    {T : Type 0} (h : Hooks T) (env : Env) (c i : ℕ) (s s' : Upgrades) (l l' : T)
    → execute_upgrade h env c i (s, l) ≡ ok (s', l')
    → (p : UpgradeProposal) × (x : RegistryEntry) × (s.upg_prp i ≡ some p)
      × (p.executed ≡ false)
      × (s.reg_ent p.contract_id ≡ some x)
      × (has_role s.auth c upgrader ≡ true)
      × (s' ≡ upgraded env c i p x s)
unfolding execute_upgrade require_upgrader_role require_role
execute_upgrade_effect h env c i s s' l l' e =
    bind_then (require_upgrader_role env c s) _ e λ _ role e₁.
      bind_then (ok_or (s.upg_prp i) proposal_not_found) _ e₁ λ p hp e₂.
        bind_then (fail_if p.executed already_executed) _ e₂ λ _ wait e₃.
          bind_then (ok_or (s.reg_ent p.contract_id) contract_not_registered) _ e₃ λ x hx e₄.
            bind_then
              (execute_pre_upgrade_hook h x.migration_hook x.current.version p.new_version l) _ e₄
              λ l₁ pre e₅.
                bind_then
                  (execute_post_upgrade_hook h x.migration_hook x.current.version p.new_version l₁)
                  _ e₅
                  λ l₂ post e₆. (
                    p,
                    x,
                    ok_or-eq_ok (s.upg_prp i) proposal_not_found hp,
                    ground arith,
                    ok_or-eq_ok (s.reg_ent p.contract_id) contract_not_registered hx,
                    ground arith,
                    cc,
                  )
