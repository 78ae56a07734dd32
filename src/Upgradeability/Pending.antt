-- ===== src/Upgradeability/Pending.antt =====
-- Which proposal of a contract is pending, and what the upgradeability contract lets it do.
use trellis_contracts.Prelude.{
  without, ℕ, ◌≤◌, ◌≡◌, refl, ◌↔◌, inl, inr, true, false, not, some, List, arith, ◌==◌, Bool-cases,
}
use trellis_contracts.Host.{Env, fail_if, ok_or, ok_or-eq_ok, bind_then, ok}
use trellis_contracts.Shared.Auth.{has_role, upgrader}
use trellis_contracts.Upgradeability.{
  UpgradeProposal, Upgrades, initialize, register_contract, set_migration_hook,
  contract_not_registered, proposal_not_found, not_upgrader,
}
use trellis_contracts.Upgradeability.Proposals.{
  Hooks, new_proposal, propose_upgrade, cancel_proposal, verify_upgrade_authorization,
  execute_upgrade,
}
use trellis_contracts.Upgradeability.Calls.{
  Call, invoke, run, run_keeps, with_hooks_ok, initialize_call, register_call, hook_call,
  propose_call, cancel_call, execute_call,
}
use trellis_contracts.Upgradeability.Effects.{
  last_id, propose_upgrade_effect, cancel_proposal_effect, execute_upgrade_effect,
}

-- A proposal is stored under its own number, which is used once; the pending number of a contract
-- is that of its stored proposal that is not executed, and there is no other such proposal.
pub record IsTracked (s : Upgrades) : Type 0 where
  pub own_id : (i : ℕ) (p : UpgradeProposal) → s.upg_prp i ≡ some p → (p.id ≡ i) × (i ≤ last_id s)
  pub open_one :
      (c i : ℕ)
      → s.upg_pend c ≡ some i
      → (p : UpgradeProposal) × (s.upg_prp i ≡ some p) × (p.contract_id ≡ c) × (p.executed ≡ false)
  pub is_pending :
      (i : ℕ) (p : UpgradeProposal)
      → s.upg_prp i ≡ some p
      → p.executed ≡ false
      → s.upg_pend p.contract_id ≡ some i

-- Calls that leave the proposals alone.
same_IsTracked :
    (s s' : Upgrades)
    → IsTracked s
    → s'.upg_prp ≡ s.upg_prp
    → s'.upg_pend ≡ s.upg_pend
    → s'.upg_cnt ≡ s.upg_cnt
    → IsTracked s'
same_IsTracked s s' v a b c = record {
  own_id = rw (a, c) v.own_id;
  open_one = rw (a, b) v.open_one;
  is_pending = rw (a, b) v.is_pending;
}

propose_upgrade-IsTracked :
    (env : Env) (c i x n j : ℕ) (note : List ℕ) (s s' : Upgrades)
    → IsTracked s
    → propose_upgrade env c i x n note s ≡ ok (j, s')
    → IsTracked s'
propose_upgrade-IsTracked env c i x n j note s s' v e =
    let (_, _, _, free, k, prp, pend, cnt, _, _) =
      propose_upgrade_effect env c i x n j note s s' e in
    record {
      own_id =
          rw (prp, cnt)
            λ m p e'. elim (Bool-cases (m == j)) [
              | inl same ↦ ground arith
              | inr other ↦ ground (arith, v.own_id m p)
            ];
      open_one =
          rw (prp, pend)
            λ d m e'. elim (Bool-cases (d == i)) [
              | inl same ↦ (new_proposal env j i x n note c, ground arith, ground arith, refl)
              | inr other ↦
                  let (p, h, at, wait) = v.open_one d m (ground arith) in
                  (p, ground (arith, v.own_id m p), at, wait)
            ];
      is_pending =
          rw (prp, pend)
            λ m p e' wait. elim (Bool-cases (m == j)) [
              | inl same ↦ ground arith
              | inr other ↦ let h = v.is_pending m p (ground arith) wait in ground arith
            ];
    }

cancel_proposal-IsTracked :
    (env : Env) (c i : ℕ) (s s' : Upgrades)
    → IsTracked s
    → cancel_proposal env c i s ≡ ok s'
    → IsTracked s'
cancel_proposal-IsTracked env c i s s' v e =
    let (p, at, wait, _, prp, pend, cnt, _, _) = cancel_proposal_effect env c i s s' e in
    record {
      own_id = rw (prp, cnt) λ m q e'. ground (arith, v.own_id m q);
      open_one =
          rw (prp, pend)
            λ d m e'.
              let (q, h, mine, free) = v.open_one d m (ground arith) in
              (q, ground arith, mine, free);
      is_pending =
          rw (prp, pend)
            λ m q e' free.
              let h = v.is_pending m q (ground arith) free in
              let h' = v.is_pending i p at wait in ground arith;
    }

pub execute_upgrade-IsTracked :
    {T : Type 0} (h : Hooks T) (env : Env) (c i : ℕ) (s s' : Upgrades) (l l' : T)
    → IsTracked s
    → execute_upgrade h env c i (s, l) ≡ ok (s', l')
    → IsTracked s'
execute_upgrade-IsTracked h env c i s s' l l' v e =
    let (p, x, at, wait, _, _, new) = execute_upgrade_effect h env c i s s' l l' e in
    rw new record {
      own_id = λ m q e'. ground (arith, v.own_id m p, v.own_id m q);
      open_one = λ d m e'.
          let (q, h, mine, free) = v.open_one d m (ground arith) in (q, ground arith, mine, free);
      is_pending = λ m q e' free.
          let h = v.is_pending m q (ground arith) free in
          let h' = v.is_pending i p at wait in ground arith;
    }

module _ {T : Type 0} (h : Hooks T) where
  pub invoke-IsTracked :
      (env : Env) (c : Call) (s s' : Upgrades) (l l' : T)
      → IsTracked s
      → invoke h env c (s, l) ≡ ok (s', l')
      → IsTracked s'
  unfolding invoke register_contract set_migration_hook initialize
  invoke-IsTracked env (initialize_call a) s s' l l' v e =
      same_IsTracked s s' v (ground arith) (ground arith) (ground arith)
  invoke-IsTracked env (register_call c i n w x) s s' l l' v e =
      same_IsTracked s s' v (ground arith) (ground arith) (ground arith)
  invoke-IsTracked env (hook_call c i a) s s' l l' v e =
      same_IsTracked s s' v (ground arith) (ground arith) (ground arith)
  invoke-IsTracked env (propose_call c i x n note) s s' l l' v e =
      bind_then (propose_upgrade env c i x n note s) _ e λ out hp e₁.
        let q : out.1 ≡ s' = cc in
        rw (← q) (propose_upgrade-IsTracked env c i x n (out.0) note s (out.1) v hp)
  invoke-IsTracked env (cancel_call c i) s s' l l' v e =
      cancel_proposal-IsTracked env c i s s' v (with_hooks_ok (cancel_proposal env c i s) l s' l' e)
  invoke-IsTracked env (execute_call c i) s s' l l' v e =
      execute_upgrade-IsTracked h env c i s s' l l' v e

  -- After every sequence of invocations of the upgradeability contract, whatever the hooks do,
  -- each proposal is stored under its own number within the counter, the pending number of a
  -- contract is that of a stored proposal of it that is not executed, and there is no other such
  -- proposal, if so before.
  pub run-IsTracked :
      (cs : List (Env × Call)) (s : Upgrades × T) → IsTracked (s.0) → IsTracked ((run h cs s).0)
  run-IsTracked cs s v =
      run_keeps h IsTracked (λ env c s s' l l' v e. invoke-IsTracked env c s s' l l' v e) cs s v

-- In a tracked state verify_upgrade_authorization returns a hash exactly when it is the hash asked
-- for, the caller is an upgrader, and a proposal of the contract to that hash is stored and not
-- executed.
pub verify_upgrade_authorization_iff :
    (contract_id caller hash x : ℕ) (s : Upgrades)
    → IsTracked s
    → (verify_upgrade_authorization contract_id caller hash s ≡ ok x) ↔ (
        (x ≡ hash)
        × (has_role s.auth caller upgrader ≡ true)
        × ((i : ℕ) × (p : UpgradeProposal) × (s.upg_prp i ≡ some p)
            × (p.contract_id ≡ contract_id)
            × (p.new_wasm_hash ≡ hash)
            × (p.executed ≡ false)))
unfolding verify_upgrade_authorization has_role
verify_upgrade_authorization_iff n c hash x s v = (
  λ e. bind_then (fail_if (not (has_role s.auth c upgrader)) not_upgrader) _ e λ _ role e₁.
      bind_then (ok_or (s.upg_pend n) contract_not_registered) _ e₁ λ i hi e₂.
        bind_then (ok_or (s.upg_prp i) proposal_not_found) _ e₂ λ p hp e₃.
          let (q, at, mine, wait) =
            v.open_one n i (ok_or-eq_ok (s.upg_pend n) contract_not_registered hi) in
          let at' = ok_or-eq_ok (s.upg_prp i) proposal_not_found hp in
          (ground arith, ground arith, (i, q, at, mine, ground arith, wait)),
  λ (eq, role, (i, p, at, mine, hash', wait)). let h = v.is_pending i p at wait in ground arith,
)

-- After the execution of a proposal no verification for its contract succeeds.
pub executed_unverified :
    {T : Type 0} (h : Hooks T) (env : Env) (c i caller hash x : ℕ) (p : UpgradeProposal)
    (s s' : Upgrades) (l l' : T)
    → IsTracked s
    → s.upg_prp i ≡ some p
    → execute_upgrade h env c i (s, l) ≡ ok (s', l')
    → ¬ verify_upgrade_authorization p.contract_id caller hash s' ≡ ok x
executed_unverified h env c i caller hash x p s s' l l' v at e verified =
    let (q, _, at', _, _, _, new) = execute_upgrade_effect h env c i s s' l l' e in
    let v' = execute_upgrade-IsTracked h env c i s s' l l' v e in
    let (_, _, (j, r, found, mine, _, wait)) =
      (verify_upgrade_authorization_iff p.contract_id caller hash x s' v').0 verified in
    let waits = v'.is_pending j r found wait in
    let gone : s'.upg_pend ≡ without s.upg_pend q.contract_id = rw new refl in ground arith
