-- ===== src/Upgradeability/Once.antt =====
-- An executed upgrade proposal is never executed again, by whichever sequence of invocations.
use trellis_contracts.Prelude.{ℕ, ◌≡◌, refl, true, some, List, arith}
use trellis_contracts.Host.{Env, bind_then, ok}
use trellis_contracts.Upgradeability.{
  UpgradeProposal, Upgrades, initialize, register_contract, set_migration_hook,
}
use trellis_contracts.Upgradeability.Proposals.{
  Hooks, propose_upgrade, cancel_proposal, execute_upgrade,
}
use trellis_contracts.Upgradeability.Calls.{
  Call, invoke, run, run_keeps, with_hooks_ok, initialize_call, register_call, hook_call,
  propose_call, cancel_call, execute_call,
}
use trellis_contracts.Upgradeability.Effects.{
  propose_upgrade_effect, cancel_proposal_effect, execute_upgrade_effect,
}
use trellis_contracts.Upgradeability.Pending.{
  execute_upgrade-IsTracked, IsTracked, invoke-IsTracked,
}

-- The proposal is stored and executed.
pub record IsExecuted (i : ℕ) (s : Upgrades) : Type 0 where
  pub tracked : IsTracked s
  pub proposal : UpgradeProposal
  pub stored : s.upg_prp i ≡ some proposal
  pub executed : proposal.executed ≡ true

module _ {T : Type 0} (h : Hooks T) where
  invoke-IsExecuted :
      (i : ℕ) (env : Env) (c : Call) (s s' : Upgrades) (l l' : T)
      → IsExecuted i s
      → invoke h env c (s, l) ≡ ok (s', l')
      → (p : UpgradeProposal) × (s'.upg_prp i ≡ some p) × (p.executed ≡ true)
  unfolding invoke register_contract set_migration_hook initialize
  invoke-IsExecuted i env (initialize_call a) s s' l l' v e =
      (v.proposal, (let h = v.stored in ground arith), v.executed)
  invoke-IsExecuted i env (register_call c m n w x) s s' l l' v e =
      (v.proposal, (let h = v.stored in ground arith), v.executed)
  invoke-IsExecuted i env (hook_call c m a) s s' l l' v e =
      (v.proposal, (let h = v.stored in ground arith), v.executed)
  invoke-IsExecuted i env (propose_call c m x n note) s s' l l' v e =
      bind_then (propose_upgrade env c m x n note s) _ e λ out hp e₁.
        let q : out.1 ≡ s' = cc in
        let (_, _, _, _, k, prp, _, _, _, _) =
          propose_upgrade_effect env c m x n (out.0) note s (out.1) hp in
        (
          v.proposal,
          (let h = v.stored in
              let b = v.tracked.own_id i v.proposal h in rw (← q, prp) (ground arith)),
          v.executed,
        )
  invoke-IsExecuted i env (cancel_call c m) s s' l l' v e =
      let r = with_hooks_ok (cancel_proposal env c m s) l s' l' e in
      let (p, at, wait, _, prp, _, _, _, _) = cancel_proposal_effect env c m s s' r in
      (v.proposal, (let h = v.stored in let x = v.executed in rw prp (ground arith)), v.executed)
  invoke-IsExecuted i env (execute_call c m) s s' l l' v e =
      let (p, x, at, wait, _, _, new) = execute_upgrade_effect h env c m s s' l l' e in
      (v.proposal, (let h = v.stored in let x = v.executed in rw new (ground arith)), v.executed)

  run-IsExecuted :
      (i : ℕ) (cs : List (Env × Call)) (s : Upgrades × T)
      → IsExecuted i (s.0)
      → IsExecuted i ((run h cs s).0)
  run-IsExecuted i = run_keeps h (IsExecuted i) λ env c s s' l l' v e.
      let (p, at, done) = invoke-IsExecuted i env c s s' l l' v e in
      record {
        tracked = invoke-IsTracked h env c s s' l l' v.tracked e;
        proposal = p;
        stored = at;
        executed = done;
      }

  -- After a proposal was executed in a tracked state, no sequence of invocations makes it
  -- executable again.
  pub execute_upgrade_once :
      (env env' : Env) (c c' i : ℕ) (s s' : Upgrades) (l l' : T) (cs : List (Env × Call))
      → IsTracked s
      → execute_upgrade h env c i (s, l) ≡ ok (s', l')
      → (t : Upgrades × T) → ¬ execute_upgrade h env' c' i (run h cs (s', l')) ≡ ok t
  execute_upgrade_once env env' c c' i s s' l l' cs v e t again =
      let (p, x, at, wait, _, _, new) = execute_upgrade_effect h env c i s s' l l' e in
      let last =
        run-IsExecuted i cs (s', l')
          record {
            tracked = execute_upgrade-IsTracked h env c i s s' l l' v e;
            proposal = record p { executed = true; executed_at = env.timestamp };
            stored = rw new (ground arith);
            executed = refl;
          } in
      let found = last.stored in
      let done = last.executed in
      let now = run h cs (s', l') in
      let (q, _, at', wait', _, _, _) =
        execute_upgrade_effect h env' c' i (now.0) (t.0) (now.1) (t.1) again in
      ground arith
