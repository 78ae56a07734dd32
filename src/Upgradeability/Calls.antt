-- ===== src/Upgradeability/Calls.antt =====
-- The entry points of the upgradeability contract that change its state, as calls, and sequences of
-- them together with the state of the migration hooks.
use trellis_contracts.Prelude.{ℕ, ◌≡◌, List, [], ◌∷◌}
use trellis_contracts.Host.{
  bind_then, Env, Result, Address, Symbol, ◌>>=◌, commit, commit_keeps, ok,
}
use trellis_contracts.Upgradeability.{
  Upgrades, UpgradeError, initialize, register_contract, set_migration_hook,
}
use trellis_contracts.Upgradeability.Proposals.{
  Hooks, propose_upgrade, cancel_proposal, execute_upgrade,
}

pub data Call : Type 0 where
  initialize_call : Address → Call
  register_call : Address → Address → Symbol → ℕ → ℕ → Call
  hook_call : Address → Address → Address → Call
  propose_call : Address → Address → ℕ → ℕ → List ℕ → Call
  cancel_call execute_call : Address → ℕ → Call

-- The new state of an entry point that does not call another contract.
abbrev pub with_hooks :
    {T : Type 0} → T → Result UpgradeError Upgrades → Result UpgradeError (Upgrades × T)
with_hooks l r = r >>= λ s. ok (s, l)

module _ {T : Type 0} (h : Hooks T) where
  unfoldable pub invoke : Env → Call → Upgrades × T → Result UpgradeError (Upgrades × T)
  invoke env (initialize_call a) (s, l) = ok (initialize env a s, l)
  invoke env (register_call c i n v x) (s, l) = with_hooks l (register_contract env c i n v x s)
  invoke env (hook_call c i a) (s, l) = with_hooks l (set_migration_hook env c i a s)
  invoke env (propose_call c i x v n) (s, l) =
      propose_upgrade env c i x v n s >>= λ out. ok (out.1, l)
  invoke env (cancel_call c i) (s, l) = with_hooks l (cancel_proposal env c i s)
  invoke env (execute_call c i) (s, l) = execute_upgrade h env c i (s, l)

  -- The state after a sequence of invocations, each in its own environment.
  unfoldable pub run : List (Env × Call) → Upgrades × T → Upgrades × T
  run [] s = s
  run ((env, c) ∷ cs) s = run cs (commit s (invoke env c s))

  -- What every successful call keeps holds after every sequence of invocations.
  pub run_keeps :
      (P : Upgrades → Type 0)
      → ((env : Env) (c : Call) (s s' : Upgrades) (l l' : T)
          → P s
          → invoke env c (s, l) ≡ ok (s', l')
          → P s')
      → (cs : List (Env × Call)) (s : Upgrades × T) → P (s.0)
      → P ((run cs s).0)
  unfolding run
  run_keeps P keep [] s v = v
  run_keeps P keep ((env, c) ∷ cs) s v = run_keeps P keep cs _ (
      commit_keeps (λ t. P (t.0)) (invoke env c s) s v
        λ t e. keep env c (s.0) (t.0) (s.1) (t.1) v e)

pub with_hooks_ok :
    {T : Type 0} (r : Result UpgradeError Upgrades) (l : T) (s' : Upgrades) (l' : T)
    → with_hooks l r ≡ ok (s', l')
    → r ≡ ok s'
with_hooks_ok r l s' l' e = bind_then r _ e λ t h e₁. let q : t ≡ s' = cc in rw (← q) h
