-- ===== src/Upgradeability/Growth.antt =====
-- The versions of a registered contract never go down, unless it is registered a second time.
use trellis_contracts.Prelude.{List, [], ◌∷◌}
use trellis_contracts.Host.{Env, commit}
use trellis_contracts.Upgradeability.{Upgrades}
use trellis_contracts.Upgradeability.Proposals.{Hooks}
use trellis_contracts.Upgradeability.Calls.{Call, invoke}
use trellis_contracts.Upgradeability.Versions.{IsFresh}

module _ {T : Type 0} (h : Hooks T) where
  -- No call of the sequence registers a contract that is registered when it runs.
  unfoldable pub AreFresh : List (Env × Call) → Upgrades × T → Type 0
  AreFresh [] s = Unit
  AreFresh ((env, c) ∷ cs) s = IsFresh c (s.0) × AreFresh cs (commit s (invoke h env c s))
