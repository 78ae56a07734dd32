-- ===== src/Referral/Calls.antt =====
-- The entry points of the referral contract that change its state, as calls, and sequences of them
-- together with the state of the contracts that it calls.
use trellis_contracts.Prelude.{ℕ, ◌≡◌, List, [], ◌∷◌, ℤ}
use trellis_contracts.Host.{Env, Result, Address, ◌>>=◌, commit, commit_keeps, ok}
use trellis_contracts.Shared.Errors.{Error}
use trellis_contracts.Referral.{
  Referral, initialize, set_treasury, set_registry, set_tier_config, set_referrer, register,
}
use trellis_contracts.Referral.Rewards.{Peers, accrue, claim_rewards}

pub data Call : Type 0 where
  initialize_call : Address → Call
  treasury_call registry_call : Address → Address → Call
  tiers_call : Address → List ℤ → ℕ → ℤ → Call
  referrer_call : Address → Address → Address → Call
  register_call : Address → Address → Call
  accrue_call : Address → Address → ℤ → Call
  claim_call : Address → Call

-- The new state of an entry point that does not call another contract.
abbrev pub with_ledger : {T : Type 0} → T → Result Error Referral → Result Error (Referral × T)
with_ledger l r = r >>= λ s. ok (s, l)

module _ {T : Type 0} (p : Peers T) where
  unfoldable pub invoke : Env → Call → Referral × T → Result Error (Referral × T)
  invoke env (initialize_call a) (s, l) = ok (initialize env a s, l)
  invoke env (treasury_call c t) (s, l) = with_ledger l (set_treasury env c t s)
  invoke env (registry_call c r) (s, l) = with_ledger l (set_registry env c r s)
  invoke env (tiers_call c b n x) (s, l) = with_ledger l (set_tier_config env c b n x s)
  invoke env (referrer_call c w r) (s, l) = with_ledger l (set_referrer env c w r s)
  invoke env (register_call w r) (s, l) = with_ledger l (register env w r s)
  invoke env (accrue_call c w x) (s, l) = accrue env c w x s >>= λ out. ok (out.1, l)
  invoke env (claim_call r) (s, l) = claim_rewards p env r s l >>= λ out. ok (out.1, out.2)

  -- The state after a sequence of invocations, each in its own environment.
  unfoldable pub run : List (Env × Call) → Referral × T → Referral × T
  run [] s = s
  run ((env, c) ∷ cs) s = run cs (commit s (invoke env c s))

  -- What every successful call keeps holds after every sequence of invocations.
  pub run_keeps :
      (P : Referral → Type 0)
      → ((env : Env) (c : Call) (s s' : Referral) (l l' : T)
          → P s
          → invoke env c (s, l) ≡ ok (s', l')
          → P s')
      → (cs : List (Env × Call)) (s : Referral × T) → P (s.0)
      → P ((run cs s).0)
  unfolding run
  run_keeps P keep [] s h = h
  run_keeps P keep ((env, c) ∷ cs) s h = run_keeps P keep cs _ (
      commit_keeps (λ t. P (t.0)) (invoke env c s) s h
        λ t e. keep env c (s.0) (t.0) (s.1) (t.1) h e)
