-- ===== src/Gateway/Calls.antt =====
-- The entry points of the payments contract that change its state, but `initialize`, as calls, and
-- sequences of them.
use trellis_contracts.Prelude.{ℕ, ◌≡◌, List, [], ◌∷◌, ℤ}
use trellis_contracts.Host.{Env, Result, Address, ◌>>=◌, commit, commit_keeps, ok}
use trellis_contracts.Host.Token.{Token}
use trellis_contracts.Shared.Errors.{Error}
use trellis_contracts.Gateway.{
  Gateway, set_fee_rate, deposit, withdraw, withdraw_amount, create_escrow_entry,
  release_escrow_entry, refund_escrow_entry, batch_payout,
}

pub data Call : Type 0 where
  fee_call : Address → ℤ → Call
  deposit_call : Address → ℤ → Call
  withdraw_call : Address → Call
  withdraw_amount_call : Address → ℤ → Call
  entry_call : Address → Address → ℤ → ℕ → Call
  release_call refund_call : Address → ℕ → Call
  payout_call : Address → List (Address × ℤ) → Call

module _ {T : Type 0} (c : Token T) where
  unfoldable pub invoke : Env → Call → Gateway T → Result Error (Gateway T)
  invoke env (fee_call a x) s = set_fee_rate c env a x s
  invoke env (deposit_call a x) s = deposit c env a x s
  invoke env (withdraw_call a) s = withdraw c env a s >>= λ out. ok (out.1)
  invoke env (withdraw_amount_call a x) s = withdraw_amount c env a x s >>= λ out. ok (out.1)
  invoke env (entry_call d b x n) s = create_escrow_entry c env d b x n s >>= λ out. ok (out.1)
  invoke env (release_call a k) s = release_escrow_entry c env a k s
  invoke env (refund_call a k) s = refund_escrow_entry c env a k s
  invoke env (payout_call a ps) s = batch_payout c env a ps s >>= λ out. ok (out.1)

  -- The state after a sequence of invocations, each in its own environment.
  unfoldable pub run : List (Env × Call) → Gateway T → Gateway T
  run [] s = s
  run ((env, k) ∷ ks) s = run ks (commit s (invoke env k s))

  -- What every successful call keeps holds after every sequence of invocations.
  pub run_keeps :
      (P : Gateway T → Type 0)
      → ((env : Env) (k : Call) (s s' : Gateway T) → P s → invoke env k s ≡ ok s' → P s')
      → (ks : List (Env × Call)) (s : Gateway T) → P s
      → P (run ks s)
  unfolding run
  run_keeps P keep [] s v = v
  run_keeps P keep ((env, k) ∷ ks) s v =
      run_keeps P keep ks _ (commit_keeps P (invoke env k s) s v λ t e. keep env k s t v e)
