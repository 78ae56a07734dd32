-- ===== src/Aid/Solvency.antt =====
-- The aid contract stays solvent through every sequence of invocations.
use trellis_contracts.Host.Token.{Token, IsToken}
use trellis_contracts.Prelude.{
  ◌≡◌, refl, sym, ap, ◌∙◌, Bool, true, false, some, List, [], ◌∷◌, arith, unwrap_or,
}
use trellis_contracts.Host.{Env, Address}
use trellis_contracts.Aid.{
  Aid, initialize, update_config, set_paused, create_aid, claim_aid, refund_aid, settled, refunded,
}
use trellis_contracts.Aid.Calls.{
  Call, invoke, run, committed_ok, second-committed, keep_invoke, initialize_call, update_call,
  create_call, claim_call, refund_call, pause_call,
}
use trellis_contracts.Aid.Escrow.{
  IsSolvent, create_aid_effect, claim_aid_effect, refund_aid_effect, Pays-IsSolvent,
  create_aid-IsSolvent,
}

-- Calls that move no funds leave the records and the tokens alone.
abbrev pub configures : Call → Bool
configures (initialize_call _ _ _ _) = true
configures (update_call _ _ _) = true
configures (create_call _ _ _ _) = false
configures (claim_call _ _) = false
configures (refund_call _) = false
configures (pause_call _ _) = true

pub configures_same :
    {T : Type 0} (c : Token T) (env : Env) (k : Call) (s s' : Aid T)
    → configures k ≡ true
    → invoke c env k s ≡ some s'
    → (s'.aid ≡ s.aid) × (s'.ledger ≡ s.ledger)
unfolding invoke initialize update_config set_paused
configures_same c env (initialize_call _ _ _ _) s s' h e = (ground arith, ground arith)
configures_same c env k s s' h e = (ground arith, ground arith)

module _ {T : Type 0} (c : Token T) (laws : IsToken c) where
  -- No call makes the contract insolvent. (The contract does not authorise its own entry points.)
  pub invoke-IsSolvent :
      (env : Env) (k : Call) (s s' : Aid T)
      → env.authorized env.current_contract_address ≡ false
      → IsSolvent c env.current_contract_address s
      → invoke c env k s ≡ some s'
      → IsSolvent c env.current_contract_address s'
  unfolding invoke
  invoke-IsSolvent env (create_call d r x t) s s' f v e =
      let (n, h) = second-committed (create_aid c env d r x t s) e in
      let (_, _, signed, _, _, _, _, _) = create_aid_effect c env d r x t n s s' h in
      create_aid-IsSolvent c laws env d r x t n s s' v
        (λ q. cc (sym signed ∙ ap env.authorized q ∙ f)) h
  invoke-IsSolvent env (claim_call i r) s s' f v e =
      Pays-IsSolvent c laws env i settled s s' v (cc)
        (claim_aid_effect c env i r s s' (committed_ok (claim_aid c env i r s) e))
  invoke-IsSolvent env (refund_call i) s s' f v e =
      Pays-IsSolvent c laws env i refunded s s' v (cc)
        (refund_aid_effect c env i s s' (committed_ok (refund_aid c env i s) e))
  invoke-IsSolvent env k s s' f v e =
      let (records, tokens) = configures_same c env k s s' refl e in λ u. rw (records, tokens) (v u)

  -- Every invocation of the sequence is of the contract at `self`, which authorises none of them.
  abbrev pub AllAt : Address → List (Env × Call) → Type 0
  AllAt me [] = Unit {0}
  AllAt me ((env, _) ∷ ks) =
      (env.current_contract_address ≡ me) × (env.authorized me ≡ false) × AllAt me ks

  -- With a token contract that keeps the laws of IsToken: after any sequence of invocations of the
  -- aid contract at one address, none of which that address has authorised, the contract still
  -- holds, of every token, at least what its pending aids lock, if it did before.
  pub run-IsSolvent :
      (me : Address) (ks : List (Env × Call)) (s : Aid T)
      → AllAt me ks
      → IsSolvent c me s
      → IsSolvent c me (run c ks s)
  unfolding run
  run-IsSolvent me [] s h v = v
  run-IsSolvent me ((env, k) ∷ ks) s h v =
      run-IsSolvent me ks (unwrap_or (invoke c env k s) s) h.2 (
        keep_invoke (IsSolvent c me) (invoke c env k s) s v
          λ s' e. rw (← h.0) (invoke-IsSolvent env k s s' (rw h.0 h.1) (rw h.0 v) e))
