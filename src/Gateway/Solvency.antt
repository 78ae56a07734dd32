-- ===== src/Gateway/Solvency.antt =====
-- The single calls of the payments contract keep it able to pay its accounts and its escrows.
use trellis_contracts.Shared.Payments.Escrows.{AreNumbered}
use trellis_contracts.Shared.Auth.{require_admin}
use trellis_contracts.Prelude.{refl, sym, ℕ, ◌≡◌, ◌≢◌, some, List, [], ◌∷◌, total, itself, ℤ}
use trellis_contracts.Host.{Env, Address, require_auth, ok_or, ok_or-eq_ok, bind_then, ok}
use trellis_contracts.Host.Token.{Token, IsToken}
use trellis_contracts.Shared.Errors.{not_found}
use trellis_contracts.Shared.Payments.{EscrowStore, create_escrow, release_escrow, refund_escrow}
use trellis_contracts.Shared.Payments.Histories.{
  AreIn, create_escrow-AreIn, release_escrow-AreIn, refund_escrow-AreIn,
}
use trellis_contracts.Gateway.{
  Gateway, total_deposits, create_escrow_entry, release_escrow_entry, refund_escrow_entry,
}
use trellis_contracts.Gateway.Accounts.{IsBalanced}
use trellis_contracts.Gateway.Calls.{
  release_call, refund_call, entry_call, Call, fee_call, deposit_call, withdraw_call,
  withdraw_amount_call, payout_call,
}
use trellis_contracts.Gateway.Escrows.{
  Covers, create_escrow-Covers, release_escrow-Covers, refund_escrow-Covers,
}
use trellis_contracts.Gateway.Backing.{owed, IsBacked}

-- The call is made at the contract's address, does not draw on the contract's own tokens and is not
-- a batch payout, which may pay out the accounts' tokens.
abbrev pub IsPlain : Address → Env → Call → Type 0
IsPlain me env (fee_call a x) = env.current_contract_address ≡ me
IsPlain me env (deposit_call a x) = (env.current_contract_address ≡ me) × (a ≢ me)
IsPlain me env (withdraw_call a) = env.current_contract_address ≡ me
IsPlain me env (withdraw_amount_call a x) = env.current_contract_address ≡ me
IsPlain me env (entry_call d b x n) = (env.current_contract_address ≡ me) × (d ≢ me)
IsPlain me env (release_call a k) = env.current_contract_address ≡ me
IsPlain me env (refund_call a k) = env.current_contract_address ≡ me
IsPlain me env (payout_call a ps) = ⊥

pub IsPlain-self :
    (me : Address) (env : Env) (k : Call)
    → IsPlain me env k
    → (me ≡ env.current_contract_address) × IsPlain env.current_contract_address env k
IsPlain-self me env (fee_call a x) p = (sym p, refl)
IsPlain-self me env (deposit_call a x) (p, ne) = (sym p, (refl, rw (← p) at ne))
IsPlain-self me env (withdraw_call a) p = (sym p, refl)
IsPlain-self me env (withdraw_amount_call a x) p = (sym p, refl)
IsPlain-self me env (entry_call d b x n) (p, ne) = (sym p, (refl, rw (← p) at ne))
IsPlain-self me env (release_call a k) p = (sym p, refl)
IsPlain-self me env (refund_call a k) p = (sym p, refl)
IsPlain-self me env (payout_call a ps) p = absurd p

unfoldable pub ArePlain : Address → List (Env × Call) → Type 0
ArePlain me [] = Unit
ArePlain me ((env, k) ∷ ks) = IsPlain me env k × ArePlain me ks

module _ {T : Type 0} (c : Token T) where
  -- The books are balanced, the contract's balance of its token covers the accounts and the active
  -- escrows, and the escrows are numbered and in that token.
  pub record IsSolid (me : Address) (s : Gateway T) : Type 0 where
    pub balanced : IsBalanced c s
    pub backed : IsBacked c me s
    pub numbered : AreNumbered s.escrows
    pub single : (u : Address) → s.token_key ≡ some u → AreIn u s.escrows

module _ {T : Type 0} (c : Token T) (laws : IsToken c) (env : Env) where
  abbrev self : Address
  self = env.current_contract_address

  -- Calls that leave the escrows alone.
  pub same_escrows :
      (s s' : Gateway T)
      → IsSolid c self s
      → IsBalanced c s'
      → IsBacked c self s'
      → s'.escrows.esc_rec ≡ s.escrows.esc_rec
      → s'.escrows.esc_seq ≡ s.escrows.esc_seq
      → s'.token_key ≡ s.token_key
      → IsSolid c self s'
  same_escrows s s' v b k r q t = record {
    balanced = b;
    backed = k;
    numbered = rw (r, q) v.numbered;
    single = rw (r, t) v.single;
  }

  -- An escrow entry in the token of the contract.
  entry_IsSolid :
      (u : Address) (e : EscrowStore T) (s : Gateway T)
      → IsSolid c self s
      → s.token_key ≡ some u
      → AreIn u e
      → (Covers c laws env (total itself s.depos) u s.escrows
          → AreNumbered e × Covers c laws env (total itself s.depos) u e)
      → IsSolid c self (record s { escrows = e })
  unfolding owed total_deposits
  entry_IsSolid u e s v set one keep =
      let (nums, cov) = keep (v.backed u set) in
      record {
        balanced = record {
          nonneg = v.balanced.nonneg;
          summed = v.balanced.summed;
          range = v.balanced.range;
        };
        backed = λ w k. let q : u ≡ w = cc in rw (← q) cov;
        numbered = nums;
        single = λ w k. let q : u ≡ w = cc in rw (← q) one;
      }

  pub create_escrow_entry-IsSolid :
      (d b n m : ℕ) (x : ℤ) (s s' : Gateway T)
      → IsSolid c self s
      → d ≢ self
      → create_escrow_entry c env d b x n s ≡ ok (m, s')
      → IsSolid c self s'
  unfolding create_escrow_entry
  create_escrow_entry-IsSolid d b n m x s s' v ne e = bind_then (require_auth env d) _ e λ _ _ e₁.
      bind_then (ok_or s.token_key not_found) _ e₁ λ u set e₂.
        bind_then (create_escrow c env u d b x n s.escrows) _ e₂ λ out h e₃.
          let at = ok_or-eq_ok s.token_key not_found set in
          let q : record s { escrows = out.1 } ≡ s' = cc in
          rw (← q) (
            entry_IsSolid u (out.1) s v at
              (create_escrow-AreIn c laws env u d b x n (out.0) s.escrows (out.1) (v.single u at) h)
              (create_escrow-Covers c laws env (total itself s.depos) u d b x n (out.0) s.escrows
                (out.1) v.numbered ne h))

  pub release_escrow_entry-IsSolid :
      (a k : ℕ) (s s' : Gateway T)
      → IsSolid c self s
      → release_escrow_entry c env a k s ≡ ok s'
      → IsSolid c self s'
  unfolding release_escrow_entry require_admin
  release_escrow_entry-IsSolid a k s s' v e = bind_then (require_admin env s.auth a) _ e λ _ _ e₁.
      bind_then (ok_or s.token_key not_found) _ e₁ λ u set e₂.
        bind_then (release_escrow c env u k s.escrows) _ e₂ λ out h e₃.
          let at = ok_or-eq_ok s.token_key not_found set in
          let q : record s { escrows = out } ≡ s' = cc in
          rw (← q) (
            entry_IsSolid u out s v at
              (release_escrow-AreIn c laws env u k s.escrows out (v.single u at) h)
              (release_escrow-Covers c laws env (total itself s.depos) u k s.escrows out v.numbered
                (v.single u at) h))

  pub refund_escrow_entry-IsSolid :
      (a k : ℕ) (s s' : Gateway T)
      → IsSolid c self s
      → refund_escrow_entry c env a k s ≡ ok s'
      → IsSolid c self s'
  unfolding refund_escrow_entry require_admin
  refund_escrow_entry-IsSolid a k s s' v e = bind_then (require_admin env s.auth a) _ e λ _ _ e₁.
      bind_then (ok_or s.token_key not_found) _ e₁ λ u set e₂.
        bind_then (refund_escrow c env u k s.escrows) _ e₂ λ out h e₃.
          let at = ok_or-eq_ok s.token_key not_found set in
          let q : record s { escrows = out } ≡ s' = cc in
          rw (← q) (
            entry_IsSolid u out s v at
              (refund_escrow-AreIn c laws env u k s.escrows out (v.single u at) h)
              (refund_escrow-Covers c laws env (total itself s.depos) u k s.escrows out v.numbered
                (v.single u at) h))
