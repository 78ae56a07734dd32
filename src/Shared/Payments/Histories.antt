-- ===== src/Shared/Payments/Histories.antt =====
-- Sequences of operations on the escrows of one contract in one token (shared/src/payments.rs).
use trellis_contracts.Prelude.{
  refl, ℕ, ◌+◌, ◌≡◌, sym, ◌≢◌, some, List, [], ◌∷◌, arith, unwrap_or, lookup, lookup-insert, ℤ,
}
use trellis_contracts.Host.{Env, Result, Address, ◌>>=◌, bind_then, commit, commit_keeps, ok}
use trellis_contracts.Host.Token.{Token, IsToken}
use trellis_contracts.Shared.Errors.{Error}
use trellis_contracts.Shared.Payments.{
  EscrowRecord, EscrowStore, new_record, remove_from_active, create_escrow, release_escrow,
  refund_escrow, released, refunded,
}
use trellis_contracts.Shared.Payments.Escrows.{
  IsSound, create_escrow-IsSound, release_effect, refund_effect,
}
use trellis_contracts.Shared.Payments.Closing.{release_escrow-IsSound, refund_escrow-IsSound}

pub data EscrowCall : Type 0 where
  create_op : Address → Address → ℤ → ℕ → EscrowCall
  release_op refund_op : ℕ → EscrowCall

-- Every escrow was made in this token.
abbrev pub AreIn : {T : Type 0} → Address → EscrowStore T → Type 0
AreIn token s = (k : ℕ) (r : EscrowRecord) → lookup k s.esc_rec ≡ some r → r.token ≡ token

-- The call is made at the contract's address, and does not lock the contract's own tokens.
abbrev IsPlain : Address → Env → EscrowCall → Type 0
IsPlain me env (create_op depositor beneficiary amount expiry) =
    (env.current_contract_address ≡ me) × (depositor ≢ me)
IsPlain me env (release_op k) = env.current_contract_address ≡ me
IsPlain me env (refund_op k) = env.current_contract_address ≡ me

IsPlain-at :
    (me : Address) (env : Env) (k : EscrowCall)
    → IsPlain me env k
    → me ≡ env.current_contract_address
IsPlain-at me env (create_op d b x n) (p, _) = sym p
IsPlain-at me env (release_op k) p = sym p
IsPlain-at me env (refund_op k) p = sym p

IsPlain-self :
    (me : Address) (env : Env) (k : EscrowCall)
    → IsPlain me env k
    → IsPlain env.current_contract_address env k
IsPlain-self me env (create_op d b x n) (p, ne) = (refl, rw (← p) at ne)
IsPlain-self me env (release_op k) p = refl
IsPlain-self me env (refund_op k) p = refl

unfoldable pub ArePlain : Address → List (Env × EscrowCall) → Type 0
ArePlain me [] = Unit
ArePlain me ((env, k) ∷ ks) = IsPlain me env k × ArePlain me ks

module _ {T : Type 0} (c : Token T) where
  unfoldable pub escrow_call :
      Env → Address → EscrowCall → EscrowStore T → Result Error (EscrowStore T)
  escrow_call env token (create_op depositor beneficiary amount expiry) s =
      create_escrow c env token depositor beneficiary amount expiry s >>= λ out. ok (out.1)
  escrow_call env token (release_op k) s = release_escrow c env token k s
  escrow_call env token (refund_op k) s = refund_escrow c env token k s

  unfoldable pub escrow_run : Address → List (Env × EscrowCall) → EscrowStore T → EscrowStore T
  escrow_run token [] s = s
  escrow_run token ((env, k) ∷ ks) s = escrow_run token ks (commit s (escrow_call env token k s))

module _ {T : Type 0} (c : Token T) (laws : IsToken c) (env : Env) (token : Address) where
  pub create_escrow-AreIn :
      (depositor beneficiary : Address) (amount : ℤ) (expiry n : ℕ) (s s' : EscrowStore T)
      → AreIn token s
      → create_escrow c env token depositor beneficiary amount expiry s ≡ ok (n, s')
      → AreIn token s'
  unfolding create_escrow
  create_escrow-AreIn depositor beneficiary amount expiry n s s' v e k r h =
      let i = unwrap_or s.esc_seq 0 + 1 in
      let new = new_record i token depositor beneficiary amount expiry in
      ground (arith, v k r, lookup-insert i k new s.esc_rec)

  pub release_escrow-AreIn :
      (k : ℕ) (s s' : EscrowStore T)
      → AreIn token s
      → release_escrow c env token k s ≡ ok s'
      → AreIn token s'
  unfolding remove_from_active
  release_escrow-AreIn k s s' v e j r' =
      let (r, found, a, _, paid, after) = release_effect c env token k s s' e in
      rw after λ h.
        ground
          (arith, v j r', v k r found, lookup-insert k j (record r { state = released }) s.esc_rec)

  pub refund_escrow-AreIn :
      (k : ℕ) (s s' : EscrowStore T)
      → AreIn token s
      → refund_escrow c env token k s ≡ ok s'
      → AreIn token s'
  unfolding remove_from_active
  refund_escrow-AreIn k s s' v e j r' =
      let (r, found, a, paid, after) = refund_effect c env token k s s' e in
      rw after λ h.
        ground
          (arith, v j r', v k r found, lookup-insert k j (record r { state = refunded }) s.esc_rec)

  escrow_call-IsSound :
      (k : EscrowCall) (s s' : EscrowStore T)
      → IsPlain env.current_contract_address env k
      → IsSound c env.current_contract_address s × AreIn token s
      → escrow_call c env token k s ≡ ok s'
      → IsSound c env.current_contract_address s' × AreIn token s'
  unfolding escrow_call
  escrow_call-IsSound (create_op d b x n) s s' (_, ne) (v, w) e =
      bind_then (create_escrow c env token d b x n s) _ e λ out h e₁.
        let q : out.1 ≡ s' = cc in
        rw (← q) (
          create_escrow-IsSound c laws env token d b x n (out.0) s (out.1) v ne h,
          create_escrow-AreIn d b x n (out.0) s (out.1) w h,
        )
  escrow_call-IsSound (release_op k) s s' p (v, w) e =
      (release_escrow-IsSound c laws env token k s s' v (w k) e, release_escrow-AreIn k s s' w e)
  escrow_call-IsSound (refund_op k) s s' p (v, w) e =
      (refund_escrow-IsSound c laws env token k s s' v (w k) e, refund_escrow-AreIn k s s' w e)

module _ {T : Type 0} (c : Token T) (laws : IsToken c) where
  -- At the contract's own address.
  escrow_step :
      (me : Address) (env : Env) (token : Address) (k : EscrowCall) (s s' : EscrowStore T)
      → IsPlain me env k
      → IsSound c me s × AreIn token s
      → escrow_call c env token k s ≡ ok s'
      → IsSound c me s' × AreIn token s'
  escrow_step me env token k s s' p v e =
      let at = IsPlain-at me env k p in
      rw at (escrow_call-IsSound c laws env token k s s' (IsPlain-self me env k p) (rw (← at) v) e)

  -- With the token laws: after any sequence of escrow creations, releases and refunds in one token
  -- at one contract, which locks none of its own tokens, there is no record beyond the counter,
  -- the active list is exact, every active escrow is covered by tokens, and every escrow is in
  -- that token, if so before.
  pub escrow_run-IsSound :
      (me token : Address) (ks : List (Env × EscrowCall)) (s : EscrowStore T)
      → ArePlain me ks
      → IsSound c me s
      → AreIn token s
      → IsSound c me (escrow_run c token ks s) × AreIn token (escrow_run c token ks s)
  unfolding ArePlain escrow_run
  escrow_run-IsSound me token [] s p v w = (v, w)
  escrow_run-IsSound me token ((env, k) ∷ ks) s (p, ps) v w =
      let (v', w') =
        commit_keeps (λ t. IsSound c me t × AreIn token t) (escrow_call c env token k s) s (v, w)
          (λ t e. escrow_step me env token k s t p (v, w) e) in
      escrow_run-IsSound me token ks (commit s (escrow_call c env token k s)) ps v' w'
