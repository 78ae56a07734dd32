-- ===== src/Shared/Payments/Once.antt =====
-- A closed escrow stays as it is (shared/src/payments.rs), whatever is done to the escrows in
-- whichever tokens: it is paid out once.
use trellis_contracts.Prelude.{
  ℕ, ◌+◌, ◌≡◌, refl, ◌≢◌, some, List, [], ◌∷◌, arith, unwrap_or, lookup, insert, lookup-insert, ℤ,
}
use trellis_contracts.Host.{Env, Address, bind_then, commit, commit_keeps, ok, err}
use trellis_contracts.Host.Token.{Token}
use trellis_contracts.Shared.Errors.{
  payment_escrow_already_released, payment_escrow_already_refunded,
}
use trellis_contracts.Shared.Payments.{
  EscrowState, EscrowRecord, EscrowStore, new_record, remove_from_active, create_escrow,
  release_escrow, refund_escrow, active, released, refunded,
}
use trellis_contracts.Shared.Payments.Escrows.{AreNumbered, release_effect, refund_effect}
use trellis_contracts.Shared.Payments.Histories.{
  EscrowCall, escrow_call, create_op, release_op, refund_op,
}

-- Operations on escrows, each in its own environment and token.
unfoldable pub token_run :
    {T : Type 0} → Token T → List (Env × Address × EscrowCall) → EscrowStore T → EscrowStore T
token_run c [] s = s
token_run c ((env, token, k) ∷ ks) s = token_run c ks (commit s (escrow_call c env token k s))

-- The record is stored under `k` and closed.
record IsClosed {T : Type 0} (k : ℕ) (r : EscrowRecord) (s : EscrowStore T) : Type 0 where
  numbered : AreNumbered s
  stored : lookup k s.esc_rec ≡ some r
  closed : r.state ≢ active

module _ {T : Type 0} (c : Token T) (env : Env) (token : Address) (k : ℕ) (r : EscrowRecord) where
  create_escrow-IsClosed :
      (depositor beneficiary : Address) (amount : ℤ) (expiry n : ℕ) (s s' : EscrowStore T)
      → IsClosed k r s
      → create_escrow c env token depositor beneficiary amount expiry s ≡ ok (n, s')
      → IsClosed k r s'
  unfolding create_escrow
  create_escrow-IsClosed depositor beneficiary amount expiry n s s' v e =
      let i = unwrap_or s.esc_seq 0 + 1 in
      let new = new_record i token depositor beneficiary amount expiry in
      let rec' : s'.esc_rec ≡ insert i new s.esc_rec = ground arith in
      let seq' : s'.esc_seq ≡ some i = ground arith in
      record {
        numbered = λ j lt. rw rec' (ground (arith, v.numbered j, lookup-insert i j new s.esc_rec));
        stored = rw rec' (ground (arith, v.stored, v.numbered k, lookup-insert i k new s.esc_rec));
        closed = v.closed;
      }

  -- Closing another escrow.
  close-IsClosed :
      (j : ℕ) (st : EscrowState) (q : EscrowRecord) (s s' : EscrowStore T)
      → IsClosed k r s
      → q.state ≡ active
      → lookup j s.esc_rec ≡ some q
      → s'.esc_rec ≡ insert j (record q { state = st }) s.esc_rec
      → s'.esc_seq ≡ s.esc_seq
      → IsClosed k r s'
  close-IsClosed j st q s s' v a found rec' seq' =
      let q' : EscrowRecord = record q { state = st } in
      let ne : j ≢ k = λ same.
        let h = v.stored in
        let h' : lookup k s.esc_rec ≡ some q = rw same at found in v.closed (ground arith) in
      record {
        numbered =
            rw (rec', seq')
              λ i lt. ground (arith, v.numbered i lt, found, lookup-insert j i q' s.esc_rec);
        stored = rw rec' (ground (arith, v.stored, lookup-insert j k q' s.esc_rec));
        closed = v.closed;
      }

  escrow_call-IsClosed :
      (o : EscrowCall) (s s' : EscrowStore T)
      → IsClosed k r s
      → escrow_call c env token o s ≡ ok s'
      → IsClosed k r s'
  unfolding escrow_call remove_from_active
  escrow_call-IsClosed (create_op d b x n) s s' v e =
      bind_then (create_escrow c env token d b x n s) _ e λ out h e₁.
        let q : out.1 ≡ s' = cc in rw (← q) (create_escrow-IsClosed d b x n (out.0) s (out.1) v h)
  escrow_call-IsClosed (release_op j) s s' v e =
      let (q, found, a, _, paid, after) = release_effect c env token j s s' e in
      close-IsClosed j released q s s' v a found (rw after refl) (rw after refl)
  escrow_call-IsClosed (refund_op j) s s' v e =
      let (q, found, a, paid, after) = refund_effect c env token j s s' e in
      close-IsClosed j refunded q s s' v a found (rw after refl) (rw after refl)

module _ {T : Type 0} (c : Token T) where
  token_run-IsClosed :
      (k : ℕ) (r : EscrowRecord) (ks : List (Env × Address × EscrowCall)) (s : EscrowStore T)
      → IsClosed k r s
      → IsClosed k r (token_run c ks s)
  unfolding token_run
  token_run-IsClosed k r [] s v = v
  token_run-IsClosed k r ((env, token, o) ∷ ks) s v =
      token_run-IsClosed k r ks (commit s (escrow_call c env token o s)) (
        commit_keeps (IsClosed k r) (escrow_call c env token o s) s v
          λ t e. escrow_call-IsClosed c env token k r o s t v e)

  -- If no escrow is stored beyond the counter: after a release and any sequence of escrow
  -- creations, releases and refunds, in whichever tokens and environments, every release or refund
  -- of the same escrow fails with PaymentEscrowAlreadyReleased, whatever the time and the token.
  pub release_escrow_once :
      (env env' : Env) (token token' : Address) (k : ℕ) (s s' : EscrowStore T)
      (ks : List (Env × Address × EscrowCall))
      → AreNumbered s
      → release_escrow c env token k s ≡ ok s'
      → (release_escrow c env' token' k (token_run c ks s') ≡ err payment_escrow_already_released)
        × (refund_escrow c env' token' k (token_run c ks s') ≡ err payment_escrow_already_released)
  unfolding release_escrow refund_escrow remove_from_active
  release_escrow_once env env' token token' k s s' ks v e =
      let (r, found, a, _, paid, after) = release_effect c env token k s s' e in
      let r' : EscrowRecord = record r { state = released } in
      let last = token_run-IsClosed k r' ks s' (record {
        numbered = rw after λ j lt. ground (arith, v j lt, found, lookup-insert k j r' s.esc_rec);
        stored = rw after (ground (arith, lookup-insert k k r' s.esc_rec));
        closed = cc;
      }) in
      let h = last.stored in (ground arith, ground arith)

  -- The same after a refund.
  pub refund_escrow_once :
      (env env' : Env) (token token' : Address) (k : ℕ) (s s' : EscrowStore T)
      (ks : List (Env × Address × EscrowCall))
      → AreNumbered s
      → refund_escrow c env token k s ≡ ok s'
      → (release_escrow c env' token' k (token_run c ks s') ≡ err payment_escrow_already_refunded)
        × (refund_escrow c env' token' k (token_run c ks s') ≡ err payment_escrow_already_refunded)
  unfolding release_escrow refund_escrow remove_from_active
  refund_escrow_once env env' token token' k s s' ks v e =
      let (r, found, a, paid, after) = refund_effect c env token k s s' e in
      let r' : EscrowRecord = record r { state = refunded } in
      let last = token_run-IsClosed k r' ks s' (record {
        numbered = rw after λ j lt. ground (arith, v j lt, found, lookup-insert k j r' s.esc_rec);
        stored = rw after (ground (arith, lookup-insert k k r' s.esc_rec));
        closed = cc;
      }) in
      let h = last.stored in (ground arith, ground arith)
