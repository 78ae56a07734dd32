-- ===== src/Shared/Payments/Closing.antt =====
-- Release and refund of escrows (shared/src/payments.rs): they keep the store sound.
use trellis_contracts.Host.Token.{Token, IsToken}
use trellis_contracts.Prelude.{ℕ, ◌≡◌, some, lookup}
use trellis_contracts.Host.{Env, Address, ok}
use trellis_contracts.Shared.Payments.{
  EscrowRecord, EscrowStore, release_escrow, refund_escrow, released, refunded,
}
use trellis_contracts.Shared.Payments.Escrows.{
  close_IsSound, IsSound, release_effect, refund_effect,
}

module _ {T : Type 0} (c : Token T) (laws : IsToken c) (env : Env) where
  -- With the token laws, a release that is paid in the escrow's own token keeps the escrow store
  -- sound: no record beyond the counter, the active list exact, and every active escrow covered by
  -- tokens.
  pub release_escrow-IsSound :
      (token : Address) (k : ℕ) (s s' : EscrowStore T)
      → IsSound c env.current_contract_address s
      → ((r : EscrowRecord) → lookup k s.esc_rec ≡ some r → r.token ≡ token)
      → release_escrow c env token k s ≡ ok s'
      → IsSound c env.current_contract_address s'
  release_escrow-IsSound token k s s' v own e =
      let (r, found, a, _, paid, after) = release_effect c env token k s s' e in
      rw after (
        close_IsSound c laws env k r.beneficiary released r s s'.ledger s'.events v a (cc) found
          (rw (own r found) paid))

  -- With the token laws, a refund that is paid in the escrow's own token keeps the escrow store
  -- sound.
  pub refund_escrow-IsSound :
      (token : Address) (k : ℕ) (s s' : EscrowStore T)
      → IsSound c env.current_contract_address s
      → ((r : EscrowRecord) → lookup k s.esc_rec ≡ some r → r.token ≡ token)
      → refund_escrow c env token k s ≡ ok s'
      → IsSound c env.current_contract_address s'
  refund_escrow-IsSound token k s s' v own e =
      let (r, found, a, paid, after) = refund_effect c env token k s s' e in
      rw after (
        close_IsSound c laws env k r.depositor refunded r s s'.ledger s'.events v a (cc) found
          (rw (own r found) paid))
