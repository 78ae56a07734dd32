-- ===== src/Gateway/Escrows.antt =====
-- The escrow entries of the payments contract (contracts/payments-contract/src/lib.rs), over the
-- escrows of shared/src/payments.rs: with each of them the contract's debts stay covered.
use trellis_contracts.Prelude.{
  ℕ, ◌+◌, ◌≡◌, refl, ◌≢◌, some, arith, unwrap_or, lookup, insert, lookup-insert, total,
  total-insert, ℤ, int_laws, ◌+ℤ◌, ◌≤ℤ◌,
}
use trellis_contracts.Host.{Env, Address, ok}
use trellis_contracts.Host.Token.{Token, IsToken}
use trellis_contracts.Shared.Payments.{
  EscrowState, EscrowRecord, EscrowStore, new_record, remove_from_active, create_escrow,
  release_escrow, refund_escrow, active, released, refunded,
}
use trellis_contracts.Shared.Payments.Escrows.{AreNumbered, locked, release_effect, refund_effect}
use trellis_contracts.Shared.Payments.Histories.{AreIn}

module _ {T : Type 0} (c : Token T) (laws : IsToken c) (env : Env) where
  abbrev self : Address
  self = env.current_contract_address

  -- The escrows and another debt `x` are covered.
  abbrev pub Covers : ℤ → Address → EscrowStore T → Type 0
  Covers x u s = x +ℤ total (locked u) s.esc_rec ≤ℤ c.balance u self s.ledger

  pub create_escrow-Covers :
      (x : ℤ) (u d b : Address) (amount : ℤ) (expiry n : ℕ) (s s' : EscrowStore T)
      → AreNumbered s
      → d ≢ self
      → create_escrow c env u d b amount expiry s ≡ ok (n, s')
      → Covers x u s
      → AreNumbered s' × Covers x u s'
  unfolding create_escrow
  create_escrow-Covers x u d b amount expiry n s s' v ne e h =
      let i = unwrap_or s.esc_seq 0 + 1 in
      let r = new_record i u d b amount expiry in
      let f = v i (omega arith) in
      let paid : c.transfer u d self amount s.ledger ≡ some s'.ledger = ground arith in
      let rec' : s'.esc_rec ≡ insert i r s.esc_rec = ground arith in
      let seq' : s'.esc_seq ≡ some i = ground arith in
      (
        λ k lt. ground (arith, v k, lookup-insert i k r s.esc_rec),
        rw rec' (
            grind (
              int_laws,
              total-insert (locked u) i r s.esc_rec,
              laws.credits u d self amount s.ledger s'.ledger paid,
            )),
      )

  -- Closing an active escrow in the token `u`.
  close-Covers :
      (x : ℤ) (u to k : Address) (st : EscrowState) (r : EscrowRecord) (s s' : EscrowStore T)
      → AreNumbered s
      → r.state ≡ active
      → st ≢ active
      → r.token ≡ u
      → lookup k s.esc_rec ≡ some r
      → c.transfer u self to r.amount s.ledger ≡ some s'.ledger
      → s'.esc_rec ≡ insert k (record r { state = st }) s.esc_rec
      → s'.esc_seq ≡ s.esc_seq
      → Covers x u s
      → AreNumbered s' × Covers x u s'
  close-Covers x u to k st r s s' v a d t f paid rec' seq' h =
      let r' : EscrowRecord = record r { state = st } in
      (
        rw (rec', seq') λ j lt. ground (arith, v j lt, lookup-insert k j r' s.esc_rec),
        rw rec' (
            grind (
              int_laws,
              total-insert (locked u) k r' s.esc_rec,
              laws.debits u self to r.amount s.ledger s'.ledger paid,
            )),
      )

  pub release_escrow-Covers :
      (x : ℤ) (u k : Address) (s s' : EscrowStore T)
      → AreNumbered s
      → AreIn u s
      → release_escrow c env u k s ≡ ok s'
      → Covers x u s
      → AreNumbered s' × Covers x u s'
  unfolding remove_from_active
  release_escrow-Covers x u k s s' v w e h =
      let (r, found, a, _, paid, after) = release_effect c env u k s s' e in
      close-Covers x u r.beneficiary k released r s s' v a (cc) (w k r found) found paid
        (rw after refl) (rw after refl) h

  pub refund_escrow-Covers :
      (x : ℤ) (u k : Address) (s s' : EscrowStore T)
      → AreNumbered s
      → AreIn u s
      → refund_escrow c env u k s ≡ ok s'
      → Covers x u s
      → AreNumbered s' × Covers x u s'
  unfolding remove_from_active
  refund_escrow-Covers x u k s s' v w e h =
      let (r, found, a, paid, after) = refund_effect c env u k s s' e in
      close-Covers x u r.depositor k refunded r s s' v a (cc) (w k r found) found paid
        (rw after refl) (rw after refl) h
