-- ===== src/Aid/Claims.antt =====
-- Exactly when an aid can be claimed or refunded.
use trellis_contracts.Shared.Events.{emit}
use trellis_contracts.Host.Token.{Token}
use trellis_contracts.Prelude.{
  ℕ, ◌≤◌, ◌<◌, ◌≡◌, ◌↔◌, inl, inr, true, false, some, [], ◌∷◌, arith, Option-cases, symbol_short,
  lookup, insert,
}
use trellis_contracts.Host.{Env, Address, ok, num}
use trellis_contracts.Aid.{
  log, AidRecord, Aid, acted, claim_aid, refund_aid, pending, settled, refunded,
}
use trellis_contracts.Shared.Auth.{is_paused}

module _ {T : Type 0} (c : Token T) (env : Env) where
  -- A claim succeeds exactly when the contract is not paused, the aid is pending and not expired,
  -- its recipient asks and has authorised it, and the token contract makes the transfer.
  pub claim_aid_iff :
      (k : ℕ) (who : Address) (s : Aid T)
      → ((s' : Aid T) × (claim_aid c env k who s ≡ ok s')) ↔ (
          (r : AidRecord) × (l : T) × (is_paused s.auth ≡ false)
          × (env.authorized who ≡ true)
          × (lookup k s.aid ≡ some r)
          × (r.status ≡ pending)
          × (env.sequence ≤ r.expiry_ledger)
          × (who ≡ r.recipient)
          × (c.transfer r.token env.current_contract_address r.recipient r.amount s.ledger
              ≡ some l))
  unfolding claim_aid
  claim_aid_iff k who s = (
    λ (s', e). elim (Option-cases (lookup k s.aid)) [
      | inl missing ↦ absurd (ground arith)
      | inr (r, found) ↦
          elim (Option-cases
            (c.transfer r.token env.current_contract_address r.recipient r.amount s.ledger)) [
              | inl refused ↦ absurd (ground arith)
              | inr (l, paid) ↦ (
                r,
                l,
                ground arith,
                ground arith,
                found,
                ground arith,
                ground arith,
                ground arith,
                paid,
              )
            ]
    ],
    λ (r, l, h₁, h₂, h₃, h₄, h₅, h₆, h₇). (
      log
          (acted env "claim_aid"
            ∷ emit (symbol_short "aid_stl") (num k ∷ [])
            ∷ emit (symbol_short "aid_clm") (num k ∷ [])
            ∷ [])
          (record s { aid = insert k (record r { status = settled }) s.aid; ledger = l }),
      ground arith,
    ),
  )

  -- A refund succeeds exactly when the aid is pending and expired and the token contract makes the
  -- transfer to the donor: whoever calls, with no authorisation and also while paused.
  pub refund_aid_iff :
      (k : ℕ) (s : Aid T)
      → ((s' : Aid T) × (refund_aid c env k s ≡ ok s')) ↔ (
          (r : AidRecord) × (l : T) × (lookup k s.aid ≡ some r)
          × (r.status ≡ pending)
          × (r.expiry_ledger < env.sequence)
          × (c.transfer r.token env.current_contract_address r.donor r.amount s.ledger ≡ some l))
  unfolding refund_aid
  refund_aid_iff k s = (
    λ (s', e). elim (Option-cases (lookup k s.aid)) [
      | inl missing ↦ absurd (ground arith)
      | inr (r, found) ↦
          elim (Option-cases
            (c.transfer r.token env.current_contract_address r.donor r.amount s.ledger)) [
              | inl refused ↦ absurd (ground arith)
              | inr (l, paid) ↦ (r, l, found, ground arith, ground arith, paid)
            ]
    ],
    λ (r, l, h₁, h₂, h₃, h₄). (
      log (acted env "refund" ∷ emit (symbol_short "aid_ref") (num k ∷ []) ∷ [])
          (record s { aid = insert k (record r { status = refunded }) s.aid; ledger = l }),
      ground arith,
    ),
  )
