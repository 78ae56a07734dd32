-- ===== src/Aid/Escrow.antt =====
-- The aid contract always holds the tokens of every aid that is still pending.
use trellis_contracts.Host.Token.{Token, IsToken}
use trellis_contracts.Prelude.{
  ℕ, ◌<◌, ◌≡◌, ◌≢◌, inl, inr, true, ◌&&◌, none, some, arith, ◌==◌, if◌then◌else◌, Option-cases,
  lookup, insert, total, total-insert, ℤ, int_laws, ◌≤ℤ◌, pos,
}
use trellis_contracts.Host.{Env, Address, ok}
use trellis_contracts.Aid.{
  AidStatus, AidRecord, Aid, is_status, get_aid_counter, new_aid, create_aid, claim_aid, refund_aid,
  pending, settled, refunded,
}

-- What an aid locks of the token `u`.
abbrev pub locked : ℕ → AidRecord → ℤ
locked u r = if is_status r.status pending && r.token == u then r.amount else pos 0

module _ {T : Type 0} (c : Token T) where
  -- Of every token the contract holds at least what its pending aids lock.
  abbrev pub IsSolvent : Address → Aid T → Type 0
  IsSolvent self s = (u : ℕ) → total (locked u) s.aid ≤ℤ c.balance u self s.ledger

module _ {T : Type 0} (c : Token T) (env : Env) where
  abbrev self : Address
  self = env.current_contract_address

  -- What a successful `create_aid` has found and done.
  pub create_aid_effect :
      (donor recipient : Address) (amount : ℤ) (expiry n : ℕ) (s s' : Aid T)
      → create_aid c env donor recipient amount expiry s ≡ ok (n, s')
      → (token : Address) × (n ≡ get_aid_counter s)
        × (env.authorized donor ≡ true)
        × (pos 1 ≤ℤ amount)
        × (env.sequence < expiry)
        × (lookup n s.aid ≡ none)
        × (c.transfer token donor self amount s.ledger ≡ some s'.ledger)
        × (s'.aid ≡ insert n (new_aid n donor recipient token amount expiry) s.aid)
  unfolding create_aid
  create_aid_effect donor recipient amount expiry n s s' e = elim (Option-cases s.token_key) [
    | inl unset ↦ absurd (ground arith)
    | inr (token, set) ↦ elim (Option-cases (c.transfer token donor self amount s.ledger)) [
      | inl refused ↦ absurd (ground arith)
      | inr (l, paid) ↦ elim (Option-cases (lookup (get_aid_counter s) s.aid)) [
        | inl free ↦ (
          token,
          ground arith,
          ground arith,
          ground arith,
          ground arith,
          ground arith,
          ground arith,
          ground arith,
        )
        | inr (old, taken) ↦ absurd (ground arith)
      ]
    ]
  ]

  -- What a successful claim or refund has found and done to the records and the tokens.
  abbrev pub Pays : ℕ → AidStatus → Aid T → Aid T → Type 0
  Pays k st s s' =
      (r : AidRecord) × (to : Address) × (lookup k s.aid ≡ some r)
      × (r.status ≡ pending)
      × (c.transfer r.token self to r.amount s.ledger ≡ some s'.ledger)
      × (s'.aid ≡ insert k (record r { status = st }) s.aid)

  pub claim_aid_effect :
      (k : ℕ) (who : Address) (s s' : Aid T) → claim_aid c env k who s ≡ ok s' → Pays k settled s s'
  unfolding claim_aid
  claim_aid_effect k who s s' e = elim (Option-cases (lookup k s.aid)) [
    | inl missing ↦ absurd (ground arith)
    | inr (r, found) ↦ elim (Option-cases (c.transfer r.token self r.recipient r.amount s.ledger)) [
      | inl refused ↦ absurd (ground arith)
      | inr (l, paid) ↦ (r, r.recipient, found, ground arith, ground arith, ground arith)
    ]
  ]

  pub refund_aid_effect :
      (k : ℕ) (s s' : Aid T) → refund_aid c env k s ≡ ok s' → Pays k refunded s s'
  unfolding refund_aid
  refund_aid_effect k s s' e = elim (Option-cases (lookup k s.aid)) [
    | inl missing ↦ absurd (ground arith)
    | inr (r, found) ↦ elim (Option-cases (c.transfer r.token self r.donor r.amount s.ledger)) [
      | inl refused ↦ absurd (ground arith)
      | inr (l, paid) ↦ (r, r.donor, found, ground arith, ground arith, ground arith)
    ]
  ]

module _ {T : Type 0} (c : Token T) (laws : IsToken c) (env : Env) where
  pub Pays-IsSolvent :
      (k : ℕ) (st : AidStatus) (s s' : Aid T)
      → IsSolvent c env.current_contract_address s
      → st ≢ pending
      → Pays c env k st s s'
      → IsSolvent c env.current_contract_address s'
  Pays-IsSolvent k st s s' v d (r, to, found, a, paid, after) u = rw after (
      grind (
        int_laws,
        v u,
        total-insert (locked u) k (record r { status = st }) s.aid,
        laws.debits r.token env.current_contract_address to r.amount s.ledger s'.ledger paid,
        laws.other_tokens r.token u env.current_contract_address to env.current_contract_address
            r.amount s.ledger s'.ledger paid,
      ))

  pub create_aid-IsSolvent :
      (donor recipient : Address) (amount : ℤ) (expiry n : ℕ) (s s' : Aid T)
      → IsSolvent c env.current_contract_address s
      → donor ≢ env.current_contract_address
      → create_aid c env donor recipient amount expiry s ≡ ok (n, s')
      → IsSolvent c env.current_contract_address s'
  create_aid-IsSolvent donor recipient amount expiry n s s' v ne e u =
      let (token, _, _, _, _, free, paid, after) =
        create_aid_effect c env donor recipient amount expiry n s s' e in
      rw after (
        grind (
          int_laws,
          v u,
          total-insert (locked u) n (new_aid n donor recipient token amount expiry) s.aid,
          laws.credits token donor env.current_contract_address amount s.ledger s'.ledger paid,
          laws.other_tokens token u donor env.current_contract_address env.current_contract_address
              amount s.ledger s'.ledger paid,
        ))
