-- ===== src/Shared/Payments/Escrows.antt =====
-- The escrow life cycle (shared/src/payments.rs): each escrow is closed once, and the contract
-- holds the tokens of every escrow that is still active.
use trellis_contracts.Host.Token.{Token, IsToken}
use trellis_contracts.Prelude.{
  inr, inl, Option-cases, ◌≤◌, refl, ◌||◌, ◌++◌, ◌∷◌, false, not, Bool, Option, List, [],
  total-insert, int_laws, insert, some, FinMap, ℕ, ◌+◌, ◌<◌, ◌≡◌, ◌≢◌, ◌&&◌, none, arith, ◌==◌,
  if◌then◌else◌, unwrap_or, lookup, lookup-insert, total, ℤ, ◌≤ℤ◌, pos,
}
use trellis_contracts.Host.{Event, Env, Address, ok}
use trellis_contracts.Shared.Payments.{
  refunded, released, close_escrow, refund_escrow, release_escrow, remove_from_active, others,
  EscrowState, EscrowRecord, EscrowStore, is_state, new_record, create_escrow, active,
}

-- What an escrow locks of the token `u`.
abbrev pub locked : ℕ → EscrowRecord → ℤ
locked u r = if is_state r.state active && r.token == u then r.amount else pos 0

-- Membership in the list of active escrows.
abbrev pub contains : ℕ → List ℕ → Bool
contains k [] = false
contains k (i ∷ is) = k == i || contains k is

contains-push : (k i : ℕ) (xs : List ℕ) → contains k (xs ++ i ∷ []) ≡ (k == i || contains k xs)
contains-push k i [] = refl
contains-push k i (x ∷ xs) = ground (arith, contains-push k i xs)

contains-others :
    (k i : ℕ) (xs : List ℕ) → contains k (others i xs) ≡ (not (k == i) && contains k xs)
unfolding others
contains-others k i [] = ground arith
contains-others k i (x ∷ xs) = ground (arith, contains-others k i xs)

abbrev pub is_active : Option EscrowRecord → Bool
is_active none = false
is_active (some r) = is_state r.state active

-- No escrow is stored beyond the counter.
abbrev pub AreNumbered : {T : Type 0} → EscrowStore T → Type 0
AreNumbered s = (k : ℕ) → unwrap_or s.esc_seq 0 < k → lookup k s.esc_rec ≡ none

module _ {T : Type 0} (c : Token T) where
  -- No record is stored beyond the counter, the active list names the escrows that are active and
  -- no other, and of every token the contract holds at least what its active escrows lock.
  pub record IsSound (self : Address) (s : EscrowStore T) : Type 0 where
    pub fresh : (k : ℕ) → unwrap_or s.esc_seq 0 < k → lookup k s.esc_rec ≡ none
    pub listed : (k : ℕ) → contains k (unwrap_or s.esc_act []) ≡ is_active (lookup k s.esc_rec)
    pub solvent : (u : ℕ) → total (locked u) s.esc_rec ≤ℤ c.balance u self s.ledger

module _ {T : Type 0} (c : Token T) (laws : IsToken c) (env : Env) where
  abbrev self : Address
  self = env.current_contract_address

  -- Tokens that come in with a new escrow cover it.
  lock_covered :
      (k from u : ℕ) (r : EscrowRecord) (m : FinMap EscrowRecord) (l l' : T)
      → r.state ≡ active
      → from ≢ self
      → lookup k m ≡ none
      → c.transfer r.token from self r.amount l ≡ some l'
      → total (locked u) m ≤ℤ c.balance u self l
      → total (locked u) (insert k r m) ≤ℤ c.balance u self l'
  lock_covered k from u r m l l' a ne f t h = grind (
    int_laws,
    total-insert (locked u) k r m,
    laws.credits r.token from self r.amount l l' t,
    laws.other_tokens r.token u from self self r.amount l l' t,
  )

  -- Tokens that go out with a closed escrow were locked by it.
  close_covered :
      (k to u : ℕ) (st : EscrowState) (r : EscrowRecord) (m : FinMap EscrowRecord) (l l' : T)
      → r.state ≡ active
      → st ≢ active
      → lookup k m ≡ some r
      → c.transfer r.token self to r.amount l ≡ some l'
      → total (locked u) m ≤ℤ c.balance u self l
      → total (locked u) (insert k (record r { state = st }) m) ≤ℤ c.balance u self l'
  close_covered k to u st r m l l' a ne f t h = grind (
    int_laws,
    total-insert (locked u) k (record r { state = st }) m,
    laws.debits r.token self to r.amount l l' t,
    laws.other_tokens r.token u self to self r.amount l l' t,
  )

  -- With the token laws, an escrow that somebody other than the contract funds keeps the escrow
  -- store sound.
  pub create_escrow-IsSound :
      (token depositor beneficiary : Address) (amount : ℤ) (expiry n : ℕ) (s s' : EscrowStore T)
      → IsSound c self s
      → depositor ≢ self
      → create_escrow c env token depositor beneficiary amount expiry s ≡ ok (n, s')
      → IsSound c self s'
  unfolding create_escrow
  create_escrow-IsSound token depositor beneficiary amount expiry n s s' v ne e =
      let i = unwrap_or s.esc_seq 0 + 1 in
      let r = new_record i token depositor beneficiary amount expiry in
      let f = v.fresh i (omega arith) in
      record {
        fresh = λ k h. ground (arith, v.fresh k, lookup-insert i k r s.esc_rec);
        listed = λ k. ground (
          arith,
          v.listed k,
          lookup-insert i k r s.esc_rec,
          contains-push k i (unwrap_or s.esc_act []),
        );
        solvent = λ u.
            ground
              (arith, v.solvent u, f, lock_covered i depositor u r s.esc_rec s.ledger s'.ledger);
      }

  -- Closing an active escrow that was funded in the token of the payout keeps the store sound.
  pub close_IsSound :
      (k to : ℕ) (st : EscrowState) (r : EscrowRecord) (s : EscrowStore T) (l : T) (es : List Event)
      → IsSound c self s
      → r.state ≡ active
      → st ≢ active
      → lookup k s.esc_rec ≡ some r
      → c.transfer r.token self to r.amount s.ledger ≡ some l
      → IsSound c self
          (record (remove_from_active c k (close_escrow k st r s)) { ledger = l; events = es })
  unfolding remove_from_active
  close_IsSound k to st r s l es v a d f t =
      let r' : EscrowRecord = record r { state = st } in
      record {
        fresh = λ j h. ground (arith, v.fresh j, lookup-insert k j r' s.esc_rec);
        listed = λ j. ground (
          arith,
          v.listed j,
          lookup-insert k j r' s.esc_rec,
          contains-others j k (unwrap_or s.esc_act []),
        );
        solvent = λ u. close_covered k to u st r s.esc_rec s.ledger l a d f t (v.solvent u);
      }

module _ {T : Type 0} (c : Token T) (env : Env) where
  -- What a successful release has found and done.
  pub release_effect :
      (token : Address) (k : ℕ) (s s' : EscrowStore T)
      → release_escrow c env token k s ≡ ok s'
      → (r : EscrowRecord) × (lookup k s.esc_rec ≡ some r)
        × (r.state ≡ active)
        × (env.sequence ≤ r.expiry_ledger)
        × (c.transfer token env.current_contract_address r.beneficiary r.amount s.ledger
            ≡ some s'.ledger)
        × (s' ≡ record (remove_from_active c k (close_escrow k released r s)) {
          ledger = s'.ledger;
          events = s'.events;
        })
  unfolding release_escrow
  release_effect token k s s' e = elim (Option-cases (lookup k s.esc_rec)) [
    | inl missing ↦ ground arith
    | inr (r, found) ↦ (r, found, ground arith, ground arith, ground arith, ground arith)
  ]

  pub refund_effect :
      (token : Address) (k : ℕ) (s s' : EscrowStore T)
      → refund_escrow c env token k s ≡ ok s'
      → (r : EscrowRecord) × (lookup k s.esc_rec ≡ some r)
        × (r.state ≡ active)
        × (c.transfer token env.current_contract_address r.depositor r.amount s.ledger
            ≡ some s'.ledger)
        × (s' ≡ record (remove_from_active c k (close_escrow k refunded r s)) {
          ledger = s'.ledger;
          events = s'.events;
        })
  unfolding refund_escrow
  refund_effect token k s s' e = elim (Option-cases (lookup k s.esc_rec)) [
    | inl missing ↦ ground arith
    | inr (r, found) ↦ (r, found, ground arith, ground arith, ground arith)
  ]
