-- ===== src/Referral/Caps.antt =====
-- The balances of the referral contract: claimable rewards never exceed the lifetime rewards, and
-- those never exceed the largest cap, whatever caps are configured over time.
use trellis_contracts.Prelude.{
  ltb_ℤ, ◌≤◌, pos_part, refl, false, ◌&&◌, ◌-ℤ◌, inr, inl, leb_ℤ, Bool-cases, insert, ◌⊎◌, ℕ, ◌≡◌,
  arith, unwrap_or, lookup, lookup-insert, total, itself, total-insert-itself, ℤ, int_laws, ◌+ℤ◌,
  ◌≤ℤ◌, checked_add, checked_sub, pos,
}
use trellis_contracts.Host.{bind_then, ok_or, ◌>>=◌, ok}
use trellis_contracts.Shared.Errors.{overflow}
use trellis_contracts.Shared.Math.{safe_add, safe_sub}
use trellis_contracts.Referral.{Referral, max_reward_cap, read_accrued, read_lifetime_accrued}
use trellis_contracts.Referral.Rewards.{capped, credit_referrer, credit_positive}

-- One referrer's balances.
abbrev pub AreBooked : ℤ → ℤ → Type 0
AreBooked balance lifetime =
    (pos 0 ≤ℤ balance) × (balance ≤ℤ lifetime) × (lifetime ≤ℤ max_reward_cap)

abbrev pub IsBooked : Referral → Type 0
IsBooked s = (k : ℕ) → AreBooked (read_accrued k s) (read_lifetime_accrued k s)

-- Crediting a referrer does nothing, or adds an amount within the commission and the cap to both
-- balances.
credit_cases :
    (w r tier : ℕ) (x cap y : ℤ) (s s' : Referral)
    → pos 1 ≤ℤ x
    → credit_referrer w r tier x cap s ≡ ok (y, s')
    → ((y ≡ pos 0) × (s' ≡ s))
      ⊎ ((pos 1 ≤ℤ y)
          × (y ≤ℤ x)
          × (read_lifetime_accrued r s +ℤ y ≤ℤ cap)
          × (s'.accrued ≡ insert r (read_accrued r s +ℤ y) s.accrued)
          × (s'.lifetime ≡ insert r (read_lifetime_accrued r s +ℤ y) s.lifetime)
          × (s'.referrer_key ≡ s.referrer_key)
          × (s'.cap_key ≡ s.cap_key)
          × (s'.bps_key ≡ s.bps_key)
          × (s'.tiers_key ≡ s.tiers_key))
unfolding credit_referrer safe_add safe_sub checked_add checked_sub
credit_cases w r tier x cap y s s' p e = elim (Bool-cases (leb_ℤ cap (read_lifetime_accrued r s))) [
  | inl full ↦ inl (ground arith, ground arith)
  | inr room ↦
      let rem = cap -ℤ read_lifetime_accrued r s in
      let q : pos 1 ≤ℤ rem = grind int_laws in
      let z : (leb_ℤ (capped x rem) (pos 0) && leb_ℤ (pos 0) (capped x rem)) ≡ false =
        ground arith in
      let c : capped x rem ≡ y = ground arith in
      let w' : y ≤ℤ rem = ground arith in
      inr (
        ground arith,
        ground arith,
        grind int_laws,
        ground arith,
        ground arith,
        ground arith,
        ground arith,
        ground arith,
        ground arith,
      )
]

-- What crediting one referrer does to the books.
pub credit_effect :
    (w r tier : ℕ) (x cap y : ℤ) (s s' : Referral)
    → IsBooked s
    → pos 1 ≤ℤ x
    → cap ≤ℤ max_reward_cap
    → credit_referrer w r tier x cap s ≡ ok (y, s')
    → (pos 0 ≤ℤ y)
      × (y ≤ℤ x)
      × IsBooked s'
      × (total itself s'.accrued ≡ total itself s.accrued +ℤ y)
      × (s'.referrer_key ≡ s.referrer_key)
      × (s'.cap_key ≡ s.cap_key)
      × (s'.bps_key ≡ s.bps_key)
      × (s'.tiers_key ≡ s.tiers_key)
unfolding read_accrued read_lifetime_accrued
credit_effect w r tier x cap y s s' v p m e = elim (credit_cases w r tier x cap y s s' p e) [
  | inl (zero', same) ↦
      rw (same, zero') (omega arith, omega arith, v, omega int_laws, refl, refl, refl, refl)
  | inr (h₁, h₂, h₃, h₄, h₅, h₆, h₇, h₈, h₉) ↦
      let b = unwrap_or (lookup r s.accrued) (pos 0) in
      let l = unwrap_or (lookup r s.lifetime) (pos 0) in
      (
        omega arith,
        h₂,
        λ k. grind (
          int_laws,
          h₄,
          h₅,
          v r,
          v k,
          lookup-insert r k (b +ℤ y) s.accrued,
          lookup-insert r k (l +ℤ y) s.lifetime,
        ),
        grind (int_laws, h₄, total-insert-itself r (b +ℤ y) s.accrued),
        h₆,
        h₇,
        h₈,
        h₉,
      )
]

-- What accrual leaves alone.
abbrev pub AreKept : Referral → Referral → Type 0
AreKept s s' =
    (s'.referrer_key ≡ s.referrer_key)
    × (s'.cap_key ≡ s.cap_key)
    × (s'.bps_key ≡ s.bps_key)
    × (s'.tiers_key ≡ s.tiers_key)

-- One step of the accrual: it credits `y`, which is at most the commission.
pub credit_positive_effect :
    (w r tier : ℕ) (x cap tot tot' : ℤ) (s s' : Referral)
    → IsBooked s
    → cap ≤ℤ max_reward_cap
    → credit_positive w r tier x cap (tot, s) ≡ ok (tot', s')
    → (y : ℤ) × (pos 0 ≤ℤ y)
      × (pos_part y ≤ pos_part x)
      × (tot' ≡ tot +ℤ y)
      × IsBooked s'
      × (total itself s'.accrued ≡ total itself s.accrued +ℤ y)
      × AreKept s s'
unfolding credit_positive safe_add checked_add
credit_positive_effect w r tier x cap tot tot' s s' v m e = elim (Bool-cases (ltb_ℤ (pos 0) x)) [
  | inr none' ↦
      let q : s' ≡ s = ground arith in
      let t : tot' ≡ tot = ground arith in
      rw (q, t)
        (
          pos 0,
          omega arith,
          omega arith,
          omega int_laws,
          v,
          omega int_laws,
          (refl, refl, refl, refl),
        )
  | inl some' ↦
      let pay : (credit_referrer w r tier x cap s
            >>= (λ out. ok_or (safe_add tot (out.0)) overflow >>= λ total'. ok (total', out.1)))
          ≡ ok (tot', s') =
        rw some' at e in
      bind_then (credit_referrer w r tier x cap s) _ pay λ out h e₁.
        let (z, le, books, sum, k₁, k₂, k₃, k₄) =
          credit_effect w r tier x cap (out.0) s (out.1) v (ground arith) m h in
        bind_then (ok_or (safe_add tot (out.0)) overflow) _ e₁ λ sum' h' e₂.
          let q : out.1 ≡ s' = ground arith in
          let t : tot' ≡ tot +ℤ out.0 = ground arith in
          rw (← q) (out.0, z, ground arith, t, books, sum, (k₁, k₂, k₃, k₄))
]
