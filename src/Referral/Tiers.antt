-- ===== src/Referral/Tiers.antt =====
-- The tiers of the referral contract: what a configuration stores is what is read back, and the
-- rates of all tiers together are at most 10000 basis points.
use trellis_contracts.Prelude.{
  ◌&&◌, leb_ℤ, ltb, ◌||◌, checked_add as i128_add, ℕ, zero, suc, ◌+◌, ◌-◌, ◌≤◌, ◌<◌, ◌≡◌, refl, inl,
  inr, true, not, Option, some, List, [], ◌∷◌, arith, ◌==◌, Bool-cases, length, get_elem?, update,
  ℤ, pos_part, ◌+ℤ◌, ◌≤ℤ◌, pos,
}
use trellis_contracts.Host.{Env, fail_if, ok_or, ok_or-eq_ok, bind_then, ok}
use trellis_contracts.Shared.Errors.{overflow, invalid_argument}
use trellis_contracts.Shared.Math.{safe_add}
use trellis_contracts.Referral.{
  require_admin, get_tier_config, Referral, max_reward_cap, max_supported_tiers, is_tier_bps,
  store_tiers, read_tiers, total_bps, validate_tier_config, set_tier_config,
}

-- Rates are in range, and their sum in basis points.
abbrev pub AreRates : List ℤ → Type 0
AreRates [] = Unit {0}
AreRates (b ∷ bs) = (is_tier_bps b ≡ true) × AreRates bs

abbrev pub sum_rates : List ℤ → ℕ
sum_rates [] = 0
sum_rates (b ∷ bs) = pos_part b + sum_rates bs

-- What the loop of the validation has checked.
total_bps_lem :
    (bs : List ℤ) (t t' : ℤ)
    → pos 0 ≤ℤ t
    → total_bps bs t ≡ ok t'
    → AreRates bs × (t' ≡ pos (pos_part t + sum_rates bs))
unfolding total_bps safe_add i128_add ◌+ℤ◌
total_bps_lem [] t t' p e = (tt, ground arith)
total_bps_lem (b ∷ bs) t t' p e =
    bind_then (fail_if (not (is_tier_bps b)) invalid_argument) _ e λ _ ok' e₁.
      bind_then (ok_or (safe_add t b) overflow) _ e₁ λ sum h e₂.
        let z : sum ≡ pos (pos_part t + pos_part b) = ground arith in
        let ih = total_bps_lem bs sum t' (rw z (omega arith)) e₂ in (ground arith, ground arith)

-- Storing the tiers from `tier` on sets each of them to its entry and none before them.
store_tiers_lem :
    (n tier : ℕ) (bs : List ℤ) (m m' : ℕ → Option ℤ)
    → 0 < tier
    → store_tiers n tier bs m ≡ ok m'
    → ((k : ℕ) → k < tier → m' k ≡ m k)
      × ((k : ℕ) → tier ≤ k → k < tier + n → m' k ≡ get_elem? bs (k - 1))
unfolding store_tiers
store_tiers_lem zero tier bs m m' p e = (λ k h. ground arith, λ k h h'. absurd (omega arith))
store_tiers_lem (suc n) tier bs m m' p e =
    bind_then (ok_or (get_elem? bs (tier - 1)) invalid_argument) _ e λ b h e₁.
      let ih = store_tiers_lem n (tier + 1) bs (update m tier b) m' (omega arith) e₁ in
      let at' = ok_or-eq_ok (get_elem? bs (tier - 1)) invalid_argument h in
      (
        λ k lt. ground (arith, ih.0 k),
        λ k ge lt. elim (Bool-cases (k == tier)) [
          | inl same ↦ let q : k ≡ tier = ground arith in rw q (ground (arith, ih.0 tier, at'))
          | inr other ↦ ih.1 k (ground arith) (omega arith)
        ],
      )

abbrev skip : ℕ → List ℤ → List ℤ
skip zero bs = bs
skip (suc n) [] = []
skip (suc n) (b ∷ bs) = skip n bs

skip_elem :
    (i : ℕ) (bs : List ℤ) (b : ℤ) → get_elem? bs i ≡ some b → skip i bs ≡ b ∷ skip (suc i) bs
skip_elem i [] b e = absurd (cc)
skip_elem zero (x ∷ bs) b e = ground arith
skip_elem (suc i) (x ∷ bs) b e = skip_elem i bs b e

skip_all : (bs : List ℤ) → skip (length bs) bs ≡ []
skip_all [] = refl
skip_all (b ∷ bs) = skip_all bs

elem_some : (i : ℕ) (bs : List ℤ) → i < length bs → (b : ℤ) × (get_elem? bs i ≡ some b)
elem_some i [] h = absurd (omega arith)
elem_some zero (x ∷ bs) h = (x, refl)
elem_some (suc i) (x ∷ bs) h = elem_some i bs (omega arith)

-- Reading the tiers gives the list back that they hold.
read_tiers_lem :
    (n i : ℕ) (bs : List ℤ) (m : ℕ → Option ℤ)
    → i + n ≡ length bs
    → ((k : ℕ) → i + 1 ≤ k → k < i + 1 + n → m k ≡ get_elem? bs (k - 1))
    → read_tiers n (i + 1) m ≡ ok (skip i bs)
unfolding read_tiers
read_tiers_lem zero i bs m e h = let q : i ≡ length bs = omega arith in rw q (rw (skip_all bs) refl)
read_tiers_lem (suc n) i bs m e h =
    let (b, at') = elem_some i bs (omega arith) in
    let here = h (i + 1) (omega arith) (omega arith) in
    let ih =
      read_tiers_lem n (i + 1) bs m (omega arith) (λ k l u. h k (omega arith) (omega arith)) in
    ground (arith, ih, here, at', skip_elem i bs b at')

-- A stored configuration is within its bounds, and its tiers can be read.
pub record IsConfigured (s : Referral) : Type 0 where
  pub cap : (c : ℤ) → s.cap_key ≡ some c → (pos 0 ≤ℤ c) × (c ≤ℤ max_reward_cap)
  pub tiers :
      (n : ℕ)
      → s.tiers_key ≡ some n
      → (bs : List ℤ) × (read_tiers n 1 s.bps_key ≡ ok bs) × AreRates bs × (sum_rates bs ≤ 10_000)

-- What an accepted configuration has stored.
pub set_tier_config_effect :
    (env : Env) (c : ℕ) (bs : List ℤ) (n : ℕ) (cap : ℤ) (s s' : Referral)
    → set_tier_config env c bs n cap s ≡ ok s'
    → (read_tiers n 1 s'.bps_key ≡ ok bs)
      × AreRates bs
      × (sum_rates bs ≤ 10_000)
      × (length bs ≡ n)
      × (pos 0 ≤ℤ cap)
      × (cap ≤ℤ max_reward_cap)
      × (s'.tiers_key ≡ some n)
      × (s'.cap_key ≡ some cap)
      × (s'.accrued ≡ s.accrued)
      × (s'.lifetime ≡ s.lifetime)
      × (s'.referrer_key ≡ s.referrer_key)
unfolding set_tier_config validate_tier_config
set_tier_config_effect env c bs n cap s s' e = bind_then (require_admin env c s) _ e λ _ _ e₁.
    bind_then (validate_tier_config bs n cap) _ e₁ λ _ v e₂.
      bind_then (store_tiers n 1 bs s.bps_key) _ e₂ λ m h e₃.
        bind_then
          (fail_if (n == 0 || ltb max_supported_tiers n || not (length bs == n)) invalid_argument) _
          v
          λ _ g v₁.
            bind_then
              (fail_if (not (leb_ℤ (pos 0) cap && leb_ℤ cap max_reward_cap)) invalid_argument) _ v₁
              λ _ g' v₂. bind_then (total_bps bs (pos 0)) _ v₂ λ t q v₃.
                let (rates, sum) = total_bps_lem bs (pos 0) t (omega arith) q in
                let len : length bs ≡ n = ground arith in
                let stored : s'.bps_key ≡ m = ground arith in
                let back = store_tiers_lem n 1 bs s.bps_key m (omega arith) h in
                (
                  rw stored (read_tiers_lem n 0 bs m (omega arith) back.1),
                  rates,
                  ground (arith, sum),
                  len,
                  ground arith,
                  ground arith,
                  ground arith,
                  ground arith,
                  ground arith,
                  ground arith,
                  ground arith,
                )

-- What set_tier_config has accepted is what get_tier_config returns.
pub set-get_tier_config :
    (env : Env) (caller : ℕ) (tier_bps : List ℤ) (max_tiers : ℕ) (reward_cap : ℤ) (s s' : Referral)
    → set_tier_config env caller tier_bps max_tiers reward_cap s ≡ ok s'
    → get_tier_config s'
      ≡ ok (record { tier_bps = tier_bps; max_tiers = max_tiers; reward_cap = reward_cap })
unfolding get_tier_config
set-get_tier_config env caller tier_bps max_tiers reward_cap s s' e =
    let (back, _, _, _, _, _, n, c, _, _, _) =
      set_tier_config_effect env caller tier_bps max_tiers reward_cap s s' e in
    ground (arith, back, n, c)
