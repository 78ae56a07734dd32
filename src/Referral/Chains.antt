-- ===== src/Referral/Chains.antt =====
-- The chains of referrers: the check of `would_create_cycle` keeps them free of cycles within the
-- ten steps that rewards climb.
use trellis_contracts.Prelude.{
  ℕ, zero, suc, ◌+◌, ◌-◌, ◌≤◌, ◌<◌, ◌≡◌, refl, ◌∙◌, ◌≢◌, ◌⊎◌, inl, inr, false, not, ◌||◌, Option,
  none, some, arith, ◌==◌, Bool-cases, Option-cases, is_some, update,
}
use trellis_contracts.Host.{Env, fail_if, require_auth, bind_then, ok}
use trellis_contracts.Shared.Errors.{invalid_argument}
use trellis_contracts.Referral.{
  Referral, climbs_to, would_create_cycle, set_referrer, register, require_admin,
}

-- The wallet `n` steps up the chain.
unfoldable pub climb : (ℕ → Option ℕ) → ℕ → ℕ → Option ℕ
climb m zero w = some w
climb m (suc n) w = elim (m w) [ none ↦ none | some r ↦ climb m n r ]

climbs_to-false :
    (n k : ℕ) (m : ℕ → Option ℕ) (cur w : ℕ)
    → climbs_to n m cur w ≡ false
    → k < n
    → climb m k cur ≢ some w
unfolding climbs_to climb
climbs_to-false zero k m cur w h lt x = omega arith
climbs_to-false (suc n) zero m cur w h lt x = ground arith
climbs_to-false (suc n) (suc k) m cur w h lt x = elim (Option-cases (m cur)) [
  | inl top ↦ absurd (ground arith)
  | inr (r, up) ↦ climbs_to-false n k m r w (ground arith) (omega arith) (ground arith)
]

climb_add :
    (a b : ℕ) (m : ℕ → Option ℕ) (x y : ℕ) → climb m a x ≡ some y → climb m (a + b) x ≡ climb m b y
unfolding climb
climb_add zero b m x y e =
    let q : x ≡ y = ground arith in let z : 0 + b ≡ b = omega arith in rw (q, z) refl
climb_add (suc a) b m x y e = elim (Option-cases (m x)) [
  | inl top ↦ absurd (ground arith)
  | inr (r, up) ↦
      let z : suc a + b ≡ suc (a + b) = omega arith in
      let ih = climb_add a b m r y (ground arith) in rw z (rw (up, climb) ih)
]

module _ (m : ℕ → Option ℕ) (w r : ℕ) where
  -- A climb after the new edge from `w` to `r` takes it at its first visit of `w`, or never.
  climb_split :
      (k x y : ℕ)
      → climb (update m w r) k x ≡ some y
      → (climb m k x ≡ some y)
        ⊎ ((j : ℕ) × (j < k)
            × (climb m j x ≡ some w)
            × (climb (update m w r) j x ≡ some w)
            × (climb (update m w r) (k - 1 - j) r ≡ some y))
  unfolding climb
  climb_split zero x y e = inl e
  climb_split (suc k) x y e = elim (Bool-cases (x == w)) [
    | inl here ↦
        let q : x ≡ w = ground arith in
        let z : suc k - 1 - 0 ≡ k = omega arith in
        inr (0, omega arith, ground arith, ground arith, rw z (ground arith))
    | inr off ↦ elim (Option-cases (m x)) [
      | inl top ↦ absurd (ground arith)
      | inr (p, up) ↦ elim (climb_split k p y (ground arith)) [
        | inl old ↦ inl (ground arith)
        | inr (j, lt, h, h', rest) ↦
            let z : suc k - 1 - suc j ≡ k - 1 - j = omega arith in
            inr (suc j, omega arith, ground arith, ground arith, rw z rest)
      ]
    ]
  ]

-- No wallet comes back to itself within ten steps.
abbrev pub IsLoopless : (ℕ → Option ℕ) → Type 0
IsLoopless m = (n x : ℕ) → 0 < n → n ≤ 10 → climb m n x ≢ some x

update-IsLoopless :
    (m : ℕ → Option ℕ) (w r : ℕ)
    → IsLoopless m
    → climbs_to 10 m r w ≡ false
    → IsLoopless (update m w r)
update-IsLoopless m w r v f n x p le e = elim (climb_split m w r n x x e) [
  | inl old ↦ v n x p le old
  | inr (j, lt, h, h', rest) ↦
      let z : n - 1 - j + j ≡ n - 1 = omega arith in
      let back = climb_add (n - 1 - j) j (update m w r) r x rest in
      elim (climb_split m w r (n - 1) r w (rw (← z) (back ∙ h'))) [
        | inl old ↦ climbs_to-false 10 (n - 1) m r w f (omega arith) old
        | inr (i, lt', g, _, _) ↦ climbs_to-false 10 i m r w f (omega arith) g
      ]
]

pub set_referrer-IsLoopless :
    (env : Env) (c w r : ℕ) (s s' : Referral)
    → IsLoopless s.referrer_key
    → set_referrer env c w r s ≡ ok s'
    → IsLoopless s'.referrer_key
unfolding set_referrer would_create_cycle
set_referrer-IsLoopless env c w r s s' v e = bind_then (require_admin env c s) _ e λ _ _ e₁.
    bind_then (fail_if (w == r || would_create_cycle w r s) invalid_argument) _ e₁ λ _ f e₂.
      let q : s'.referrer_key ≡ update s.referrer_key w r = ground arith in
      rw q (update-IsLoopless s.referrer_key w r v (ground arith))

pub register-IsLoopless :
    (env : Env) (w r : ℕ) (s s' : Referral)
    → IsLoopless s.referrer_key
    → register env w r s ≡ ok s'
    → IsLoopless s'.referrer_key
unfolding register would_create_cycle
register-IsLoopless env w r s s' v e = bind_then (require_auth env w) _ e λ _ _ e₁.
    bind_then (fail_if (w == r) invalid_argument) _ e₁ λ _ _ e₂.
      bind_then (fail_if (is_some (s.referrer_key w)) invalid_argument) _ e₂ λ _ _ e₃.
        bind_then (fail_if (not (is_some (s.referrer_key r))) invalid_argument) _ e₃ λ _ _ e₄.
          bind_then (fail_if (would_create_cycle w r s) invalid_argument) _ e₄ λ _ f e₅.
            let q : s'.referrer_key ≡ update s.referrer_key w r = ground arith in
            rw q (update-IsLoopless s.referrer_key w r v (ground arith))
