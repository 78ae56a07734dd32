-- ===== src/Referral/Histories.antt =====
-- What holds of the referral contract after any sequence of invocations.
use trellis_contracts.Prelude.{
  not, ◌||◌, is_some, ◌==◌, ℕ, zero, suc, ◌+◌, ◌-◌, ◌≡◌, refl, ◌∙◌, inl, inr, List, [], ◌∷◌, arith,
  Option-cases, get_elem?, lookup-insert, ℤ, int_laws, ◌≤ℤ◌, leb_ℤ, pos,
}
use trellis_contracts.Host.{Result, require_auth, Env, fail_if, ok_or, ok_or-eq_ok, bind_then, ok}
use trellis_contracts.Shared.Errors.{Error, overflow, not_found, invalid_argument}
use trellis_contracts.Shared.Math.{bps_of}
use trellis_contracts.Referral.{
  set_referrer, register, would_create_cycle, require_admin, Referral, max_reward_cap, read_accrued,
  read_lifetime_accrued, initialize, set_treasury, set_registry, set_tier_config, read_tiers,
}
use trellis_contracts.Referral.Rewards.{Peers, accrue, accrue_loop, credit_positive, claim_rewards}
use trellis_contracts.Referral.Calls.{
  with_ledger, Call, invoke, run, run_keeps, initialize_call, treasury_call, registry_call,
  tiers_call, referrer_call, register_call, accrue_call, claim_call,
}
use trellis_contracts.Referral.Caps.{IsBooked, AreKept, credit_positive_effect}
use trellis_contracts.Referral.Tiers.{IsConfigured, set_tier_config_effect}
use trellis_contracts.Referral.Chains.{IsLoopless, set_referrer-IsLoopless, register-IsLoopless}
use trellis_contracts.Referral.Claims.{claim_cases}

-- The books, the configuration and the chains are in order.
pub record IsSettled (s : Referral) : Type 0 where
  pub booked : IsBooked s
  pub configured : IsConfigured s
  pub loopless : IsLoopless s.referrer_key

accrue_loop_keeps :
    (w : ℕ) (base cap : ℤ) (bs : List ℤ) (n i cur : ℕ) (tot tot' : ℤ) (s s' : Referral)
    → cap ≤ℤ max_reward_cap
    → IsBooked s
    → accrue_loop w base cap bs n i cur (tot, s) ≡ ok (tot', s')
    → IsBooked s' × AreKept s s'
unfolding accrue_loop
accrue_loop_keeps w base cap bs zero i cur tot tot' s s' m k e =
    let q : s' ≡ s = ground arith in rw q (k, (refl, refl, refl, refl))
accrue_loop_keeps w base cap bs (suc n) i cur tot tot' s s' m k e =
    elim (Option-cases (s.referrer_key cur)) [
      | inl end ↦ let q : s' ≡ s = ground arith in rw q (k, (refl, refl, refl, refl))
      | inr (ref, up) ↦ bind_then (ok_or (get_elem? bs (i - 1)) not_found) _ (rw up at e) λ b hb e₁.
          bind_then (ok_or (bps_of base b) overflow) _ e₁ λ x hx e₂.
            bind_then (credit_positive w ref i x cap (tot, s)) _ e₂ λ out h e₃.
              let (_, _, _, _, books, _, kept) =
                credit_positive_effect w ref i x cap tot (out.0) s (out.1) k m h in
              let (books', kept') =
                accrue_loop_keeps w base cap bs n (i + 1) ref (out.0) tot' (out.1) s' m books e₃ in
              (books', (kept'.0 ∙ kept.0, kept'.1 ∙ kept.1, kept'.2 ∙ kept.2, kept'.3 ∙ kept.3))
    ]

-- Balances and configuration that stay as they were.
same_IsSettled :
    (s s' : Referral)
    → IsSettled s
    → s'.accrued ≡ s.accrued
    → s'.lifetime ≡ s.lifetime
    → s'.cap_key ≡ s.cap_key
    → s'.tiers_key ≡ s.tiers_key
    → s'.bps_key ≡ s.bps_key
    → IsLoopless s'.referrer_key
    → IsSettled s'
unfolding read_accrued read_lifetime_accrued
same_IsSettled s s' v a l c t b loops = record {
  booked = λ k. rw (a, l) (v.booked k);
  configured = record { cap = rw c v.configured.cap; tiers = rw (t, b) v.configured.tiers };
  loopless = loops;
}

accrue-IsSettled :
    (env : Env) (c w : ℕ) (x y : ℤ) (s s' : Referral)
    → IsSettled s
    → accrue env c w x s ≡ ok (y, s')
    → IsSettled s'
unfolding accrue
accrue-IsSettled env c w x y s s' v e = bind_then (require_admin env c s) _ e λ _ _ e₁.
    bind_then (fail_if (leb_ℤ x (pos 0)) invalid_argument) _ e₁ λ _ p e₂.
      bind_then (ok_or s.tiers_key not_found) _ e₂ λ n hn e₃.
        bind_then (ok_or s.cap_key not_found) _ e₃ λ cap hc e₄.
          bind_then (read_tiers n 1 s.bps_key) _ e₄ λ cache h e₅.
            let limit = v.configured.cap cap (ok_or-eq_ok s.cap_key not_found hc) in
            let (books, (k₀, k₁, k₂, k₃)) =
              accrue_loop_keeps w x cap cache n 1 w (pos 0) y s s' (limit.1) v.booked e₅ in
            record {
              booked = books;
              configured = record {
                cap = rw k₁ v.configured.cap;
                tiers = rw (k₃, k₂) v.configured.tiers;
              };
              loopless = rw k₀ v.loopless;
            }

set_tier_config-IsSettled :
    (env : Env) (c : ℕ) (bs : List ℤ) (n : ℕ) (cap : ℤ) (s s' : Referral)
    → IsSettled s
    → set_tier_config env c bs n cap s ≡ ok s'
    → IsSettled s'
unfolding read_accrued read_lifetime_accrued
set_tier_config-IsSettled env c bs n cap s s' v e =
    let (back, rates, sum, len, low, high, t, k, a, l, r) =
      set_tier_config_effect env c bs n cap s s' e in
    record {
      booked = λ q. rw (a, l) (v.booked q);
      configured = record {
        cap = λ x h. let q : x ≡ cap = cc in rw q (low, high);
        tiers = λ m h. let q : m ≡ n = cc in rw q (bs, back, rates, sum);
      };
      loopless = rw r v.loopless;
    }

initialize-IsSettled :
    (env : Env) (a : ℕ) (s : Referral) → IsSettled s → IsSettled (initialize env a s)
unfolding initialize read_accrued read_lifetime_accrued read_tiers
initialize-IsSettled env a s v = record {
  booked = v.booked;
  configured = record {
    cap = λ x h. ground arith;
    tiers = λ m h. let q : m ≡ 1 = ground arith in rw q (pos 0 ∷ [], refl, (refl, tt), omega arith);
  };
  loopless = v.loopless;
}

claim-IsSettled :
    {T : Type 0} (p : Peers T) (env : Env) (r : ℕ) (x : ℤ) (s s' : Referral) (l l' : T)
    → IsSettled s
    → claim_rewards p env r s l ≡ ok (x, s', l')
    → IsSettled s'
unfolding claim_rewards read_accrued read_lifetime_accrued
claim-IsSettled p env r x s s' l l' v e = elim (claim_cases p env r s s' l l' x e) [
  | inl (_, _, same, _) ↦ rw same v
  | inr (t, amount, _, books, life, (k₀, k₁, k₂, k₃)) ↦ record {
    booked =
        λ k. rw (books, life) (grind (int_laws, v.booked k, lookup-insert r k (pos 0) s.accrued));
    configured = record { cap = rw k₁ v.configured.cap; tiers = rw (k₃, k₂) v.configured.tiers };
    loopless = rw k₀ v.loopless;
  }
]

-- The balances and the configuration.
abbrev SameBooks : Referral → Referral → Type 0
SameBooks s s' =
    (s'.accrued ≡ s.accrued)
    × (s'.lifetime ≡ s.lifetime)
    × (s'.cap_key ≡ s.cap_key)
    × (s'.tiers_key ≡ s.tiers_key)
    × (s'.bps_key ≡ s.bps_key)

set_referrer_kept :
    (env : Env) (c w r : ℕ) (s s' : Referral) → set_referrer env c w r s ≡ ok s' → SameBooks s s'
unfolding set_referrer
set_referrer_kept env c w r s s' e = bind_then (require_admin env c s) _ e λ _ _ h.
    bind_then (fail_if (w == r || would_create_cycle w r s) invalid_argument) _ h
      λ _ _ k. (ground arith, ground arith, ground arith, ground arith, ground arith)

register_kept :
    (env : Env) (w r : ℕ) (s s' : Referral) → register env w r s ≡ ok s' → SameBooks s s'
unfolding register
register_kept env w r s s' e = bind_then (require_auth env w) _ e λ _ _ e₁.
    bind_then (fail_if (w == r) invalid_argument) _ e₁ λ _ _ e₂.
      bind_then (fail_if (is_some (s.referrer_key w)) invalid_argument) _ e₂ λ _ _ e₃.
        bind_then (fail_if (not (is_some (s.referrer_key r))) invalid_argument) _ e₃ λ _ _ e₄.
          bind_then (fail_if (would_create_cycle w r s) invalid_argument) _ e₄
            λ _ _ e₅. (ground arith, ground arith, ground arith, ground arith, ground arith)

-- An entry point that does not call another contract.
with_ledger_ok :
    {T : Type 0} (r : Result Error Referral) (l : T) (s' : Referral) (l' : T)
    → with_ledger l r ≡ ok (s', l')
    → r ≡ ok s'
with_ledger_ok r l s' l' e = bind_then r _ e λ t h e₁. let q : t ≡ s' = cc in rw (← q) h

module _ {T : Type 0} (p : Peers T) where
  invoke-IsSettled :
      (env : Env) (c : Call) (s s' : Referral) (l l' : T)
      → IsSettled s
      → invoke p env c (s, l) ≡ ok (s', l')
      → IsSettled s'
  unfolding invoke set_treasury set_registry
  invoke-IsSettled env (initialize_call a) s s' l l' v e =
      let q : initialize env a s ≡ s' = cc in rw (← q) (initialize-IsSettled env a s v)
  invoke-IsSettled env (treasury_call c t) s s' l l' v e =
      bind_then (require_admin env c s) _ (with_ledger_ok (set_treasury env c t s) l s' l' e)
        λ _ _ h.
          same_IsSettled s s' v (ground arith) (ground arith) (ground arith) (ground arith)
            (ground arith)
            (let q : s'.referrer_key ≡ s.referrer_key = ground arith in rw q v.loopless)
  invoke-IsSettled env (registry_call c t) s s' l l' v e =
      bind_then (require_admin env c s) _ (with_ledger_ok (set_registry env c t s) l s' l' e)
        λ _ _ h.
          same_IsSettled s s' v (ground arith) (ground arith) (ground arith) (ground arith)
            (ground arith)
            (let q : s'.referrer_key ≡ s.referrer_key = ground arith in rw q v.loopless)
  invoke-IsSettled env (tiers_call c b n x) s s' l l' v e =
      set_tier_config-IsSettled env c b n x s s' v
        (with_ledger_ok (set_tier_config env c b n x s) l s' l' e)
  invoke-IsSettled env (referrer_call c w r) s s' l l' v e =
      let h = with_ledger_ok (set_referrer env c w r s) l s' l' e in
      let k = set_referrer_kept env c w r s s' h in
      same_IsSettled s s' v (k.0) (k.1) (k.2) (k.3) (k.4)
        (set_referrer-IsLoopless env c w r s s' v.loopless h)
  invoke-IsSettled env (register_call w r) s s' l l' v e =
      let h = with_ledger_ok (register env w r s) l s' l' e in
      let k = register_kept env w r s s' h in
      same_IsSettled s s' v (k.0) (k.1) (k.2) (k.3) (k.4)
        (register-IsLoopless env w r s s' v.loopless h)
  invoke-IsSettled env (accrue_call c w x) s s' l l' v e =
      bind_then (accrue env c w x s) _ e λ out h e₁.
        let q : out.1 ≡ s' = cc in rw (← q) (accrue-IsSettled env c w x (out.0) s (out.1) v h)
  invoke-IsSettled env (claim_call r) s s' l l' v e =
      bind_then (claim_rewards p env r s l) _ e λ out h e₁.
        let q : out.1 ≡ s' = cc in
        rw (← q) (claim-IsSettled p env r (out.0) s (out.1) l (out.2) v h)

  -- After every sequence of invocations of the referral contract, whichever contracts it calls,
  -- the claimable rewards of each referrer lie between 0 and its lifetime rewards and these within
  -- the largest cap, the tier configuration is valid, and no wallet comes back to itself within
  -- ten referrers, if so before.
  pub run-IsSettled :
      (cs : List (Env × Call)) (s : Referral × T) → IsSettled (s.0) → IsSettled ((run p cs s).0)
  run-IsSettled cs s v =
      run_keeps p IsSettled (λ env c s s' l l' h e. invoke-IsSettled env c s s' l l' h e) cs s v
