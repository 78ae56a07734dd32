-- ===== src/Governance/Bounds.antt =====
-- Every stored parameter lies within its documented bounds, whichever way it was written.
use trellis_contracts.Shared.Auth.{require_admin}
use trellis_contracts.Shared.Errors.{
  already_approved, overflow, below_threshold, already_executed, proposal_not_found,
}
use trellis_contracts.Governance.Calls.{
  approve_call, propose_call, set_admin_set_call, revoke_role_call, grant_role_call,
  initialize_call, set_param_call, execute_call, run_keeps, run, Call, invoke,
}
use trellis_contracts.Governance.{
  grant_role, revoke_role, get_threshold, is_pending, approve, propose, set_admin_set,
  require_admin_role, require_governance, initialize, get_param, execute, set_param, set_parameter,
  Governance, ProposalAction, execute_action,
}
use trellis_contracts.Prelude.{
  if◌then◌else◌, lookup, unwrap_or, ◌-◌, ◌^◌, leb, ltb, not, false, ℕ, List, refl, ◌≡◌, inl, inr,
  true, some, arith, Bool-cases, Option-cases, ℤ, ◌≤ℤ◌,
}
use trellis_contracts.Host.{fail_if, ok_or, Address, Env, bind_then, ok}
use trellis_contracts.Governance.Params.{
  read_param, aid_default_expiry, treasury_withdrawal_limit, referral_tier_bps, referral_max_tiers,
  referral_reward_cap, seed_defaults, ParameterKey, ParameterBounds, same_key, bounds_for,
  validate_param, ParamStore, write_param,
}

-- A value within the bounds of its key, which has bounds.
pub InBounds : ParameterKey → ℤ → Type 0
InBounds key v = (b : ParameterBounds) × (bounds_for key ≡ some b) × (b.min ≤ℤ v) × (v ≤ℤ b.max)

abbrev pub IsInBounds : ParamStore → Type 0
IsInBounds m = (key : ParameterKey) (v : ℤ) → m key ≡ some v → InBounds key v

same_key-eq : (a b : ParameterKey) → same_key a b ≡ true → a ≡ b
same_key-eq a b h = ground arith

validate_param-InBounds :
    (key : ParameterKey) (v : ℤ) → validate_param key v ≡ ok tt → InBounds key v
unfolding validate_param InBounds
validate_param-InBounds key v e = elim (Option-cases (bounds_for key)) [
  | inl unknown ↦ absurd (ground arith)
  | inr (b, known) ↦ (b, known, ground arith, ground arith)
]

write_param-IsInBounds :
    (key : ParameterKey) (v : ℤ) (m : ParamStore)
    → IsInBounds m
    → validate_param key v ≡ ok tt
    → IsInBounds (write_param key v m)
unfolding write_param
write_param-IsInBounds key v m h e q w f = elim (Bool-cases (same_key q key)) [
  | inl same ↦
      let k = same_key-eq q key same in
      let x : v ≡ w = ground arith in rw (k, ← x) (validate_param-InBounds key v e)
  | inr other ↦ h q w (ground arith)
]

seed_defaults-IsInBounds : (m : ParamStore) → IsInBounds m → IsInBounds (seed_defaults m)
unfolding seed_defaults validate_param
seed_defaults-IsInBounds m h =
    write_param-IsInBounds referral_reward_cap _ _
      (write_param-IsInBounds referral_max_tiers _ _
        (write_param-IsInBounds (referral_tier_bps 3) _ _
          (write_param-IsInBounds (referral_tier_bps 2) _ _
            (write_param-IsInBounds (referral_tier_bps 1) _ _
              (write_param-IsInBounds treasury_withdrawal_limit _ _
                (write_param-IsInBounds aid_default_expiry _ m h refl) refl)
              refl)
            refl)
          refl)
        refl)
      refl

-- The parameters after a call: as they were, seeded, or one validated write.
data Writes (m : ParamStore) : ParamStore → Type 0 where
  kept : Writes m m
  seeded : Writes m (seed_defaults m)
  wrote :
      (key : ParameterKey) (v : ℤ) → validate_param key v ≡ ok tt → Writes m (write_param key v m)

Writes-IsInBounds : {m m' : ParamStore} → IsInBounds m → Writes m m' → IsInBounds m'
Writes-IsInBounds h kept = h
Writes-IsInBounds {m} h seeded = seed_defaults-IsInBounds m h
Writes-IsInBounds {m} h (wrote key v e) = write_param-IsInBounds key v m h e

wrote_eq :
    (key : ParameterKey) (v : ℤ) (m m' : ParamStore)
    → validate_param key v ≡ ok tt
    → m' ≡ write_param key v m
    → Writes m m'
wrote_eq key v m m' h e = rw e (wrote key v h)

execute_action-Writes :
    (a : ProposalAction) (s s' : Governance)
    → execute_action a s ≡ ok s'
    → Writes s.params s'.params
unfolding execute_action
execute_action-Writes (set_parameter key v) s s' e =
    bind_then (validate_param key v) _ e λ u h f. wrote_eq key v s.params s'.params h (ground arith)
execute_action-Writes a s s' e = let q : s'.params ≡ s.params = ground arith in rw q kept

execute-Writes :
    (env : Env) (c : Address) (i : ℕ) (s s' : Governance)
    → execute env c i s ≡ ok s'
    → Writes s.params s'.params
unfolding execute
execute-Writes env c i s s' e = bind_then (require_admin_role env s.auth c) _ e λ _ _ e₁.
    bind_then (ok_or (s.proposal i) proposal_not_found) _ e₁ λ p _ e₂.
      bind_then (fail_if (not (is_pending p.status)) already_executed) _ e₂ λ _ _ e₃.
        bind_then (fail_if (ltb p.approval_count (get_threshold s)) below_threshold) _ e₃ λ _ _ e₄.
          bind_then (execute_action p.action s) _ e₄ λ t h e₅.
            let q : s'.params ≡ t.params = ground arith in
            rw q (execute_action-Writes p.action s t h)

set_param-Writes :
    (env : Env) (c : Address) (key : ParameterKey) (v : ℤ) (s s' : Governance)
    → set_param env c key v s ≡ ok s'
    → Writes s.params s'.params
unfolding set_param
set_param-Writes env c key v s s' e = bind_then (require_governance env s.auth c) _ e λ _ _ e₁.
    bind_then (validate_param key v) _ e₁
      λ u h e₂. wrote_eq key v s.params s'.params h (ground arith)

invoke-Writes :
    (env : Env) (c : Call) (s s' : Governance) → invoke env c s ≡ ok s' → Writes s.params s'.params
unfolding invoke initialize grant_role revoke_role set_admin_set propose approve
invoke-Writes env (execute_call c i) s s' e = execute-Writes env c i s s' e
invoke-Writes env (set_param_call c k v) s s' e = set_param-Writes env c k v s s' e
invoke-Writes env (initialize_call a t as') s s' e =
    let q : s'.params ≡ seed_defaults s.params = ground arith in rw q seeded
invoke-Writes env (grant_role_call c u r) s s' e =
    bind_then (require_admin_role env s.auth c) _ e
      λ _ _ e₁. let q : s'.params ≡ s.params = ground arith in rw q kept
invoke-Writes env (revoke_role_call c u r) s s' e =
    bind_then (require_admin_role env s.auth c) _ e
      λ _ _ e₁. let q : s'.params ≡ s.params = ground arith in rw q kept
invoke-Writes env (set_admin_set_call c as' t) s s' e =
    bind_then (require_admin_role env s.auth c) _ e
      λ _ _ e₁. let q : s'.params ≡ s.params = ground arith in rw q kept
invoke-Writes env (propose_call c a) s s' e = bind_then (propose env c a s) _ e λ out h e₀.
    bind_then (require_admin_role env s.auth c) _ h λ _ _ e₁.
      bind_then (fail_if (leb (2 ^ 64 - 1) (unwrap_or s.prop_cnt 0)) overflow) _ e₁
        λ _ _ e₂. let q : s'.params ≡ s.params = ground arith in rw q kept
invoke-Writes env (approve_call c i) s s' e =
    bind_then (require_admin_role env s.auth c) _ e λ _ _ e₁.
      bind_then (ok_or (s.proposal i) proposal_not_found) _ e₁ λ p _ e₂.
        bind_then (fail_if (not (is_pending p.status)) already_executed) _ e₂ λ _ _ e₃.
          bind_then (fail_if (unwrap_or (lookup c (s.approval i)) false) already_approved) _ e₃
            λ _ _ e₄.
              bind_then (fail_if (leb (2 ^ 32 - 1) p.approval_count) overflow) _ e₄
                λ _ _ e₅. let q : s'.params ≡ s.params = ground arith in rw q kept

-- After every sequence of governance invocations each stored parameter lies within the documented
-- bounds of its key, if so before.
pub run-IsInBounds :
    (cs : List (Env × Call)) (s : Governance) → IsInBounds s.params → IsInBounds (run cs s).params
run-IsInBounds cs s h =
    run_keeps (λ t. IsInBounds t.params)
      (λ env c t t' h' e. Writes-IsInBounds h' (invoke-Writes env c t t' e)) cs s h

-- A set_param that succeeds was authorised by the stored admin and has a value within the bounds
-- of its key; then the key reads back that value and no other key has changed.
pub set_param_reads :
    (env : Env) (c : Address) (key q : ParameterKey) (v : ℤ) (s s' : Governance)
    → set_param env c key v s ≡ ok s'
    → (s.auth.admin_key ≡ some c)
      × (env.authorized c ≡ true)
      × InBounds key v
      × (get_param q s' ≡ (if same_key q key then ok v else get_param q s))
unfolding set_param get_param require_governance require_admin read_param write_param
set_param_reads env c key q v s s' e = bind_then (require_governance env s.auth c) _ e λ _ g e₁.
    bind_then (validate_param key v) _ e₁
      λ u h e₂. (ground arith, ground arith, validate_param-InBounds key v h, ground arith)
