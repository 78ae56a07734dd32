-- ===== src/Treasury/Authority.antt =====
-- Who can move the treasury's funds or change its control.
use trellis_contracts.Shared.Events.{emit_module_initialized}
use trellis_contracts.Prelude.{
  insert, inr, ◌∷◌, symbol_short, inl, Option-cases, arith, ◌≡◌, refl, true, some, lookup-insert, ℤ,
  int_laws, ◌+ℤ◌, ◌-ℤ◌, ◌≤ℤ◌, ◌<ℤ◌, checked_add, checked_sub, pos,
}
use trellis_contracts.Host.{Env, Address, Symbol, ok}
use trellis_contracts.Shared.Auth.{set_admin, set_role, has_role, is_paused, treasury_manager}
use trellis_contracts.Treasury.{
  Treasury, reserve_category, rewards_category, initialize, category_balance, withdrawal_limit,
  deposit, withdraw, emergency_withdraw, distribute_reward,
}
use trellis_contracts.Treasury.Calls.{
  Call, invoke, deposit_call, withdraw_call, emergency_call, reward_call,
}
use trellis_contracts.Treasury.Balances.{configures_cat_bal, IsFunded}

-- The authority that a call has to lower the balance of the category `k`.
abbrev pub MaySpend : Env → Symbol → Treasury → Call → Type 0
MaySpend env k s (withdraw_call caller _ x j) =
    (j ≡ k)
    × (has_role s.auth caller treasury_manager ≡ true)
    × (env.authorized caller ≡ true)
    × (x ≤ℤ withdrawal_limit s)
MaySpend env k s (emergency_call caller _ _) =
    (k ≡ reserve_category)
    × (is_paused s.auth ≡ true)
    × (s.auth.admin_key ≡ some caller)
    × (env.authorized caller ≡ true)
MaySpend env k s (reward_call _ _) =
    (k ≡ rewards_category) × (r : Address) × (s.ref_ctr ≡ some r) × (env.authorized r ≡ true)
MaySpend env k s _ = ⊥

-- A reward that is paid was asked for by the registered referral contract.
pub distribute_reward_effect :
    (env : Env) (to : Address) (x : ℤ) (s s' : Treasury)
    → distribute_reward env to x s ≡ ok s'
    → (r : Address) × (s.ref_ctr ≡ some r)
      × (env.authorized r ≡ true)
      × (s'.cat_bal ≡ insert rewards_category (category_balance rewards_category s -ℤ x) s.cat_bal)
unfolding distribute_reward
distribute_reward_effect env to x s s' e = elim (Option-cases s.ref_ctr) [
  | inl unset ↦ ground arith
  | inr (r, set) ↦ (r, set, ground arith, ground arith)
]

-- With balances in range, a successful treasury call that lowers a category is a withdrawal within
-- the limit by an authorised manager, an emergency withdrawal of the reserve by the admin while
-- paused, or a reward that the registered referral contract asks for.
pub spend_needs_authority :
    (env : Env) (k : Symbol) (c : Call) (s s' : Treasury)
    → IsFunded s.cat_bal
    → invoke env c s ≡ ok s'
    → category_balance k s' <ℤ category_balance k s
    → MaySpend env k s c
unfolding invoke deposit withdraw emergency_withdraw distribute_reward checked_add checked_sub
spend_needs_authority env k (withdraw_call a to x j) s s' v e d =
    let b = category_balance j s in grind (int_laws, lookup-insert j k (b -ℤ x) s.cat_bal)
spend_needs_authority env k (emergency_call a to x) s s' v e d =
    let b = category_balance reserve_category s in
    grind (int_laws, lookup-insert reserve_category k (b -ℤ x) s.cat_bal)
spend_needs_authority env k (reward_call to x) s s' v e d =
    let (r, set, signed, after) = distribute_reward_effect env to x s s' e in
    (
      ground (
        arith,
        after,
        lookup-insert rewards_category k (category_balance rewards_category s -ℤ x) s.cat_bal,
      ),
      r,
      set,
      signed,
    )
spend_needs_authority env k (deposit_call a j x) s s' v e d =
    let b = category_balance j s in grind (int_laws, lookup-insert j k (b +ℤ x) s.cat_bal)
spend_needs_authority env k c s s' v e d = ground (arith, configures_cat_bal env c s s' refl e)

-- The state after `initialize`.
abbrev initialized : Env → Address → ℤ → Treasury → Treasury
initialized env who limit s = record s {
  auth = set_role who treasury_manager (set_admin who s.auth);
  max_wd = some limit;
  events = emit_module_initialized (symbol_short "treasury") 1 who env.timestamp ∷ s.events;
}

-- Whoever calls the treasury's initialize with a positive limit, at any time and with no
-- authorisation, becomes admin and manager while the balances stay.
pub initialize_takes_over :
    (env : Env) (who : Address) (limit : ℤ) (s : Treasury)
    → pos 1 ≤ℤ limit
    → (s' : Treasury) × (initialize env who limit s ≡ ok s')
      × (s'.auth.admin_key ≡ some who)
      × (has_role s'.auth who treasury_manager ≡ true)
      × (s'.max_wd ≡ some limit)
      × (s'.cat_bal ≡ s.cat_bal)
unfolding initialize has_role set_admin set_role
initialize_takes_over env who limit s h =
    (initialized env who limit s, ground arith, refl, ground arith, refl, refl)
