-- ===== src/Referral/Tests.antt =====
-- Runs of the referral contract, and its theorems at concrete states.
use trellis_contracts.Shared.Errors.{insufficient_balance, invalid_argument, from_code}
use trellis_contracts.Prelude.{
  Option, ℕ, zero, suc, ◌+◌, ◌≡◌, refl, inl, inr, false, none, some, List, [], ◌∷◌, arith, ltb,
  ◌==◌, if◌then◌else◌, Option-cases, lookup, total, itself, ℤ, ◌+ℤ◌, ◌≤ℤ◌, pos,
}
use trellis_contracts.Host.{panic_with_error, err, Env, commit, ok}
use trellis_contracts.Host.Sample.{env_of}
use trellis_contracts.Shared.Auth.{no_auth, set_admin}
use trellis_contracts.Referral.{
  Referral, register, deployed, set_tier_config, get_tier_config, read_accrued,
  read_lifetime_accrued, read_tiers, would_create_cycle,
}
use trellis_contracts.Referral.Rewards.{
  Peers, call_treasury_distribute_reward, accrue, claim_rewards,
}
use trellis_contracts.Referral.Calls.{
  Call, run, initialize_call, tiers_call, referrer_call, register_call, accrue_call, claim_call,
}
use trellis_contracts.Referral.Caps.{IsBooked}
use trellis_contracts.Referral.Tiers.{IsConfigured, set-get_tier_config}
use trellis_contracts.Referral.Accrual.{accrue_bounded}
use trellis_contracts.Referral.Claims.{treasury_at, claim_pays}
use trellis_contracts.Referral.Histories.{IsSettled, run-IsSettled}
use trellis_contracts.Referral.Chains.{climb, IsLoopless}
use trellis_contracts.Treasury.{Treasury, rewards_category, category_balance}

-- 10 was referred by 11 and 11 by 12; the tiers pay 5 % and 2.5 %.
abbrev earning : Referral
earning = record deployed {
  auth = set_admin 1 no_auth;
  treasury_key = some 77;
  tiers_key = some 2;
  cap_key = some (pos 1_000);
  bps_key = λ t. if t == 1 then some (pos 500) else if t == 2 then some (pos 250) else none;
  referrer_key = λ w. if w == 10 then some 11 else if w == 11 then some 12 else none;
  accrued = (11, pos 5) ∷ [];
  lifetime = (11, pos 5) ∷ [];
}

abbrev treasury : Treasury
treasury = record {
  auth = no_auth;
  cat_bal = (rewards_category, pos 50) ∷ [];
  max_wd = none;
  ref_ctr = some 100;
  events = [];
}

-- The registry 90 knows the treasury.
abbrev answers : ℕ → ℕ → Treasury → Option ℕ
answers registry name t = if registry == 90 then some 77 else none

abbrev history : List (Env × Call)
history =
    (env_of 1, initialize_call 1)
    ∷ (env_of 1, tiers_call 1 (pos 500 ∷ pos 250 ∷ []) 2 (pos 60))
    ∷ (env_of 1, referrer_call 1 11 12)
    ∷ (env_of 10, register_call 10 11)
    ∷ (env_of 12, register_call 12 10)
    ∷ (env_of 1, accrue_call 1 10 (pos 1_000))
    ∷ (env_of 1, accrue_call 1 10 (pos 1_000))
    ∷ (env_of 11, claim_call 11)
    ∷ []

abbrev after : Referral × Treasury
after = run (treasury_at 77 answers (env_of 11)) history (deployed, treasury)

cycle_refused : register (env_of 12) 12 10 earning ≡ err invalid_argument
unfolding register
cycle_refused = refl

-- A chain of twelve wallets; the last of them is not found from the first.
abbrev long_chain : Referral
long_chain = record deployed { referrer_key = λ w. if ltb w 11 then some (w + 1) else none }

cycle_missed : would_create_cycle 11 0 long_chain ≡ false
unfolding would_create_cycle
cycle_missed = refl

deployed-IsLoopless : IsLoopless deployed.referrer_key
unfolding climb
deployed-IsLoopless zero x p le e = omega arith
deployed-IsLoopless (suc n) x p le e = cc

deployed-IsSettled : IsSettled deployed
unfolding read_accrued read_lifetime_accrued lookup
deployed-IsSettled = record {
  booked = λ k. (omega arith, omega arith, omega arith);
  configured = record { cap = λ c h. absurd (cc); tiers = λ n h. absurd (cc) };
  loopless = deployed-IsLoopless;
}

earning-IsBooked : IsBooked earning
unfolding read_accrued read_lifetime_accrued lookup
earning-IsBooked k = ground arith

earning-IsConfigured : IsConfigured earning
unfolding read_tiers
earning-IsConfigured = record {
  cap = λ c h. ground arith;
  tiers = λ n h.
      let q : n ≡ 2 = ground arith in
      rw q (pos 500 ∷ pos 250 ∷ [], refl, (refl, (refl, tt)), omega arith);
}

abbrev credited : ℤ × Referral
credited = commit (pos 0, earning) (accrue (env_of 1) 1 10 (pos 1_000) earning)

both_tiers : credited.0 ≡ pos 75
unfolding accrue trellis_contracts.Referral.require_admin set_admin
    trellis_contracts.Shared.Math.checked_div trellis_contracts.Prelude.checked_div
    trellis_contracts.Prelude.◌/ℤ◌ trellis_contracts.Shared.Math.checked_mul
    trellis_contracts.Prelude.checked_mul trellis_contracts.Prelude.◌*ℤ◌
    trellis_contracts.Prelude.◌%ℤ◌ trellis_contracts.Shared.Math.checked_add
    trellis_contracts.Prelude.checked_add ◌+ℤ◌ lookup trellis_contracts.Prelude.checked_sub
    trellis_contracts.Prelude.◌-ℤ◌ trellis_contracts.Prelude.insert
both_tiers = refl

accrue_bounded_example :
    (pos 0 ≤ℤ credited.0)
    × (credited.0 ≤ℤ pos 1_000)
    × (total itself credited.1.accrued ≡ total itself earning.accrued +ℤ credited.0)
unfolding accrue trellis_contracts.Referral.require_admin set_admin
    trellis_contracts.Shared.Math.checked_div trellis_contracts.Prelude.checked_div
    trellis_contracts.Prelude.◌/ℤ◌ trellis_contracts.Shared.Math.checked_mul
    trellis_contracts.Prelude.checked_mul trellis_contracts.Prelude.◌*ℤ◌
    trellis_contracts.Prelude.◌%ℤ◌ trellis_contracts.Shared.Math.checked_add
    trellis_contracts.Prelude.checked_add ◌+ℤ◌ lookup trellis_contracts.Prelude.checked_sub
    trellis_contracts.Prelude.◌-ℤ◌ trellis_contracts.Prelude.insert
accrue_bounded_example =
    accrue_bounded (env_of 1) 1 10 (pos 1_000) credited.0 earning credited.1
      (omega arith, omega arith) earning-IsConfigured earning-IsBooked refl

abbrev configured : Referral
configured =
    commit earning (set_tier_config (env_of 1) 1 (pos 100 ∷ pos 50 ∷ pos 25 ∷ []) 3 (pos 9) earning)

set-get_tier_config_example :
    get_tier_config configured
    ≡ ok (record { tier_bps = pos 100 ∷ pos 50 ∷ pos 25 ∷ []; max_tiers = 3; reward_cap = pos 9 })
unfolding set_tier_config trellis_contracts.Referral.require_admin set_admin
    trellis_contracts.Prelude.checked_add ◌+ℤ◌
set-get_tier_config_example =
    set-get_tier_config (env_of 1) 1 (pos 100 ∷ pos 50 ∷ pos 25 ∷ []) 3 (pos 9) earning configured
      refl

-- The same, with the treasury's address left to the registry.
abbrev asking : Referral
asking = record earning { registry_key = some 90; treasury_key = none }

abbrev claimed : ℤ × Referral × Treasury
claimed =
    commit (pos 0, asking, treasury)
      (claim_rewards (treasury_at 77 answers (env_of 11)) (env_of 11) 11 asking treasury)

claim_pays_example :
    (claimed.0 ≡ read_accrued 11 asking)
    × (category_balance rewards_category claimed.2 +ℤ claimed.0
        ≡ category_balance rewards_category treasury)
    × (read_accrued 11 claimed.1 ≡ pos 0)
    × (total itself claimed.1.accrued +ℤ claimed.0 ≡ total itself asking.accrued)
    × (claimed.1.lifetime ≡ asking.lifetime)
unfolding claim_rewards lookup trellis_contracts.Treasury.distribute_reward rewards_category
claim_pays_example =
    claim_pays (env_of 11) answers 77 11 asking claimed.1 treasury claimed.2 claimed.0 refl

run-IsSettled_example : IsSettled (after.0)
run-IsSettled_example =
    run-IsSettled (treasury_at 77 answers (env_of 11)) history (deployed, treasury)
      deployed-IsSettled

-- A treasury that panics with the code of a shared error.
abbrev bankrupt : ℕ → Peers Treasury
bankrupt n = record { get_contract = answers; distribute_reward = λ a to x t. panic_with_error n }

codes :
    (call_treasury_distribute_reward (bankrupt 8) 77 11 (pos 5) treasury ≡ err insufficient_balance)
    × (call_treasury_distribute_reward (bankrupt 2_000) 77 11 (pos 5) treasury
        ≡ err invalid_argument)
unfolding call_treasury_distribute_reward from_code
codes = (refl, refl)
