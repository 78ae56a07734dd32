-- ===== src/Referral.antt =====
-- The referral contract (contracts/referral-contract/src/lib.rs): who referred whom, rewards that
-- accrue up the chain of referrers under a lifetime cap, and their payout by the treasury. The
-- registry and the treasury that it calls are a parameter; `T` is their state.
pub mod Rewards
pub mod Calls
pub mod Tiers
pub mod Accrual
pub mod Caps
pub mod Chains
pub mod Claims
pub mod Histories
mod Tests
use trellis_contracts.Prelude.{
  ℕ, zero, suc, ◌+◌, ◌-◌, String, Bool, true, false, not, ◌&&◌, ◌||◌, Option, none, some, List, [],
  ◌∷◌, ◌++◌, map, ltb, ◌==◌, unwrap_or, is_some, length, get_elem?, update, symbol_short, FinMap,
  lookup, total, ℤ, ltb_ℤ, leb_ℤ, pos,
}
use trellis_contracts.Host.{
  Env, Result, Val, Event, Address, ◌>>=◌, ◌>>◌, fail_if, require_auth, ok_or, ok, addr, int, num,
}
use trellis_contracts.Shared.Errors.{Error, unauthorized, not_found, overflow, invalid_argument}
use trellis_contracts.Shared.Events.{
  emit, emit_module_initialized, emit_action_executed, emit_permission_changed,
}
use trellis_contracts.Shared.Auth.{AuthStore, no_auth, set_admin, get_admin}
use trellis_contracts.Shared.Math.{safe_add, safe_sub, bps_of}

abbrev pub max_supported_tiers : ℕ
max_supported_tiers = 10

abbrev pub max_reward_cap : ℤ
max_reward_cap = pos 1_000_000_000_000_000_000

abbrev pub max_tier_bps : ℤ
max_tier_bps = pos 10_000

pub record TierConfig : Type 0 where
  pub tier_bps : List ℤ
  pub max_tiers : ℕ
  pub reward_cap : ℤ

pub record ReferralRecord : Type 0 where
  pub wallet : Address
  pub referrer : Address
  pub commission : ℤ
  pub tier : ℕ

-- The storage, one field for each key of `DataKey`, the admin of shared::auth, and the event log.
pub record Referral : Type 0 where
  pub auth : AuthStore
  pub treasury_key : Option Address
  pub registry_key : Option Address
  pub tiers_key : Option ℕ
  pub cap_key : Option ℤ
  pub bps_key : ℕ → Option ℤ
  pub referrer_key : ℕ → Option Address
  pub record_key : ℕ → Option ReferralRecord
  pub accrued : FinMap ℤ
  pub lifetime : FinMap ℤ
  pub events : List Event

abbrev pub deployed : Referral
deployed = record {
  auth = no_auth;
  treasury_key = none;
  registry_key = none;
  tiers_key = none;
  cap_key = none;
  bps_key = λ _. none;
  referrer_key = λ _. none;
  record_key = λ _. none;
  accrued = [];
  lifetime = [];
  events = [];
}

abbrev pub log : List Event → Referral → Referral
log es s = record s { events = es ++ s.events }

-- `emit_action_executed(&env, "referral", action, &who, true, env.ledger().timestamp())`
abbrev pub acted : Env → String → Address → Event
acted env action who =
    emit_action_executed (symbol_short "referral") (symbol_short action) who true env.timestamp

pub require_admin : Env → Address → Referral → Result Error (Unit {0})
unfolding get_admin
require_admin env caller s = do
  a ← get_admin s.auth
  fail_if (not (caller == a)) unauthorized
  require_auth env caller

pub initialize : Env → Address → Referral → Referral
unfolding set_admin
initialize env admin_addr s =
    log (emit_module_initialized (symbol_short "referral") 1 admin_addr env.timestamp ∷ [])
      (record s {
        auth = set_admin admin_addr s.auth;
        tiers_key = some 1;
        cap_key = some (pos 0);
        bps_key = update s.bps_key 1 (pos 0);
      })

pub set_treasury : Env → Address → Address → Referral → Result Error Referral
set_treasury env caller treasury s = do
  require_admin env caller s
  ok (log (acted env "treasury" caller ∷ []) (record s { treasury_key = some treasury }))

pub set_registry : Env → Address → Address → Referral → Result Error Referral
set_registry env caller registry s = do
  require_admin env caller s
  ok (record s { registry_key = some registry })

-- `(MIN_TIER_BPS..=MAX_TIER_BPS).contains(&bps)`
abbrev pub is_tier_bps : ℤ → Bool
is_tier_bps bps = leb_ℤ (pos 0) bps && leb_ℤ bps max_tier_bps

-- The loop of `validate_tier_config`: the sum of the tiers after `total`.
pub total_bps : List ℤ → ℤ → Result Error ℤ
unfolding safe_add
total_bps [] total = ok total
total_bps (bps ∷ rest) total =
    fail_if (not (is_tier_bps bps)) invalid_argument
    >> (ok_or (safe_add total bps) overflow >>= λ sum. total_bps rest sum)

pub validate_tier_config : List ℤ → ℕ → ℤ → Result Error (Unit {0})
unfolding total_bps
validate_tier_config tier_bps max_tiers reward_cap = do
  fail_if
      (max_tiers == 0 || ltb max_supported_tiers max_tiers || not (length tier_bps == max_tiers))
      invalid_argument
  fail_if (not (leb_ℤ (pos 0) reward_cap && leb_ℤ reward_cap max_reward_cap)) invalid_argument
  total ← total_bps tier_bps (pos 0)
  fail_if (ltb_ℤ max_tier_bps total) invalid_argument

-- The loop of `set_tier_config` from `tier` on, with `rounds` tiers left.
pub store_tiers : ℕ → ℕ → List ℤ → (ℕ → Option ℤ) → Result Error (ℕ → Option ℤ)
store_tiers zero tier tiers m = ok m
store_tiers (suc rounds) tier tiers m =
    ok_or (get_elem? tiers (tier - 1)) invalid_argument >>= λ bps.
    store_tiers rounds (tier + 1) tiers (update m tier bps)

-- A `TierConfig` in an event: the tiers, then the other fields.
abbrev config_vals : List ℤ → ℕ → ℤ → List Val
config_vals tiers n cap = map int tiers ++ num n ∷ int cap ∷ []

pub set_tier_config : Env → Address → List ℤ → ℕ → ℤ → Referral → Result Error Referral
unfolding validate_tier_config store_tiers
set_tier_config env caller tier_bps max_tiers reward_cap s = do
  require_admin env caller s
  validate_tier_config tier_bps max_tiers reward_cap
  m ← store_tiers max_tiers 1 tier_bps s.bps_key
  ok (
      log
        (emit_permission_changed (symbol_short "referral") (symbol_short "tier") caller true
            env.timestamp
          ∷ emit (symbol_short "tier_cfg") (config_vals tier_bps max_tiers reward_cap)
          ∷ [])
        (record s { tiers_key = some max_tiers; cap_key = some reward_cap; bps_key = m }))

-- The loop that reads the tiers from `tier` on, in `get_tier_config` and `accrue`.
pub read_tiers : ℕ → ℕ → (ℕ → Option ℤ) → Result Error (List ℤ)
read_tiers zero tier m = ok []
read_tiers (suc rounds) tier m =
    ok_or (m tier) not_found >>= λ bps. read_tiers rounds (tier + 1) m >>= λ rest. ok (bps ∷ rest)

pub get_tier_config : Referral → Result Error TierConfig
unfolding read_tiers
get_tier_config s = do
  max_tiers ← ok_or s.tiers_key not_found
  tiers ← read_tiers max_tiers 1 s.bps_key
  cap ← ok_or s.cap_key not_found
  ok (record { tier_bps = tiers; max_tiers = max_tiers; reward_cap = cap })

-- The loop of `would_create_cycle` from `current_wallet` on, with `rounds` steps left.
pub climbs_to : ℕ → (ℕ → Option Address) → Address → Address → Bool
climbs_to zero referrers current_wallet wallet = false
climbs_to (suc rounds) referrers current_wallet wallet = elim (current_wallet == wallet) [
  | true ↦ true
  | false ↦ elim (referrers current_wallet) [
    | none ↦ false
    | some next ↦ climbs_to rounds referrers next wallet
  ]
]

pub would_create_cycle : Address → Address → Referral → Bool
unfolding climbs_to
would_create_cycle referred_wallet referrer s =
    climbs_to max_supported_tiers s.referrer_key referrer referred_wallet

pub set_referrer : Env → Address → Address → Address → Referral → Result Error Referral
unfolding would_create_cycle
set_referrer env caller referred_wallet referrer s = do
  require_admin env caller s
  fail_if (referred_wallet == referrer || would_create_cycle referred_wallet referrer s)
      invalid_argument
  ok (
      log
        (acted env "referrer" caller
          ∷ emit (symbol_short "ref_set") (addr referred_wallet ∷ addr referrer ∷ [])
          ∷ [])
        (record s { referrer_key = update s.referrer_key referred_wallet referrer }))

pub register : Env → Address → Address → Referral → Result Error Referral
unfolding would_create_cycle
register env wallet referrer s = do
  require_auth env wallet
  fail_if (wallet == referrer) invalid_argument
  fail_if (is_some (s.referrer_key wallet)) invalid_argument
  fail_if (not (is_some (s.referrer_key referrer))) invalid_argument
  fail_if (would_create_cycle wallet referrer s) invalid_argument
  let entry : ReferralRecord = record {
    wallet = wallet;
    referrer = referrer;
    commission = pos 0;
    tier = 0;
  }
  ok (
      log
        (acted env "register" wallet
          ∷ emit (symbol_short "ref_reg") (addr wallet ∷ addr referrer ∷ [])
          ∷ [])
        (record s {
          referrer_key = update s.referrer_key wallet referrer;
          record_key = update s.record_key wallet entry;
        }))

unfoldable pub read_accrued : Address → Referral → ℤ
read_accrued referrer s = unwrap_or (lookup referrer s.accrued) (pos 0)

unfoldable pub read_lifetime_accrued : Address → Referral → ℤ
read_lifetime_accrued referrer s = unwrap_or (lookup referrer s.lifetime) (pos 0)
