-- ===== src/Governance/Params.antt =====
-- The catalog of protocol parameters: their bounds, their defaults, and the storage of their
-- values (contracts/governance-contract/src/lib.rs).
use trellis_contracts.Prelude.{
  ℕ, Bool, ◌&&◌, ◌||◌, Option, none, some, List, [], ◌∷◌, ltb, ◌==◌, if◌then◌else◌, ℤ, ltb_ℤ, pos,
}
use trellis_contracts.Host.{Result, Val, ◌>>=◌, fail_if, ok_or, num}
use trellis_contracts.Shared.Errors.{Error, not_found, invalid_argument}

pub data ParameterKey : Type 0 where
  aid_default_expiry treasury_withdrawal_limit : ParameterKey
  referral_tier_bps : ℕ → ParameterKey
  referral_max_tiers referral_reward_cap : ParameterKey

-- The derived equality, by the variant's position and its tier.
abbrev key_tag : ParameterKey → ℕ
key_tag aid_default_expiry = 0
key_tag treasury_withdrawal_limit = 1
key_tag (referral_tier_bps _) = 2
key_tag referral_max_tiers = 3
key_tag referral_reward_cap = 4

abbrev key_tier : ParameterKey → ℕ
key_tier aid_default_expiry = 0
key_tier treasury_withdrawal_limit = 0
key_tier (referral_tier_bps t) = t
key_tier referral_max_tiers = 0
key_tier referral_reward_cap = 0

abbrev pub same_key : ParameterKey → ParameterKey → Bool
same_key a b = key_tag a == key_tag b && key_tier a == key_tier b

-- A key in an event.
abbrev pub key_val : ParameterKey → List Val
key_val k = num (key_tag k) ∷ num (key_tier k) ∷ []

pub record ParameterBounds : Type 0 where
  pub min : ℤ
  pub max : ℤ

abbrev max_referral_max_tiers : ℕ
max_referral_max_tiers = 10

pub bounds_for : ParameterKey → Option ParameterBounds
bounds_for aid_default_expiry = some (record { min = pos 60; max = pos 31_536_000 })
bounds_for treasury_withdrawal_limit =
    some (record { min = pos 0; max = pos 1_000_000_000_000_000_000 })
bounds_for (referral_tier_bps tier) =
    if tier == 0 || ltb max_referral_max_tiers tier
    then none
    else some (record { min = pos 0; max = pos 10_000 })
bounds_for referral_max_tiers = some (record { min = pos 1; max = pos max_referral_max_tiers })
bounds_for referral_reward_cap = some (record { min = pos 0; max = pos 1_000_000_000_000_000_000 })

unfoldable pub validate_param : ParameterKey → ℤ → Result Error (Unit {0})
unfolding bounds_for
validate_param key value = do
  bounds ← ok_or (bounds_for key) invalid_argument
  fail_if (ltb_ℤ value bounds.min || ltb_ℤ bounds.max value) invalid_argument

-- The entries `DataKey::Parameter(key)`.
abbrev pub ParamStore : Type 0
ParamStore = ParameterKey → Option ℤ

unfoldable pub write_param : ParameterKey → ℤ → ParamStore → ParamStore
write_param key value m q = if same_key q key then some value else m q

unfoldable pub read_param : ParameterKey → ParamStore → Result Error ℤ
read_param key m = ok_or (m key) not_found

unfoldable pub seed_defaults : ParamStore → ParamStore
unfolding write_param
seed_defaults m = write_param referral_reward_cap (pos 10_000_000_000) (
    write_param referral_max_tiers (pos 3) (
      write_param (referral_tier_bps 3) (pos 100) (
        write_param (referral_tier_bps 2) (pos 250) (
          write_param (referral_tier_bps 1) (pos 500) (
            write_param treasury_withdrawal_limit (pos 100_000_000_000)
              (write_param aid_default_expiry (pos 604_800) m))))))
