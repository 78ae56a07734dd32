-- ===== src/Referral/Rewards.antt =====
-- Accrual and payout of referral rewards (contracts/referral-contract/src/lib.rs: `accrue`,
-- `claim_rewards` and their helpers).
use trellis_contracts.Prelude.{
  ℕ, zero, suc, ◌+◌, ◌-◌, ◌&&◌, Option, none, some, List, [], ◌∷◌, if◌then◌else◌, get_elem?,
  symbol_short, unwrap_or, insert, ℤ, ltb_ℤ, leb_ℤ, pos,
}
use trellis_contracts.Host.{
  Env, Result, Event, Address, Symbol, ◌>>=◌, ◌>>◌, fail_if, require_auth, ok_or, ok, err,
  panic_with_error, trap, addr, int, num,
}
use trellis_contracts.Shared.Errors.{Error, from_code, not_found, overflow, invalid_argument}
use trellis_contracts.Shared.Events.{emit}
use trellis_contracts.Shared.Math.{safe_add, safe_sub, bps_of}
use trellis_contracts.Referral.{
  Referral, log, acted, require_admin, read_tiers, read_accrued, read_lifetime_accrued,
}

-- The contracts that the referral contract calls with `try_invoke_contract`: the registry's
-- `get_contract`, `none` where the call fails, and the treasury's `distribute_reward`.
pub record Peers (T : Type 0) : Type 0 where
  pub get_contract : Address → Symbol → T → Option Address
  pub distribute_reward : Address → Address → ℤ → T → Result Error T

-- What is credited of a commission when `remaining` is left under the cap.
abbrev pub capped : ℤ → ℤ → ℤ
capped commission remaining = if ltb_ℤ remaining commission then remaining else commission

abbrev pub reward_event : Address → Address → ℕ → ℤ → ℤ → ℤ → Event
reward_event referred referrer tier amount balance lifetime =
    emit (symbol_short "ref_acc")
      (addr referred ∷ addr referrer ∷ num tier ∷ int amount ∷ int balance ∷ int lifetime ∷ [])

unfoldable pub credit_referrer :
    Address → Address → ℕ → ℤ → ℤ → Referral → Result Error (ℤ × Referral)
unfolding read_accrued read_lifetime_accrued safe_add safe_sub
credit_referrer referred_wallet referrer tier commission reward_cap s =
    let lifetime = read_lifetime_accrued referrer s in
    if leb_ℤ reward_cap lifetime
    then ok (pos 0, s)
    else (ok_or (safe_sub reward_cap lifetime) overflow >>= λ remaining_cap.
        let credited = capped commission remaining_cap in
        if leb_ℤ credited (pos 0) && leb_ℤ (pos 0) credited
        then ok (pos 0, s)
        else (ok_or (safe_add (read_accrued referrer s) credited) overflow >>= λ balance.
            ok_or (safe_add lifetime credited) overflow >>= λ new_lifetime. ok (
              credited,
              log (reward_event referred_wallet referrer tier credited balance new_lifetime ∷ [])
                  (record s {
                    accrued = insert referrer balance s.accrued;
                    lifetime = insert referrer new_lifetime s.lifetime;
                  }),
            )))

-- The body of the loop of `accrue` for one referrer: `if commission > 0 { .. }`.
unfoldable pub credit_positive :
    Address → Address → ℕ → ℤ → ℤ → ℤ × Referral → Result Error (ℤ × Referral)
unfolding credit_referrer safe_add
credit_positive referred_wallet referrer tier commission reward_cap (total_credited, s) =
    if ltb_ℤ (pos 0) commission
    then (credit_referrer referred_wallet referrer tier commission reward_cap s >>= λ out.
        ok_or (safe_add total_credited out.0) overflow >>= λ total. ok (total, out.1))
    else ok (total_credited, s)

-- The loop of `accrue` from `tier` and `current_wallet` on, with `rounds` tiers left; `cache` holds
-- the rates of the tiers.
unfoldable pub accrue_loop :
    Address → ℤ → ℤ → List ℤ → ℕ → ℕ → Address → ℤ × Referral → Result Error (ℤ × Referral)
unfolding credit_positive bps_of
accrue_loop referred base cap cache zero tier current_wallet p = ok p
accrue_loop referred base cap cache (suc rounds) tier current_wallet (total_credited, s) =
    elim (s.referrer_key current_wallet) [
      | none ↦ ok (total_credited, s)
      | some referrer ↦ ok_or (get_elem? cache (tier - 1)) not_found >>= λ tier_bps.
          ok_or (bps_of base tier_bps) overflow >>= λ commission.
          credit_positive referred referrer tier commission cap (total_credited, s) >>= λ p.
          accrue_loop referred base cap cache rounds (tier + 1) referrer p
    ]

unfoldable pub accrue : Env → Address → Address → ℤ → Referral → Result Error (ℤ × Referral)
unfolding accrue_loop read_tiers
accrue env caller referred_wallet base_amount s = do
  require_admin env caller s
  fail_if (leb_ℤ base_amount (pos 0)) invalid_argument
  max_tiers ← ok_or s.tiers_key not_found
  reward_cap ← ok_or s.cap_key not_found
  cache ← read_tiers max_tiers 1 s.bps_key
  accrue_loop referred_wallet base_amount reward_cap cache max_tiers 1 referred_wallet (pos 0, s)

module _ {T : Type 0} (p : Peers T) where
  -- The registry's answer, if one is set and the call succeeds.
  abbrev resolved : Option Address → T → Option Address
  resolved none l = none
  resolved (some registry) l = p.get_contract registry (symbol_short "treasury") l

  unfoldable pub read_treasury : Referral → T → Result Error Address
  read_treasury s l = elim (resolved s.registry_key l) [
    | some address ↦ ok address
    | none ↦ ok_or s.treasury_key not_found
  ]

  -- The host reports an error of the treasury, and a `panic_with_error`, by its code. A code of the
  -- shared errors is passed on; any other failure is `InvalidArgument`.
  abbrev pub reported : ℕ → Error
  reported n = unwrap_or (from_code n) invalid_argument

  unfoldable pub call_treasury_distribute_reward : Address → Address → ℤ → T → Result Error T
  call_treasury_distribute_reward treasury referrer amount l =
      elim (p.distribute_reward treasury referrer amount l) [
        | ok l' ↦ ok l'
        | err e ↦ err e
        | panic_with_error n ↦ err (reported n)
        | trap ↦ err invalid_argument
      ]

  unfoldable pub claim_rewards : Env → Address → Referral → T → Result Error (ℤ × Referral × T)
  unfolding read_accrued read_treasury call_treasury_distribute_reward
  claim_rewards env referrer s l =
      require_auth env referrer
      >> (let amount = read_accrued referrer s in
          if leb_ℤ amount (pos 0) && leb_ℤ (pos 0) amount
          then ok (pos 0, s, l)
          else (read_treasury s l >>= λ treasury.
              call_treasury_distribute_reward treasury referrer amount l >>= λ l'. ok (
                amount,
                log
                    (acted env "claim" referrer
                      ∷ emit (symbol_short "com_paid") (addr referrer ∷ int amount ∷ [])
                      ∷ [])
                    (record s { accrued = insert referrer (pos 0) s.accrued }),
                l',
              )))
