-- ===== src/Marketplace/Fees.antt =====
-- The platform fee and the royalties (contracts/nft-marketplace/src/lib.rs).
use trellis_contracts.Prelude.{
  ℕ, List, [], ◌∷◌, if◌then◌else◌, unwrap_or, total, ℤ, ltb_ℤ, leb_ℤ, checked_add, checked_mul,
  checked_div, pos,
}
use trellis_contracts.Host.{Env, Result, Event, Address, ◌>>=◌, ok_or, expect, ok}
use trellis_contracts.Host.Token.{Token}
use trellis_contracts.Shared.Events.{emit_royalty_paid}
use trellis_contracts.Marketplace.{
  MarketError, RoyaltyRecipient, RoyaltyConfig, bps_denom, overflow,
}

-- `i128::max(0)`
abbrev pub at_least_zero : ℤ → ℤ
at_least_zero x = if ltb_ℤ x (pos 0) then pos 0 else x

unfoldable pub compute_platform_fee : ℤ → ℤ → Result MarketError ℤ
compute_platform_fee price platform_fee_bps = do
  product ← ok_or (checked_mul price platform_fee_bps) overflow
  fee ← ok_or (checked_div product bps_denom) overflow
  ok (at_least_zero fee)

-- The share of one recipient: 0 where the product overflows.
abbrev pub royalty_amount : ℤ → RoyaltyRecipient → ℤ
royalty_amount price r =
    unwrap_or (checked_div (unwrap_or (checked_mul price r.share_bps) (pos 0)) bps_denom) (pos 0)

-- The loop of `compute_royalty_amounts`: only positive amounts are kept.
unfoldable pub royalties_of : ℤ → List RoyaltyRecipient → List (Address × ℤ)
royalties_of price [] = []
royalties_of price (r ∷ rs) =
    let rest = royalties_of price rs in
    if ltb_ℤ (pos 0) (royalty_amount price r)
    then (r.address, royalty_amount price r) ∷ rest
    else rest

unfoldable pub compute_royalty_amounts : ℤ → RoyaltyConfig → List (Address × ℤ)
unfolding royalties_of
compute_royalty_amounts price config =
    if leb_ℤ config.total_bps (pos 0) then [] else royalties_of price config.recipients

-- `royalty_amounts.iter().map(|(_, a)| *a).sum()`, which panics on overflow.
unfoldable pub sum_amounts : ℤ → List (Address × ℤ) → Result MarketError ℤ
sum_amounts total [] = ok total
sum_amounts total ((_, a) ∷ rest) =
    expect (checked_add total a) >>= λ total'. sum_amounts total' rest

module _ {T : Type 0} (c : Token T) where
  -- `from` pays each recipient; a transfer that fails traps.
  unfoldable pub distribute_royalties :
      Env
      → Address
      → Address
      → ℕ
      → List (Address × ℤ)
      → T × List Event
      → Result MarketError (T × List Event)
  distribute_royalties env currency from token_id [] p = ok p
  distribute_royalties env currency from token_id ((recipient, amount) ∷ rest) (l, es) =
      (if ltb_ℤ (pos 0) amount
        then (expect (c.transfer currency from recipient amount l) >>= λ l'.
            ok (l', emit_royalty_paid token_id recipient amount env.timestamp ∷ es))
        else ok (l, es))
      >>= λ p. distribute_royalties env currency from token_id rest p
