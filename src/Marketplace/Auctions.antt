-- ===== src/Marketplace/Auctions.antt =====
-- Auctions and the price of a Dutch auction (contracts/nft-marketplace/src/lib.rs).
use trellis_contracts.Prelude.{
  ℕ, ◌-◌, List, ltb, leb, if◌then◌else◌, ℤ, checked_sub, checked_mul, checked_div, pos,
}
use trellis_contracts.Host.{Env, Result, Address, ◌>>=◌, ◌>>◌, fail_if, ok_or, ok}
use trellis_contracts.Marketplace.{MarketError, overflow}
use trellis_contracts.Marketplace.Fees.{at_least_zero}

pub data AuctionType : Type 0 where
  english dutch : AuctionType

pub data AuctionStatus : Type 0 where
  active ended settled cancelled : AuctionStatus

pub record Auction : Type 0 where
  pub id : ℕ
  pub auction_type : AuctionType
  pub seller : Address
  pub collection : Address
  pub token_id : ℕ
  pub amount : ℕ
  pub currency : Address
  pub start_price : ℤ
  pub floor_price : ℤ
  pub current_bid : ℤ
  pub current_bidder : Address
  pub status : AuctionStatus
  pub start_time : ℕ
  pub end_time : ℕ
  pub auto_extension_window : ℕ
  pub metadata_hash : List ℕ

unfoldable pub dutch_auction_price : Env → Auction → Result MarketError ℤ
dutch_auction_price env a =
    if leb a.end_time env.timestamp
    then ok a.floor_price
    else if leb env.timestamp a.start_time
    then ok a.start_price
    else (do
      fail_if (ltb a.end_time a.start_time) overflow
      fail_if (ltb env.timestamp a.start_time) overflow
      let duration = a.end_time - a.start_time
      let elapsed = env.timestamp - a.start_time
      price_range ← ok_or (checked_sub a.start_price a.floor_price) overflow
      product ← ok_or (checked_mul price_range (pos elapsed)) overflow
      decay ← ok_or (checked_div product (pos duration)) overflow
      price ← ok_or (checked_sub a.start_price decay) overflow
      ok (at_least_zero price))
