-- ===== src/Marketplace.antt =====
-- The NFT marketplace (contracts/nft-marketplace/src/lib.rs): its data, its configuration and its
-- collections. A byte string is a list of bytes. `T` is the state of all token contracts, those of
-- the collections included.
pub mod Fees
pub mod Auctions
pub mod Config
pub mod Listings
pub mod Prices
mod Tests
use trellis_contracts.Prelude.{
  ℕ, zero, suc, ◌+◌, ◌-◌, ◌^◌, Bool, true, false, not, ◌||◌, Option, none, some, List, [], ◌∷◌, ltb,
  leb, ◌==◌, if◌then◌else◌, unwrap_or, is_some, length, symbol_short, FinMap, lookup, insert, total,
  ℤ, ltb_ℤ, leb_ℤ, checked_add, pos, negsuc,
}
use trellis_contracts.Host.{
  Env, Result, Event, Address, Symbol, ◌>>=◌, ◌>>◌, fail_if, require_auth, expect, ok, err, trap,
}
use trellis_contracts.Shared.Events.{emit_action_executed}
use trellis_contracts.Shared.Auth.{AuthStore, get_admin, is_paused}

pub data MarketError : Type 0 where
  listing_not_found listing_already_sold not_owner collection_already_registered : MarketError
  collection_not_found currency_not_whitelisted invalid_metadata_hash : MarketError
  invalid_royalty_rate invalid_extension_window auction_ended bid_too_low : MarketError
  bidder_is_current_highest auction_not_yet_ended offer_expired offer_already_settled : MarketError
  not_offer_recipient dutch_auction_price_zero invalid_dutch_auction_prices : MarketError
  invalid_amount overflow contract_paused unauthorized invalid_argument : MarketError

abbrev pub bps_denom : ℤ
bps_denom = pos 10_000

abbrev pub default_platform_fee_bps : ℤ
default_platform_fee_bps = pos 250

abbrev pub max_royalty_bps : ℤ
max_royalty_bps = pos 1_000

abbrev pub max_fee_bps : ℤ
max_fee_bps = pos 1_000

abbrev pub max_royalty_recipients : ℕ
max_royalty_recipients = 10

abbrev pub metadata_hash_len : ℕ
metadata_hash_len = 32

pub data TokenStandard : Type 0 where
  erc721 erc1155 : TokenStandard

pub data ListingStatus : Type 0 where
  active sold cancelled : ListingStatus

abbrev pub is_listed : ListingStatus → Bool
is_listed active = true
is_listed sold = false
is_listed cancelled = false

pub record Listing : Type 0 where
  pub id : ℕ
  pub seller : Address
  pub collection : Address
  pub token_id : ℕ
  pub amount : ℕ
  pub price : ℤ
  pub currency : Address
  pub status : ListingStatus
  pub created_at : ℕ
  pub metadata_hash : List ℕ

pub record RoyaltyRecipient : Type 0 where
  pub address : Address
  pub share_bps : ℤ

pub record RoyaltyConfig : Type 0 where
  pub recipients : List RoyaltyRecipient
  pub total_bps : ℤ

pub record CollectionInfo : Type 0 where
  pub address : Address
  pub admin : Address
  pub name : Symbol
  pub ipfs_uri : List ℕ
  pub metadata_hash : List ℕ
  pub standard : TokenStandard
  pub royalty_config : RoyaltyConfig
  pub registered_at : ℕ
  pub active_listings : ℕ
  pub active_auctions : ℕ

-- The storage: one field for each `KEY_..` constant that the modelled entry points use, the
-- listings, and the keys of shared::auth, with the tokens' state and the event log.
pub record Marketplace (T : Type 0) : Type 0 where
  pub auth : AuthStore
  pub plat_fee : Option ℤ
  pub fee_rcp : Option Address
  pub bid_inc : Option ℤ
  pub auto_ext : Option ℕ
  pub currenc : Option (FinMap Bool)
  pub collects : Option (FinMap CollectionInfo)
  pub list_seq : Option ℕ
  pub auc_seq : Option ℕ
  pub off_seq : Option ℕ
  pub oracle : Option Address
  pub listing : ℕ → Option Listing
  pub ledger : T
  pub events : List Event

abbrev pub currencies : {T : Type 0} → Marketplace T → FinMap Bool
currencies s = unwrap_or s.currenc []

abbrev pub collections : {T : Type 0} → Marketplace T → FinMap CollectionInfo
collections s = unwrap_or s.collects []

-- `current.checked_add(1)` on `u64`
abbrev pub next_id : Option ℕ → Result MarketError ℕ
next_id seq = if leb (2 ^ 64 - 1) (unwrap_or seq 0) then err overflow else ok (unwrap_or seq 0 + 1)

pub validate_price : ℤ → Result MarketError (Unit {0})
validate_price price = fail_if (leb_ℤ price (pos 0)) invalid_amount

pub validate_metadata_hash : List ℕ → Result MarketError (Unit {0})
validate_metadata_hash hash = fail_if (not (length hash == metadata_hash_len)) invalid_metadata_hash

-- A statistic of a collection (`u32`) after `listing_delta` or `auction_delta`; it overflows with a
-- panic.
pub moved_count : ℕ → ℤ → Result MarketError ℕ
moved_count n (pos zero) = ok n
moved_count n (pos (suc d)) = if leb (2 ^ 32) (n + suc d) then trap else ok (n + suc d)
moved_count n (negsuc d) =
    if ltb 0 n then (if leb (suc d) n then ok (n - suc d) else trap) else ok n

-- The loop that checks the shares of the royalty recipients and adds them up.
pub total_shares : List RoyaltyRecipient → ℤ → Result MarketError ℤ
total_shares [] total_bps = ok total_bps
total_shares (r ∷ rs) total_bps = do
  fail_if (ltb_ℤ r.share_bps (pos 0) || ltb_ℤ max_royalty_bps r.share_bps) invalid_royalty_rate
  total ← expect (checked_add total_bps r.share_bps)
  total_shares rs total

module _ {T : Type 0} where
  abbrev pub log : Event → Marketplace T → Marketplace T
  log e s = record s { events = e ∷ s.events }

  pub emit_action : Env → Address → Symbol → Marketplace T → Marketplace T
  emit_action env caller action s =
      log (emit_action_executed (symbol_short "nft_mkt") action caller true env.timestamp) s

  pub validate_currency : Address → Marketplace T → Result MarketError (Unit {0})
  validate_currency currency s =
      fail_if (not (unwrap_or (lookup currency (currencies s)) false)) currency_not_whitelisted

  pub verify_collection : Address → Marketplace T → Result MarketError (Unit {0})
  verify_collection collection s =
      fail_if (not (is_some (lookup collection (collections s)))) collection_not_found

  pub update_collection_stats : Address → ℤ → ℤ → Marketplace T → Result MarketError (Marketplace T)
  unfolding moved_count
  update_collection_stats collection listing_delta auction_delta s =
      elim (lookup collection (collections s)) [
        | none ↦ ok s
        | some info ↦ moved_count info.active_listings listing_delta >>= λ n.
            moved_count info.active_auctions auction_delta >>= λ m. ok (record s {
              collects = some (
                  insert collection (record info { active_listings = n; active_auctions = m })
                    (collections s));
            })
      ]

  pub require_admin : Env → Address → Marketplace T → Result MarketError (Unit {0})
  unfolding get_admin
  require_admin env caller s = do
    admin ← get_admin s.auth
    fail_if (not (caller == admin)) unauthorized
    require_auth env caller

  pub require_not_paused : Marketplace T → Result MarketError (Unit {0})
  unfolding is_paused
  require_not_paused s = fail_if (is_paused s.auth) contract_paused
