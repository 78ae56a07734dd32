-- ===== src/Marketplace/Listings.antt =====
-- Fixed-price listings (contracts/nft-marketplace/src/lib.rs).
use trellis_contracts.Prelude.{
  ℕ, not, none, some, List, [], ◌==◌, if◌then◌else◌, unwrap_or, update, lookup, ℤ, ltb_ℤ,
  checked_sub, pos, negsuc,
}
use trellis_contracts.Host.{
  Env, Result, Address, ◌>>=◌, ◌>>◌, fail_if, require_auth, ok_or, expect, ok,
}
use trellis_contracts.Host.Token.{Token}
use trellis_contracts.Shared.Events.{emit_nft_listed, emit_nft_sold}
use trellis_contracts.Marketplace.{
  MarketError, Listing, Marketplace, default_platform_fee_bps, is_listed, collections, next_id,
  validate_price, validate_metadata_hash, log, validate_currency, verify_collection,
  update_collection_stats, require_not_paused, listing_not_found, listing_already_sold, not_owner,
  overflow, active, sold, cancelled,
}
use trellis_contracts.Marketplace.Fees.{
  compute_platform_fee, compute_royalty_amounts, sum_amounts, distribute_royalties,
}

-- The royalties of a sale, if the collection is registered.
abbrev pub royalties_due : {T : Type 0} → Address → ℤ → Marketplace T → List (Address × ℤ)
royalties_due collection price s = elim (lookup collection (collections s)) [
  | none ↦ []
  | some info ↦ compute_royalty_amounts price info.royalty_config
]

module _ {T : Type 0} (c : Token T) where
  -- `if amount > 0 { payment_client.transfer(..); }`
  abbrev pub pay_positive : Address → Address → Address → ℤ → T → Result MarketError T
  pay_positive currency from to amount l =
      if ltb_ℤ (pos 0) amount then expect (c.transfer currency from to amount l) else ok l

  unfoldable pub list_nft :
      Env
      → Address
      → Address
      → ℕ
      → ℕ
      → ℤ
      → Address
      → List ℕ
      → Marketplace T
      → Result MarketError (ℕ × Marketplace T)
  unfolding require_not_paused validate_price validate_currency validate_metadata_hash
      verify_collection
  list_nft env seller collection token_id amount price currency metadata_hash s = do
    require_not_paused s
    require_auth env seller
    validate_price price
    validate_currency currency s
    validate_metadata_hash metadata_hash
    verify_collection collection s
    listing_id ← next_id s.list_seq
    l ← expect (c.transfer collection seller env.current_contract_address (pos amount) s.ledger)
    let listing : Listing = record {
      id = listing_id;
      seller = seller;
      collection = collection;
      token_id = token_id;
      amount = amount;
      price = price;
      currency = currency;
      status = active;
      created_at = env.timestamp;
      metadata_hash = metadata_hash;
    }
    counted ← update_collection_stats collection (pos 1) (pos 0) (record s {
      list_seq = some listing_id;
      ledger = l;
      listing = update s.listing listing_id listing;
    })
    ok (
      listing_id,
      log (emit_nft_listed listing_id seller collection token_id price currency env.timestamp)
          counted,
    )

  -- The payments of a sale by `buyer`: the fee, the royalties and the rest to the seller.
  unfoldable pub settle :
      Env
      → Address
      → Address
      → Address
      → Address
      → ℕ
      → ℤ
      → Marketplace T
      → Result MarketError (Marketplace T)
  unfolding compute_platform_fee sum_amounts distribute_royalties
  settle env buyer seller collection currency token_id price s = do
    fee_recipient ← expect s.fee_rcp
    platform_fee ← compute_platform_fee price (unwrap_or s.plat_fee default_platform_fee_bps)
    let royalty_amounts = royalties_due collection price s
    total_royalties ← sum_amounts (pos 0) royalty_amounts
    after_fee ← ok_or (checked_sub price platform_fee) overflow
    seller_proceeds ← ok_or (checked_sub after_fee total_royalties) overflow
    l₁ ← pay_positive currency buyer fee_recipient platform_fee s.ledger
    p ← distribute_royalties c env currency buyer token_id royalty_amounts (l₁, s.events)
    l₂ ← pay_positive currency buyer seller seller_proceeds p.0
    ok (record s { ledger = l₂; events = p.1 })

  unfoldable pub buy_nft : Env → Address → ℕ → Marketplace T → Result MarketError (Marketplace T)
  unfolding require_not_paused settle
  buy_nft env buyer listing_id s = do
    require_not_paused s
    require_auth env buyer
    listing ← ok_or (s.listing listing_id) listing_not_found
    fail_if (not (is_listed listing.status)) listing_already_sold
    paid ←
        settle env buyer listing.seller listing.collection listing.currency listing.token_id
          listing.price
          (record s { listing = update s.listing listing_id (record listing { status = sold }) })
    l ← expect (
        c.transfer listing.collection env.current_contract_address buyer (pos listing.amount)
          paid.ledger)
    let moved : Marketplace T = record paid { ledger = l }
    counted ← update_collection_stats listing.collection (negsuc 0) (pos 0) moved
    ok (log (emit_nft_sold listing_id listing.seller buyer listing.price env.timestamp) counted)

  unfoldable pub cancel_listing :
      Env → Address → ℕ → Marketplace T → Result MarketError (Marketplace T)
  cancel_listing env caller listing_id s = do
    require_auth env caller
    listing ← ok_or (s.listing listing_id) listing_not_found
    fail_if (not (is_listed listing.status)) listing_already_sold
    fail_if (not (listing.seller == caller)) not_owner
    l ← expect (
        c.transfer listing.collection env.current_contract_address listing.seller
          (pos listing.amount) s.ledger)
    update_collection_stats listing.collection (negsuc 0) (pos 0) (record s {
      listing = update s.listing listing_id (record listing { status = cancelled });
      ledger = l;
    })

  unfoldable pub get_listing : ℕ → Marketplace T → Result MarketError Listing
  get_listing listing_id s = ok_or (s.listing listing_id) listing_not_found
