-- ===== src/Marketplace/Tests.antt =====
-- Runs of the marketplace, and its theorems at concrete auctions.
use trellis_contracts.Prelude.{
  negsuc, lookup, insert, checked_add, ◌+ℤ◌, ℕ, ◌-◌, ◌*◌, ◌^◌, ◌≤◌, ◌<◌, ◌≡◌, refl, ◌⊎◌, true, none,
  some, List, [], ◌∷◌, arith, ◌-ℤ◌, ◌*ℤ◌, ◌/ℤ◌, ◌≤ℤ◌, checked_sub, checked_mul, checked_div, pos,
}
use trellis_contracts.Host.{Env, commit, ok, err}
use trellis_contracts.Host.Sample.{moved, env_of, Bank, bank}
use trellis_contracts.Shared.Auth.{is_paused, get_admin, no_auth, set_admin}
use trellis_contracts.Marketplace.{
  validate_currency, verify_collection, validate_price, validate_metadata_hash, require_not_paused,
  update_collection_stats, moved_count, require_admin, emit_action, RoyaltyRecipient, Marketplace,
  total_shares, listing_not_found, listing_already_sold, not_owner, collection_already_registered,
  collection_not_found, invalid_royalty_rate, invalid_extension_window, overflow, unauthorized,
  invalid_argument, erc721, active,
}
use trellis_contracts.Marketplace.Fees.{
  royalties_of, distribute_royalties, compute_platform_fee, compute_royalty_amounts, sum_amounts,
}
use trellis_contracts.Marketplace.Auctions.{Auction, dutch_auction_price, dutch}
use trellis_contracts.Marketplace.Config.{
  initialize, set_platform_fee, set_fee_recipient, set_bid_increment, set_auto_extension,
  set_currency, set_oracle, register_collection, set_collection_royalties, get_collection,
}
use trellis_contracts.Marketplace.Listings.{settle, list_nft, buy_nft, cancel_listing, get_listing}
use trellis_contracts.Marketplace.Prices.{
  range_of, decayed, dutch_auction_price_lem, dutch_auction_price_falls,
}

abbrev hash : List ℕ
hash =
    0 ∷ 1 ∷ 2 ∷ 3 ∷ 4 ∷ 5 ∷ 6 ∷ 7 ∷ 0 ∷ 1 ∷ 2 ∷ 3 ∷ 4 ∷ 5 ∷ 6 ∷ 7 ∷ 0 ∷ 1 ∷ 2 ∷ 3 ∷ 4 ∷ 5 ∷ 6 ∷ 7
    ∷ 0 ∷ 1 ∷ 2 ∷ 3 ∷ 4 ∷ 5 ∷ 6 ∷ 7 ∷ []

abbrev tenth : RoyaltyRecipient
tenth = record { address = 9; share_bps = pos 1_000 }

-- 1 is the admin, 50 a currency and 60 a collection with one royalty of 10 %.
abbrev opened : Marketplace Bank
opened = record {
  auth = set_admin 1 no_auth;
  plat_fee = some (pos 250);
  fee_rcp = some 8;
  bid_inc = none;
  auto_ext = none;
  currenc = some ((50, true) ∷ []);
  collects = some (
      (
        60,
        record {
          address = 60;
          admin = 1;
          name = 7;
          ipfs_uri = [];
          metadata_hash = hash;
          standard = erc721;
          royalty_config = record { recipients = tenth ∷ []; total_bps = pos 1_000 };
          registered_at = 7;
          active_listings = 0;
          active_auctions = 0;
        },
      )
      ∷ []);
  list_seq = none;
  auc_seq = none;
  off_seq = none;
  oracle = none;
  listing = λ _. none;
  ledger = λ token who. pos 1_000;
  events = [];
}

abbrev listed : ℕ × Marketplace Bank
listed = commit (0, opened) (list_nft bank (env_of 2) 2 60 5 1 (pos 400) 50 hash opened)

abbrev bought : Marketplace Bank
bought = commit (listed.1) (buy_nft bank (env_of 3) 3 1 (listed.1))

abbrev withdrawn : Marketplace Bank
withdrawn = commit (listed.1) (cancel_listing bank (env_of 2) 2 1 (listed.1))

listed_id : listed.0 ≡ 1
unfolding list_nft buy_nft cancel_listing settle validate_currency verify_collection validate_price
    validate_metadata_hash require_not_paused is_paused update_collection_stats moved_count
    compute_platform_fee compute_royalty_amounts royalties_of sum_amounts distribute_royalties
    lookup insert checked_add checked_mul checked_div checked_sub ◌+ℤ◌ ◌-ℤ◌ ◌*ℤ◌ ◌/ℤ◌ moved
    set_admin
listed_id = refl

-- The buyer pays 400: 10 as a fee, 40 as a royalty and 350 to the seller.
sale :
    (bought.ledger 50 3 ≡ pos 600)
    × (bought.ledger 50 8 ≡ pos 1_010)
    × (bought.ledger 50 9 ≡ pos 1_040)
    × (bought.ledger 50 2 ≡ pos 1_350)
    × (bought.ledger 60 3 ≡ pos 1_001)
unfolding list_nft buy_nft cancel_listing settle validate_currency verify_collection validate_price
    validate_metadata_hash require_not_paused is_paused update_collection_stats moved_count
    compute_platform_fee compute_royalty_amounts royalties_of sum_amounts distribute_royalties
    lookup insert checked_add checked_mul checked_div checked_sub ◌+ℤ◌ ◌-ℤ◌ ◌*ℤ◌ ◌/ℤ◌ moved
    set_admin
sale = (refl, refl, refl, refl, refl)

sold_once : buy_nft bank (env_of 4) 4 1 bought ≡ err listing_already_sold
unfolding list_nft buy_nft cancel_listing settle validate_currency verify_collection validate_price
    validate_metadata_hash require_not_paused is_paused update_collection_stats moved_count
    compute_platform_fee compute_royalty_amounts royalties_of sum_amounts distribute_royalties
    lookup insert checked_add checked_mul checked_div checked_sub ◌+ℤ◌ ◌-ℤ◌ ◌*ℤ◌ ◌/ℤ◌ moved
    set_admin
sold_once = refl

not_the_seller : cancel_listing bank (env_of 4) 4 1 (listed.1) ≡ err not_owner
unfolding list_nft buy_nft cancel_listing settle validate_currency verify_collection validate_price
    validate_metadata_hash require_not_paused is_paused update_collection_stats moved_count
    compute_platform_fee compute_royalty_amounts royalties_of sum_amounts distribute_royalties
    lookup insert checked_add checked_mul checked_div checked_sub ◌+ℤ◌ ◌-ℤ◌ ◌*ℤ◌ ◌/ℤ◌ moved
    set_admin
not_the_seller = refl

taken_back : withdrawn.ledger 60 2 ≡ pos 1_000
unfolding list_nft buy_nft cancel_listing settle validate_currency verify_collection validate_price
    validate_metadata_hash require_not_paused is_paused update_collection_stats moved_count
    compute_platform_fee compute_royalty_amounts royalties_of sum_amounts distribute_royalties
    lookup insert checked_add checked_mul checked_div checked_sub ◌+ℤ◌ ◌-ℤ◌ ◌*ℤ◌ ◌/ℤ◌ moved
    set_admin
taken_back = refl

no_listing : get_listing bank 2 bought ≡ err listing_not_found
unfolding list_nft buy_nft cancel_listing settle validate_currency verify_collection validate_price
    validate_metadata_hash require_not_paused is_paused update_collection_stats moved_count
    compute_platform_fee compute_royalty_amounts royalties_of sum_amounts distribute_royalties
    lookup insert checked_add checked_mul checked_div checked_sub ◌+ℤ◌ ◌-ℤ◌ ◌*ℤ◌ ◌/ℤ◌ moved
    get_listing set_admin
no_listing = refl

abbrev ten : List RoyaltyRecipient
ten = tenth ∷ tenth ∷ tenth ∷ tenth ∷ tenth ∷ tenth ∷ tenth ∷ tenth ∷ tenth ∷ tenth ∷ []

-- Ten royalties of 10 % take the whole price, so that the fee comes on top of it.
above_the_price :
    (total_shares ten (pos 0) ≡ ok (pos 10_000))
    × (sum_amounts
          (pos 0)
          (compute_royalty_amounts (pos 400) (record { recipients = ten; total_bps = pos 10_000 }))
        ≡ ok (pos 400))
    × (compute_platform_fee (pos 400) (pos 250) ≡ ok (pos 10))
unfolding total_shares sum_amounts compute_royalty_amounts royalties_of compute_platform_fee
    checked_add checked_mul checked_div ◌+ℤ◌ ◌*ℤ◌ ◌/ℤ◌
above_the_price = (refl, refl, refl)

abbrev fresh : Marketplace Bank
fresh = commit opened (initialize (env_of 1) 1 (pos 250) 8 (pos 500) 300 opened)

abbrev registered : Marketplace Bank
registered = commit fresh (register_collection (env_of 1) 1 60 7 [] hash erc721 ten fresh)

collection_again :
    register_collection (env_of 1) 1 60 7 [] hash erc721 [] registered
    ≡ err collection_already_registered
unfolding initialize register_collection require_admin get_admin set_admin total_shares
    validate_metadata_hash emit_action lookup insert checked_add ◌+ℤ◌
collection_again = refl

royalty_too_high :
    set_collection_royalties
      (env_of 1)
      1
      60
      (record { address = 9; share_bps = pos 1_001 } ∷ [])
      registered
    ≡ err invalid_royalty_rate
unfolding set_collection_royalties initialize register_collection require_admin get_admin set_admin
    total_shares validate_metadata_hash emit_action lookup insert checked_add ◌+ℤ◌
royalty_too_high = refl

no_collection : get_collection 61 registered ≡ err collection_not_found
unfolding get_collection initialize register_collection require_admin get_admin set_admin
    total_shares validate_metadata_hash emit_action lookup insert checked_add ◌+ℤ◌
no_collection = refl

fee_too_high : set_platform_fee (env_of 1) 1 (pos 1_001) fresh ≡ err invalid_argument
unfolding set_platform_fee initialize register_collection require_admin get_admin set_admin
    total_shares validate_metadata_hash emit_action lookup insert checked_add ◌+ℤ◌
fee_too_high = refl

stranger : set_fee_recipient (env_of 2) 2 2 fresh ≡ err unauthorized
unfolding set_fee_recipient initialize register_collection require_admin get_admin set_admin
    total_shares validate_metadata_hash emit_action lookup insert checked_add ◌+ℤ◌
stranger = refl

increment_too_high : set_bid_increment (env_of 1) 1 (pos 5_001) fresh ≡ err invalid_argument
unfolding set_bid_increment initialize register_collection require_admin get_admin set_admin
    total_shares validate_metadata_hash emit_action lookup insert checked_add ◌+ℤ◌
increment_too_high = refl

window_too_long : set_auto_extension (env_of 1) 1 3_601 fresh ≡ err invalid_extension_window
unfolding set_auto_extension initialize register_collection require_admin get_admin set_admin
    total_shares validate_metadata_hash emit_action lookup insert checked_add ◌+ℤ◌
window_too_long = refl

currency_set :
    (commit fresh (set_currency (env_of 1) 1 51 true fresh)).currenc ≡ some ((51, true) ∷ [])
unfolding set_currency initialize register_collection require_admin get_admin set_admin total_shares
    validate_metadata_hash emit_action lookup insert checked_add ◌+ℤ◌
currency_set = refl

oracle_set : (commit fresh (set_oracle (env_of 1) 1 70 fresh)).oracle ≡ some 70
unfolding set_oracle initialize register_collection require_admin get_admin set_admin total_shares
    validate_metadata_hash emit_action lookup insert checked_add ◌+ℤ◌
oracle_set = refl

abbrev auction : Auction
auction = record {
  id = 1;
  auction_type = dutch;
  seller = 2;
  collection = 60;
  token_id = 5;
  amount = 1;
  currency = 50;
  start_price = pos 100;
  floor_price = pos 40;
  current_bid = pos 0;
  current_bidder = 100;
  status = trellis_contracts.Marketplace.Auctions.active;
  start_time = 4;
  end_time = 10;
  auto_extension_window = 0;
  metadata_hash = hash;
}

abbrev late : Env
late = record (env_of 1) { timestamp = 9 }

-- Put up by `bulk_create_auctions`, with a floor below zero.
abbrev sunk : Auction
sunk = record auction { floor_price = negsuc 199 }

dutch_auction_price_lem_example :
    ((10 ≤ 9) × (dutch_auction_price late sunk ≡ ok (negsuc 199)))
    ⊎ ((9 < 10) × (9 ≤ 4) × (dutch_auction_price late sunk ≡ ok (pos 100)))
    ⊎ ((4 < 9)
        × (9 < 10)
        × (dutch_auction_price late sunk
            ≡ ok (pos (decayed 100 (range_of 100 (negsuc 199)) (9 - 4) (10 - 4))))
        × (negsuc 199 ≤ℤ pos (decayed 100 (range_of 100 (negsuc 199)) (9 - 4) (10 - 4)))
        × (decayed 100 (range_of 100 (negsuc 199)) (9 - 4) (10 - 4) ≤ 100))
    ⊎ ((4 < 9)
        × (9 < 10)
        × (2 ^ 127 ≤ range_of 100 (negsuc 199) * (9 - 4))
        × (dutch_auction_price late sunk ≡ err overflow))
dutch_auction_price_lem_example =
    dutch_auction_price_lem late sunk 100 refl (omega arith) (omega arith)

clamped : dutch_auction_price late sunk ≡ ok (pos 0)
unfolding dutch_auction_price checked_sub checked_mul checked_div ◌-ℤ◌ ◌*ℤ◌ ◌/ℤ◌
clamped = refl

dutch_auction_price_falls_example : (pos 50 ≤ℤ pos 70) × (pos 40 ≤ℤ pos 50) × (pos 70 ≤ℤ pos 100)
unfolding dutch_auction_price checked_sub checked_mul checked_div ◌-ℤ◌ ◌*ℤ◌ ◌/ℤ◌
dutch_auction_price_falls_example =
    dutch_auction_price_falls (env_of 1) late auction 100 (pos 70) (pos 50) refl (omega arith)
      (omega arith) (omega arith) refl refl
