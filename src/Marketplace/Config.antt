-- ===== src/Marketplace/Config.antt =====
-- The configuration and the collections of the marketplace (contracts/nft-marketplace/src/lib.rs).
use trellis_contracts.Prelude.{
  ℕ, Bool, not, ◌&&◌, some, List, [], ltb, ◌==◌, is_some, length, symbol_short, lookup, insert, ℤ,
  leb_ℤ, pos,
}
use trellis_contracts.Host.{
  Env, Result, Address, Symbol, ◌>>=◌, ◌>>◌, fail_if, require_auth, ok_or, ok,
}
use trellis_contracts.Shared.Events.{emit_module_initialized, emit_collection_registered}
use trellis_contracts.Shared.Auth.{set_admin}
use trellis_contracts.Marketplace.{
  require_admin, MarketError, TokenStandard, RoyaltyRecipient, CollectionInfo, Marketplace,
  max_fee_bps, max_royalty_recipients, currencies, collections, validate_metadata_hash,
  total_shares, log, emit_action, collection_already_registered, collection_not_found,
  invalid_extension_window, unauthorized, invalid_argument,
}

abbrev pub is_within : ℤ → ℤ → Bool
is_within limit x = leb_ℤ (pos 0) x && leb_ℤ x limit

module _ {T : Type 0} where
  unfoldable pub initialize :
      Env → Address → ℤ → Address → ℤ → ℕ → Marketplace T → Result MarketError (Marketplace T)
  unfolding set_admin
  initialize env admin_addr platform_fee_bps fee_recipient bid_increment_bps auto_extension_seconds
        s =
      do
        fail_if (not (is_within max_fee_bps platform_fee_bps)) invalid_argument
        fail_if (not (is_within (pos 5_000) bid_increment_bps)) invalid_argument
        let configured : Marketplace T = record s {
          auth = set_admin admin_addr s.auth;
          plat_fee = some platform_fee_bps;
          fee_rcp = some fee_recipient;
          bid_inc = some bid_increment_bps;
          auto_ext = some auto_extension_seconds;
          currenc = some [];
          collects = some [];
          list_seq = some 0;
          auc_seq = some 0;
          off_seq = some 0;
        }
        ok (
            log (emit_module_initialized (symbol_short "nft_mkt") 1 admin_addr env.timestamp)
              configured)

  unfoldable pub set_platform_fee :
      Env → Address → ℤ → Marketplace T → Result MarketError (Marketplace T)
  unfolding require_admin emit_action
  set_platform_fee env caller new_fee_bps s = do
    require_admin env caller s
    fail_if (not (is_within max_fee_bps new_fee_bps)) invalid_argument
    ok (emit_action env caller (symbol_short "set_fee") (record s { plat_fee = some new_fee_bps }))

  unfoldable pub set_fee_recipient :
      Env → Address → Address → Marketplace T → Result MarketError (Marketplace T)
  unfolding require_admin emit_action
  set_fee_recipient env caller new_recipient s = do
    require_admin env caller s
    ok (
        emit_action env caller (symbol_short "set_frcp")
          (record s { fee_rcp = some new_recipient }))

  unfoldable pub set_bid_increment :
      Env → Address → ℤ → Marketplace T → Result MarketError (Marketplace T)
  unfolding require_admin emit_action
  set_bid_increment env caller bps s = do
    require_admin env caller s
    fail_if (not (is_within (pos 5_000) bps)) invalid_argument
    ok (emit_action env caller (symbol_short "set_binc") (record s { bid_inc = some bps }))

  unfoldable pub set_auto_extension :
      Env → Address → ℕ → Marketplace T → Result MarketError (Marketplace T)
  unfolding require_admin emit_action
  set_auto_extension env caller seconds s = do
    require_admin env caller s
    fail_if (ltb 3_600 seconds) invalid_extension_window
    ok (emit_action env caller (symbol_short "set_aext") (record s { auto_ext = some seconds }))

  unfoldable pub set_currency :
      Env → Address → Address → Bool → Marketplace T → Result MarketError (Marketplace T)
  unfolding require_admin emit_action
  set_currency env caller currency whitelisted s = do
    require_admin env caller s
    ok (
        emit_action env caller (symbol_short "set_curr")
          (record s { currenc = some (insert currency whitelisted (currencies s)) }))

  unfoldable pub set_oracle :
      Env → Address → Address → Marketplace T → Result MarketError (Marketplace T)
  unfolding require_admin emit_action
  set_oracle env caller oracle s = do
    require_admin env caller s
    ok (emit_action env caller (symbol_short "set_orcl") (record s { oracle = some oracle }))

  unfoldable pub register_collection :
      Env
      → Address
      → Address
      → Symbol
      → List ℕ
      → List ℕ
      → TokenStandard
      → List RoyaltyRecipient
      → Marketplace T
      → Result MarketError (Marketplace T)
  unfolding require_admin total_shares validate_metadata_hash
  register_collection env caller collection name ipfs_uri metadata_hash standard royalty_recipients
        s =
      do
        require_admin env caller s
        fail_if (is_some (lookup collection (collections s))) collection_already_registered
        validate_metadata_hash metadata_hash
        total_bps ← total_shares royalty_recipients (pos 0)
        fail_if (ltb max_royalty_recipients (length royalty_recipients)) invalid_argument
        let info : CollectionInfo = record {
          address = collection;
          admin = caller;
          name = name;
          ipfs_uri = ipfs_uri;
          metadata_hash = metadata_hash;
          standard = standard;
          royalty_config = record { recipients = royalty_recipients; total_bps = total_bps };
          registered_at = env.timestamp;
          active_listings = 0;
          active_auctions = 0;
        }
        ok (
            log (emit_collection_registered collection caller env.timestamp)
              (record s { collects = some (insert collection info (collections s)) }))

  unfoldable pub set_collection_royalties :
      Env
      → Address
      → Address
      → List RoyaltyRecipient
      → Marketplace T
      → Result MarketError (Marketplace T)
  unfolding total_shares
  set_collection_royalties env caller collection royalty_recipients s = do
    require_auth env caller
    stored ← ok_or s.collects collection_not_found
    info ← ok_or (lookup collection stored) collection_not_found
    fail_if (not (info.admin == caller)) unauthorized
    total_bps ← total_shares royalty_recipients (pos 0)
    let changed : CollectionInfo = record info {
      royalty_config = record { recipients = royalty_recipients; total_bps = total_bps };
    }
    ok (record s { collects = some (insert collection changed stored) })

  unfoldable pub get_collection : Address → Marketplace T → Result MarketError CollectionInfo
  get_collection collection s = ok_or s.collects collection_not_found >>= λ stored.
      ok_or (lookup collection stored) collection_not_found
