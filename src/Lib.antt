-- ===== src/Lib.antt =====
-- Formal models of the Trellis contracts, a workspace of Soroban contracts for aid escrow,
-- payments, a treasury, referrals and an NFT marketplace, with their governance, access control,
-- registry and upgrades.
--
-- Every contract is a record of its storage, and every entry point is a function from the
-- environment of the call, its arguments and the storage to a `Result`: the new storage with what
-- the entry point returns, an error of the contract's enum, `panic_with_error` with a code, or a
-- trap. Entry points, types and errors keep the names of the source in snake case. The host rolls
-- back whatever does not return `ok`, so `commit` and `run` keep the old storage then.
--
-- Prelude: Boolean tests, maps, and integers over the native naturals. An `i128` is an integer
--   within `i128_min` and `i128_max`; the checked operations return `none` outside of it, and the
--   64-bit and 32-bit counters are naturals with their overflow tests and wrap-around written out.
-- Host: addresses, symbols, environments, results and events of the Soroban SDK. Host.Token is the
--   token contract, a parameter: its `transfer` may fail, and `IsToken` lists what the contracts
--   rely on. Host.Sample is a concrete token with these laws.
-- Shared: the crate shared. Errors (shared/src/errors.rs), Events (shared/src/events.rs), Auth
--   (shared/src/auth.rs and the pause flag of shared/src/storage.rs), Math (shared/src/math.rs),
--   Payments (shared/src/payments.rs: fees and escrows) and Batch (shared/src/batch.rs).
-- Treasury: contracts/treasury-contract/src/lib.rs. Gateway: contracts/payments-contract/src/lib.rs,
--   which calls Shared.Payments and Shared.Batch on the part of its storage that they use.
-- Aid: contracts/aid-contract/src (lib.rs, storage.rs, types.rs; Aid.Paging is api.rs).
-- Governance: contracts/governance-contract/src/lib.rs (Governance.Params is the parameter catalog).
-- Registry: contracts/registry-contract/src/lib.rs.
-- AccessControl: contracts/access-control/src/lib.rs. The walks up the role hierarchy recurse without
--   a bound in the source; they take the number of steps that the host's budget allows, and return
--   `none` when it runs out.
-- Referral: contracts/referral-contract/src/lib.rs (Referral.Rewards is accrual and claims). The
--   registry and the treasury that it calls are the parameter `Peers`; Referral.Claims instantiates
--   it with the treasury model.
-- Upgradeability: contracts/upgradeability/src/lib.rs (Upgradeability.Proposals is the life cycle of
--   an upgrade). The migration hooks are the parameter `Hooks`.
-- Marketplace: a part of contracts/nft-marketplace/src/lib.rs, with the children Fees (fees and
--   royalties), Auctions (the price of Dutch auctions), Config (configuration and collections) and
--   Listings (fixed-price listings).
-- The modules Calls list the entry points that change state and run sequences of them (for the
--   registry these stand in Registry, and those of the payments contract leave out initialize); the
--   modules Tests have concrete runs.
--
-- Loops are recursion on a list or on the number of rounds that are left (the paginated queries
-- count up to the aid counter, so as many rounds as ids remain are enough); the only fuel
-- is the budget of AccessControl, and after every history some budget is enough.
--
-- Not modelled: the lifetimes (TTL) of storage entries, gas, and the XDR encoding of values; a
-- symbol is a number read off its letters. Of the contract nft-marketplace the entry points for
-- auctions, offers and bulk calls are not modelled. The contracts rebalancer-contract and
-- oracle-contract, the crate testing, and scripts are not modelled; in aid-contract the unused
-- helper `paginate` is not.
pub mod Prelude
pub mod Host
pub mod Shared
pub mod Treasury
pub mod Gateway
pub mod Aid
pub mod Governance
pub mod Registry
pub mod AccessControl
pub mod Referral
pub mod Upgradeability
pub mod Marketplace
