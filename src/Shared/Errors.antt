-- ===== src/Shared/Errors.antt =====
-- The error codes that every contract shares (shared/src/errors.rs).
use trellis_contracts.Prelude.{ℕ, ◌≡◌, refl, Option, none, some, List, [], ◌∷◌, ◌==◌, if◌then◌else◌}

pub data Error : Type 0 where
  unauthorized : Error
  not_found : Error
  invalid_amount : Error
  overflow : Error
  contract_paused : Error
  expired : Error
  already_claimed : Error
  insufficient_balance : Error
  withdrawal_limit_exceeded : Error
  invalid_argument : Error
  not_paused : Error
  proposal_not_found : Error
  already_approved : Error
  below_threshold : Error
  already_executed : Error
  immutable_entry : Error
  invalid_hash : Error
  metadata_not_found : Error
  already_initialized : Error
  contract_not_registered : Error
  contract_already_registered : Error
  no_change_detected : Error
  upgrade_proposal_not_found : Error
  upgrade_already_executed : Error
  migration_hook_failed : Error
  upgrade_already_pending : Error
  not_upgrader : Error
  invalid_wasm_hash : Error
  storage_incompatible : Error
  invalid_migration_hook : Error
  payment_invalid_amount : Error
  payment_insufficient_balance : Error
  payment_escrow_not_found : Error
  payment_escrow_already_released : Error
  payment_escrow_already_refunded : Error
  payment_escrow_unauthorized : Error
  payment_escrow_expired : Error
  payment_escrow_not_expired : Error
  payment_invalid_fee_rate : Error
  payment_fee_overflow : Error
  payment_escrow_id_overflow : Error
  listing_not_found : Error
  listing_already_sold : Error
  not_owner : Error
  collection_already_registered : Error
  collection_not_found : Error
  currency_not_whitelisted : Error
  invalid_metadata_hash : Error
  invalid_royalty_rate : Error
  invalid_extension_window : Error

-- The `u32` that an error is reported as.
abbrev pub code : Error → ℕ
code unauthorized = 1
code not_found = 2
code invalid_amount = 3
code overflow = 4
code contract_paused = 5
code expired = 6
code already_claimed = 7
code insufficient_balance = 8
code withdrawal_limit_exceeded = 9
code invalid_argument = 10
code not_paused = 11
code proposal_not_found = 12
code already_approved = 13
code below_threshold = 14
code already_executed = 15
code immutable_entry = 16
code invalid_hash = 17
code metadata_not_found = 18
code already_initialized = 19
code contract_not_registered = 900
code contract_already_registered = 901
code no_change_detected = 902
code upgrade_proposal_not_found = 903
code upgrade_already_executed = 904
code migration_hook_failed = 905
code upgrade_already_pending = 906
code not_upgrader = 907
code invalid_wasm_hash = 908
code storage_incompatible = 909
code invalid_migration_hook = 910
code payment_invalid_amount = 700
code payment_insufficient_balance = 701
code payment_escrow_not_found = 702
code payment_escrow_already_released = 703
code payment_escrow_already_refunded = 704
code payment_escrow_unauthorized = 705
code payment_escrow_expired = 706
code payment_escrow_not_expired = 707
code payment_invalid_fee_rate = 708
code payment_fee_overflow = 709
code payment_escrow_id_overflow = 710
code listing_not_found = 1000
code listing_already_sold = 1001
code not_owner = 1002
code collection_already_registered = 1003
code collection_not_found = 1004
code currency_not_whitelisted = 1005
code invalid_metadata_hash = 1006
code invalid_royalty_rate = 1007
code invalid_extension_window = 1008

-- Every error, in the order of the source.
abbrev pub all_errors : List Error
all_errors =
    unauthorized ∷ not_found ∷ invalid_amount ∷ overflow ∷ contract_paused ∷ expired
    ∷ already_claimed ∷ insufficient_balance ∷ withdrawal_limit_exceeded ∷ invalid_argument
    ∷ not_paused ∷ proposal_not_found ∷ already_approved ∷ below_threshold ∷ already_executed
    ∷ immutable_entry ∷ invalid_hash ∷ metadata_not_found ∷ already_initialized
    ∷ contract_not_registered ∷ contract_already_registered ∷ no_change_detected
    ∷ upgrade_proposal_not_found ∷ upgrade_already_executed ∷ migration_hook_failed
    ∷ upgrade_already_pending ∷ not_upgrader ∷ invalid_wasm_hash ∷ storage_incompatible
    ∷ invalid_migration_hook ∷ payment_invalid_amount ∷ payment_insufficient_balance
    ∷ payment_escrow_not_found ∷ payment_escrow_already_released ∷ payment_escrow_already_refunded
    ∷ payment_escrow_unauthorized ∷ payment_escrow_expired ∷ payment_escrow_not_expired
    ∷ payment_invalid_fee_rate ∷ payment_fee_overflow ∷ payment_escrow_id_overflow
    ∷ listing_not_found ∷ listing_already_sold ∷ not_owner ∷ collection_already_registered
    ∷ collection_not_found ∷ currency_not_whitelisted ∷ invalid_metadata_hash ∷ invalid_royalty_rate
    ∷ invalid_extension_window ∷ []

-- The conversion of a reported code by `#[contracterror]`: the variant that has it, if any.
abbrev find_code : ℕ → List Error → Option Error
find_code n [] = none
find_code n (e ∷ es) = if code e == n then some e else find_code n es

unfoldable pub from_code : ℕ → Option Error
from_code n = find_code n all_errors

pub from_code-code : (e : Error) → from_code (code e) ≡ some e
unfolding from_code
from_code-code unauthorized = refl
from_code-code not_found = refl
from_code-code invalid_amount = refl
from_code-code overflow = refl
from_code-code contract_paused = refl
from_code-code expired = refl
from_code-code already_claimed = refl
from_code-code insufficient_balance = refl
from_code-code withdrawal_limit_exceeded = refl
from_code-code invalid_argument = refl
from_code-code not_paused = refl
from_code-code proposal_not_found = refl
from_code-code already_approved = refl
from_code-code below_threshold = refl
from_code-code already_executed = refl
from_code-code immutable_entry = refl
from_code-code invalid_hash = refl
from_code-code metadata_not_found = refl
from_code-code already_initialized = refl
from_code-code contract_not_registered = refl
from_code-code contract_already_registered = refl
from_code-code no_change_detected = refl
from_code-code upgrade_proposal_not_found = refl
from_code-code upgrade_already_executed = refl
from_code-code migration_hook_failed = refl
from_code-code upgrade_already_pending = refl
from_code-code not_upgrader = refl
from_code-code invalid_wasm_hash = refl
from_code-code storage_incompatible = refl
from_code-code invalid_migration_hook = refl
from_code-code payment_invalid_amount = refl
from_code-code payment_insufficient_balance = refl
from_code-code payment_escrow_not_found = refl
from_code-code payment_escrow_already_released = refl
from_code-code payment_escrow_already_refunded = refl
from_code-code payment_escrow_unauthorized = refl
from_code-code payment_escrow_expired = refl
from_code-code payment_escrow_not_expired = refl
from_code-code payment_invalid_fee_rate = refl
from_code-code payment_fee_overflow = refl
from_code-code payment_escrow_id_overflow = refl
from_code-code listing_not_found = refl
from_code-code listing_already_sold = refl
from_code-code not_owner = refl
from_code-code collection_already_registered = refl
from_code-code collection_not_found = refl
from_code-code currency_not_whitelisted = refl
from_code-code invalid_metadata_hash = refl
from_code-code invalid_royalty_rate = refl
from_code-code invalid_extension_window = refl
