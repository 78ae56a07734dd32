-- ===== src/Shared/Events.antt =====
-- The event helpers (shared/src/events.rs): each publishes a tuple of topics and a tuple of data.
mod Tests
use trellis_contracts.Prelude.{ℕ, ℤ, Bool, List, [], ◌∷◌, symbol_short}
use trellis_contracts.Host.{Address, Symbol, Val, addr, int, num, symbol, flag, Event}

pub publish : Symbol → Symbol → List Val → Event
publish a b vs = record { topics = a ∷ b ∷ []; payload = vs }

-- `emit`, with one topic.
pub emit : Symbol → List Val → Event
emit topic vs = record { topics = topic ∷ []; payload = vs }

pub emit_aid_created : ℕ → Address → Address → ℤ → ℕ → ℕ → Event
emit_aid_created aid_id donor recipient amount created_at expires_at =
    publish (symbol_short "aid") (symbol_short "created")
      (num aid_id ∷ addr donor ∷ addr recipient ∷ int amount ∷ num created_at ∷ num expires_at ∷ [])

pub emit_commission_paid : Address → ℤ → ℕ → Event
emit_commission_paid recipient amount paid_at =
    publish (symbol_short "comm") (symbol_short "paid")
      (addr recipient ∷ int amount ∷ num paid_at ∷ [])

pub emit_treasury_deposit : Symbol → Address → ℤ → ℤ → Event
emit_treasury_deposit category depositor amount new_balance =
    publish (symbol_short "treasury") (symbol_short "deposit")
      (symbol category ∷ addr depositor ∷ int amount ∷ int new_balance ∷ [])

pub emit_treasury_withdrawal : Symbol → Address → ℤ → ℤ → Event
emit_treasury_withdrawal category recipient amount remaining_balance =
    publish (symbol_short "treasury") (symbol_short "withdraw")
      (symbol category ∷ addr recipient ∷ int amount ∷ int remaining_balance ∷ [])

pub emit_module_initialized : Symbol → ℕ → Address → ℕ → Event
emit_module_initialized name version caller initialized_at =
    publish (symbol_short "logging") (symbol_short "init")
      (symbol name ∷ num version ∷ addr caller ∷ num initialized_at ∷ [])

pub emit_action_executed : Symbol → Symbol → Address → Bool → ℕ → Event
emit_action_executed name action caller success executed_at =
    publish (symbol_short "logging") (symbol_short "action")
      (symbol name ∷ symbol action ∷ addr caller ∷ flag success ∷ num executed_at ∷ [])

pub emit_permission_changed : Symbol → Symbol → Address → Bool → ℕ → Event
emit_permission_changed name role subject granted changed_at =
    publish (symbol_short "logging") (symbol_short "perm")
      (symbol name ∷ symbol role ∷ addr subject ∷ flag granted ∷ num changed_at ∷ [])

pub emit_role_granted : Address → Address → Symbol → ℕ → Event
emit_role_granted admin grantee role_name timestamp =
    publish (symbol_short "role") (symbol_short "granted")
      (addr admin ∷ addr grantee ∷ symbol role_name ∷ num timestamp ∷ [])

pub emit_role_revoked : Address → Address → Symbol → ℕ → Event
emit_role_revoked admin grantee role_name timestamp =
    publish (symbol_short "role") (symbol_short "revoked")
      (addr admin ∷ addr grantee ∷ symbol role_name ∷ num timestamp ∷ [])

pub emit_proposal_created : ℕ → Address → Symbol → ℕ → Event
emit_proposal_created proposal_id proposer action timestamp =
    publish (symbol_short "proposal") (symbol_short "created")
      (num proposal_id ∷ addr proposer ∷ symbol action ∷ num timestamp ∷ [])

pub emit_proposal_approved : ℕ → Address → ℕ → ℕ → Event
emit_proposal_approved proposal_id approver approval_count timestamp =
    publish (symbol_short "proposal") (symbol_short "approved")
      (num proposal_id ∷ addr approver ∷ num approval_count ∷ num timestamp ∷ [])

pub emit_proposal_executed : ℕ → Address → ℕ → ℕ → Event
emit_proposal_executed proposal_id executor approval_count timestamp =
    publish (symbol_short "proposal") (symbol_short "executed")
      (num proposal_id ∷ addr executor ∷ num approval_count ∷ num timestamp ∷ [])

-- A wasm hash is a number.
pub emit_contract_registered : Address → Symbol → ℕ → ℕ → ℕ → Event
emit_contract_registered contract_id name version wasm_hash registered_at =
    publish (symbol_short "upgrade") (symbol_short "upg_reg")
      (addr contract_id ∷ symbol name ∷ num version ∷ num wasm_hash ∷ num registered_at ∷ [])

pub emit_upgrade_proposed : ℕ → Address → ℕ → Address → ℕ → Event
emit_upgrade_proposed proposal_id contract_id new_version proposer proposed_at =
    publish (symbol_short "upgrade") (symbol_short "proposed")
      (num proposal_id ∷ addr contract_id ∷ num new_version ∷ addr proposer ∷ num proposed_at ∷ [])

pub emit_upgrade_executed : ℕ → Address → ℕ → ℕ → Address → ℕ → Event
emit_upgrade_executed proposal_id contract_id old_version new_version executor executed_at =
    publish (symbol_short "upgrade") (symbol_short "executed") (
      num proposal_id
      ∷ addr contract_id
      ∷ num old_version
      ∷ num new_version
      ∷ addr executor
      ∷ num executed_at
      ∷ [])

pub emit_migration_hook_set : Address → Address → ℕ → Event
emit_migration_hook_set contract_id hook_addr set_at =
    publish (symbol_short "upgrade") (symbol_short "hook_set")
      (addr contract_id ∷ addr hook_addr ∷ num set_at ∷ [])

pub emit_nft_listed : ℕ → Address → Address → ℕ → ℤ → Address → ℕ → Event
emit_nft_listed listing_id seller collection token_id price currency listed_at =
    publish (symbol_short "nft") (symbol_short "listed") (
      num listing_id
      ∷ addr seller
      ∷ addr collection
      ∷ num token_id
      ∷ int price
      ∷ addr currency
      ∷ num listed_at
      ∷ [])

pub emit_nft_sold : ℕ → Address → Address → ℤ → ℕ → Event
emit_nft_sold listing_id seller buyer price sold_at =
    publish (symbol_short "nft") (symbol_short "sold")
      (num listing_id ∷ addr seller ∷ addr buyer ∷ int price ∷ num sold_at ∷ [])

pub emit_royalty_paid : ℕ → Address → ℤ → ℕ → Event
emit_royalty_paid token_id recipient amount paid_at =
    publish (symbol_short "nft") (symbol_short "royal")
      (num token_id ∷ addr recipient ∷ int amount ∷ num paid_at ∷ [])

pub emit_collection_registered : Address → Address → ℕ → Event
emit_collection_registered collection admin registered_at =
    publish (symbol_short "nft") (symbol_short "col_reg")
      (addr collection ∷ addr admin ∷ num registered_at ∷ [])
