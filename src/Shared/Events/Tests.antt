-- ===== src/Shared/Events/Tests.antt =====
-- The number of values in each event, and the topics of one.
use trellis_contracts.Prelude.{◌≡◌, refl, pos, true, [], ◌∷◌, length}
use trellis_contracts.Shared.Events.{
  emit_collection_registered, emit_royalty_paid, emit_nft_sold, emit_nft_listed,
  emit_migration_hook_set, emit_upgrade_executed, emit_upgrade_proposed, emit_contract_registered,
  publish, emit, emit_aid_created, emit_commission_paid, emit_treasury_deposit,
  emit_treasury_withdrawal, emit_module_initialized, emit_action_executed, emit_permission_changed,
  emit_role_granted, emit_role_revoked, emit_proposal_created, emit_proposal_approved,
  emit_proposal_executed,
}

emit_topics : (emit 7 []).topics ≡ 7 ∷ []
unfolding emit
emit_topics = refl

event_sizes :
    (length (emit_aid_created 1 2 3 (pos 4) 5 6).payload ≡ 6)
    × (length (emit_commission_paid 1 (pos 2) 3).payload ≡ 3)
    × (length (emit_treasury_deposit 1 2 (pos 3) (pos 4)).payload ≡ 4)
    × (length (emit_treasury_withdrawal 1 2 (pos 3) (pos 4)).payload ≡ 4)
    × (length (emit_module_initialized 1 2 3 4).payload ≡ 4)
    × (length (emit_action_executed 1 2 3 true 4).payload ≡ 5)
    × (length (emit_permission_changed 1 2 3 true 4).payload ≡ 5)
    × (length (emit_role_granted 1 2 3 4).payload ≡ 4)
    × (length (emit_role_revoked 1 2 3 4).payload ≡ 4)
    × (length (emit_proposal_created 1 2 3 4).payload ≡ 4)
    × (length (emit_proposal_approved 1 2 3 4).payload ≡ 4)
    × (length (emit_proposal_executed 1 2 3 4).payload ≡ 4)
unfolding emit_aid_created emit_commission_paid emit_treasury_deposit emit_treasury_withdrawal
    emit_module_initialized emit_action_executed emit_permission_changed emit_role_granted
    emit_role_revoked emit_proposal_created emit_proposal_approved emit_proposal_executed publish
event_sizes = (refl, refl, refl, refl, refl, refl, refl, refl, refl, refl, refl, refl)

upgrade_event_sizes :
    (length (emit_contract_registered 1 2 3 4 5).payload ≡ 5)
    × (length (emit_upgrade_proposed 1 2 3 4 5).payload ≡ 5)
    × (length (emit_upgrade_executed 1 2 3 4 5 6).payload ≡ 6)
    × (length (emit_migration_hook_set 1 2 3).payload ≡ 3)
unfolding emit_contract_registered emit_upgrade_proposed emit_upgrade_executed
    emit_migration_hook_set publish
upgrade_event_sizes = (refl, refl, refl, refl)

nft_event_sizes :
    (length (emit_nft_listed 1 2 3 4 (pos 5) 6 7).payload ≡ 7)
    × (length (emit_nft_sold 1 2 3 (pos 4) 5).payload ≡ 5)
    × (length (emit_royalty_paid 1 2 (pos 3) 4).payload ≡ 4)
    × (length (emit_collection_registered 1 2 3).payload ≡ 3)
unfolding emit_nft_listed emit_nft_sold emit_royalty_paid emit_collection_registered publish
nft_event_sizes = (refl, refl, refl, refl)
