-- ===== src/Aid/Tests.antt =====
-- Runs of the aid contract, and its theorems at concrete states.
use trellis_contracts.Prelude.{
  ◌≤◌, ◌<◌, ◌≡◌, refl, ◌↔◌, true, false, none, some, List, [], ◌∷◌, arith, unwrap_or, lookup, total,
  ◌+ℤ◌, pos,
}
use trellis_contracts.Host.{Env, ok}
use trellis_contracts.Host.Sample.{env_of, Bank, moved, bank, bank-IsToken, vault}
use trellis_contracts.Shared.Auth.{no_auth, is_paused}
use trellis_contracts.Aid.{
  Aid, AidRecord, new_aid, claim_aid, refund_aid, pending, settled, append_donor_index,
  append_recipient_index, get_aid, get_aid_counter,
}
use trellis_contracts.Aid.Calls.{Call, invoke, run, create_call, claim_call}
use trellis_contracts.Aid.Escrow.{IsSolvent}
use trellis_contracts.Aid.Solvency.{invoke-IsSolvent, run-IsSolvent}
use trellis_contracts.Aid.Status.{run_closed}
use trellis_contracts.Aid.Claims.{claim_aid_iff, refund_aid_iff}
use trellis_contracts.Aid.Paging.{IsPage, list_aids, list_aids-IsPage, list_aids_by_donor}

-- Donor 1 gives 30 of the token 50 to 2, until ledger 10.
abbrev gift : AidRecord
gift = new_aid 0 1 2 50 (pos 30) 10

abbrev holding : AidRecord → Aid Bank
holding r = record {
  auth = no_auth;
  treasury = some 9;
  token_key = some 50;
  default_expiry = some 60;
  initialized = some true;
  aid_counter = some 1;
  aid = (0, r) ∷ [];
  key_aids = some ((0, r) ∷ []);
  donor_index = λ _. none;
  recipient_index = λ _. none;
  ledger = vault;
  events = [];
}

abbrev claimed : Aid Bank
claimed = unwrap_or (invoke bank (env_of 2) (claim_call 0 2) (holding gift)) (holding gift)

abbrev history : List (Env × Call)
history = (env_of 1, create_call 1 3 (pos 5) 20) ∷ (env_of 2, claim_call 0 2) ∷ []

holding-IsSolvent : IsSolvent bank 100 (holding gift)
unfolding total ◌+ℤ◌
holding-IsSolvent u = ground arith

claimed_pays : claimed.ledger 50 2 ≡ pos 30
unfolding invoke claim_aid moved lookup ◌+ℤ◌
claimed_pays = refl

donor_indexed : (append_donor_index 1 7 (holding gift)).donor_index 1 ≡ some (7 ∷ [])
unfolding append_donor_index
donor_indexed = refl

recipient_indexed : (append_recipient_index 2 7 (holding gift)).recipient_index 2 ≡ some (7 ∷ [])
unfolding append_recipient_index
recipient_indexed = refl

invoke-IsSolvent_example : IsSolvent bank 100 claimed
unfolding invoke claim_aid lookup
invoke-IsSolvent_example =
    invoke-IsSolvent bank bank-IsToken (env_of 2) (claim_call 0 2) (holding gift) claimed refl
      holding-IsSolvent refl

run-IsSolvent_example : IsSolvent bank 100 (run bank history (holding gift))
run-IsSolvent_example =
    run-IsSolvent bank bank-IsToken 100 history (holding gift) (refl, refl, (refl, refl, tt))
      holding-IsSolvent

run_closed_example :
    lookup 0 (run bank history (holding (record gift { status = settled }))).aid
    ≡ some (record gift { status = settled })
unfolding lookup
run_closed_example =
    run_closed bank 0 history (holding (record gift { status = settled }))
      (record gift { status = settled }) refl (cc)

claim_aid_iff_example :
    ((s' : Aid Bank) × (claim_aid bank (env_of 2) 0 2 (holding gift) ≡ ok s')) ↔ (
      (r : AidRecord) × (l : Bank) × (is_paused no_auth ≡ false)
      × ((env_of 2).authorized 2 ≡ true)
      × (lookup 0 (holding gift).aid ≡ some r)
      × (r.status ≡ pending)
      × (5 ≤ r.expiry_ledger)
      × (2 ≡ r.recipient)
      × (bank.transfer r.token 100 r.recipient r.amount vault ≡ some l))
claim_aid_iff_example = claim_aid_iff bank (env_of 2) 0 2 (holding gift)

refund_aid_iff_example :
    ((s' : Aid Bank) × (refund_aid bank (env_of 2) 0 (holding gift) ≡ ok s')) ↔ (
      (r : AidRecord) × (l : Bank) × (lookup 0 (holding gift).aid ≡ some r)
      × (r.status ≡ pending)
      × (r.expiry_ledger < 5)
      × (bank.transfer r.token 100 r.donor r.amount vault ≡ some l))
refund_aid_iff_example = refund_aid_iff bank (env_of 2) 0 (holding gift)

list_aids-IsPage_example :
    IsPage
      (λ _. true)
      (λ i. get_aid i (holding gift))
      (get_aid_counter (holding gift))
      3
      0
      (list_aids (holding gift) 3 none)
list_aids-IsPage_example = list_aids-IsPage (holding gift) 3 none (omega arith)

listed_by_donor : (list_aids_by_donor (holding gift) 1 3 (some 0)).aids ≡ gift ∷ []
unfolding list_aids_by_donor lookup
listed_by_donor = refl
