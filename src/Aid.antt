-- ===== src/Aid.antt =====
-- The aid contract (contracts/aid-contract/src: lib.rs, storage.rs, types.rs): donors escrow aid
-- for a recipient, who claims it, or it is refunded after it expired.
pub mod Calls
pub mod Escrow
pub mod Solvency
pub mod Status
pub mod Claims
pub mod Paging
mod Tests
use trellis_contracts.Prelude.{
  ℕ, ◌+◌, ◌%◌, ◌^◌, String, Bool, true, false, not, ◌||◌, Option, none, some, List, [], ◌∷◌, ◌++◌,
  ltb, leb, ◌==◌, unwrap_or, is_some, update, symbol_short, FinMap, lookup, insert, ℤ, leb_ℤ, pos,
}
use trellis_contracts.Host.{
  Env, Result, Event, Address, ◌>>=◌, ◌>>◌, fail_if, panic_if, require_auth, ok_or, expect, ok,
  addr, int, num,
}
use trellis_contracts.Host.Token.{Token}
use trellis_contracts.Shared.Errors.{
  Error, code, invalid_amount, invalid_argument, already_initialized,
}
use trellis_contracts.Shared.Events.{
  emit, emit_aid_created, emit_module_initialized, emit_action_executed, emit_permission_changed,
}
use trellis_contracts.Shared.Auth.{AuthStore, set_admin, is_paused}
use trellis_contracts.Shared.Auth.{get_admin, set_paused as shared_set_paused}

pub data AidError : Type 0 where
  unauthorized not_found already_claimed expired paused not_expired_yet already_refunded : AidError

abbrev pub aid_code : AidError → ℕ
aid_code unauthorized = 100
aid_code not_found = 101
aid_code already_claimed = 102
aid_code expired = 103
aid_code paused = 104
aid_code not_expired_yet = 105
aid_code already_refunded = 106

pub data AidStatus : Type 0 where
  pending settled refunded : AidStatus

abbrev status_index : AidStatus → ℕ
status_index pending = 0
status_index settled = 1
status_index refunded = 2

abbrev pub is_status : AidStatus → AidStatus → Bool
is_status a b = status_index a == status_index b

pub record AidRecord : Type 0 where
  pub id : ℕ
  pub donor : Address
  pub recipient : Address
  pub token : Address
  pub amount : ℤ
  pub expiry_ledger : ℕ
  pub status : AidStatus

-- The storage, one field for each key of `DataKey` and `KEY_AIDS`, with the tokens' state and the
-- event log. The participant indexes have helpers in storage.rs that no entry point calls.
pub record Aid (T : Type 0) : Type 0 where
  pub auth : AuthStore
  pub treasury : Option Address
  pub token_key : Option Address
  pub default_expiry : Option ℕ
  pub initialized : Option Bool
  pub aid_counter : Option ℕ
  pub aid : FinMap AidRecord
  pub key_aids : Option (FinMap AidRecord)
  pub donor_index : ℕ → Option (List ℕ)
  pub recipient_index : ℕ → Option (List ℕ)
  pub ledger : T
  pub events : List Event

-- `if let Some(x) = new { set(x) }`
abbrev or_keep : {A : Type 0} → Option A → Option A → Option A
or_keep none old = old
or_keep (some a) old = some a

module _ {T : Type 0} where
  abbrev pub log : List Event → Aid T → Aid T
  log es s = record s { events = es ++ s.events }

  unfoldable pub get_aid : ℕ → Aid T → Option AidRecord
  get_aid aid_id s = lookup aid_id s.aid

  unfoldable pub get_aid_counter : Aid T → ℕ
  get_aid_counter s = unwrap_or s.aid_counter 0

  pub is_initialized : Aid T → Bool
  is_initialized s = unwrap_or s.initialized false

  pub append_donor_index : Address → ℕ → Aid T → Aid T
  append_donor_index donor aid_id s = record s {
    donor_index = update s.donor_index donor (unwrap_or (s.donor_index donor) [] ++ aid_id ∷ []);
  }

  pub append_recipient_index : Address → ℕ → Aid T → Aid T
  append_recipient_index recipient aid_id s = record s {
    recipient_index =
        update s.recipient_index recipient
          (unwrap_or (s.recipient_index recipient) [] ++ aid_id ∷ []);
  }

  pub initialize : Env → Address → Address → Address → ℕ → Aid T → Result Error (Aid T)
  unfolding is_initialized set_admin
  initialize env admin_addr treasury token default_expiry_secs s = do
    fail_if (is_initialized s) already_initialized
    require_auth env admin_addr
    ok (record s {
      auth = set_admin admin_addr s.auth;
      treasury = some treasury;
      token_key = some token;
      default_expiry = some default_expiry_secs;
      initialized = some true;
      events = emit_module_initialized (symbol_short "aid") 1 admin_addr env.timestamp ∷ s.events;
    })

  pub update_config : Env → Address → Option Address → Option ℕ → Aid T → Result Error (Aid T)
  update_config env admin_addr treasury default_expiry_secs s = do
    current_admin ← get_admin s.auth
    fail_if (not (admin_addr == current_admin)) Error.unauthorized
    require_auth env admin_addr
    ok (record s {
      treasury = or_keep treasury s.treasury;
      default_expiry = or_keep default_expiry_secs s.default_expiry;
    })

  pub set_paused : Env → Address → Bool → Aid T → Result AidError (Aid T)
  unfolding shared_set_paused
  set_paused env admin_addr flag_value s = do
    contract_admin ← get_admin s.auth
    panic_if (not (admin_addr == contract_admin)) (code Error.unauthorized)
    require_auth env admin_addr
    ok (record s {
      auth = shared_set_paused flag_value s.auth;
      events =
          emit_permission_changed (symbol_short "aid") (symbol_short "paused") admin_addr flag_value
            env.timestamp
          ∷ s.events;
    })

-- The record that `create_aid` stores.
abbrev pub new_aid : ℕ → Address → Address → Address → ℤ → ℕ → AidRecord
new_aid i donor recipient token amount expiry_ledger = record {
  id = i;
  donor = donor;
  recipient = recipient;
  token = token;
  amount = amount;
  expiry_ledger = expiry_ledger;
  status = pending;
}

abbrev pub acted : Env → String → Event
acted env action =
    emit_action_executed (symbol_short "aid") (symbol_short action) env.current_contract_address
      true env.timestamp

created_events : Env → AidRecord → List Event
created_events env r =
    acted env "create"
    ∷ emit (symbol_short "aid_crt")
        (num r.id ∷ addr r.donor ∷ addr r.recipient ∷ int r.amount ∷ num r.expiry_ledger ∷ [])
    ∷ emit_aid_created r.id r.donor r.recipient r.amount env.sequence r.expiry_ledger
    ∷ []

module _ {T : Type 0} (c : Token T) where
  abbrev move : {E : Type 0} → Address → Address → Address → ℤ → T → Result E T
  move token from to amount l = expect (c.transfer token from to amount l)

  pub create_aid : Env → Address → Address → ℤ → ℕ → Aid T → Result AidError (ℕ × Aid T)
  unfolding get_aid_counter created_events
  create_aid env donor recipient amount expiry_ledger s = do
    require_auth env donor
    panic_if (leb_ℤ amount (pos 0)) (code Error.invalid_amount)
    panic_if (leb expiry_ledger env.sequence) (aid_code not_expired_yet)
    let aid_id = get_aid_counter s
    panic_if (is_some (lookup aid_id s.aid)) (code Error.invalid_argument)
    token ← expect s.token_key
    let r = new_aid aid_id donor recipient token amount expiry_ledger
    l ← move token donor env.current_contract_address amount s.ledger
    ok (
      aid_id,
      log (created_events env r) (record s {
        aid_counter = some ((aid_id + 1) % 2 ^ 64);
        aid = insert aid_id r s.aid;
        key_aids = some (insert aid_id r (unwrap_or s.key_aids []));
        ledger = l;
      }),
    )

  -- `set_aid` with the new status, the transfer out, and the events.
  abbrev pub pay_aid :
      Env → ℕ → AidStatus → AidRecord → Address → List Event → Aid T → Result AidError (Aid T)
  pay_aid env aid_id st r to es s =
      move r.token env.current_contract_address to r.amount s.ledger >>= λ l.
      ok (log es (record s { aid = insert aid_id (record r { status = st }) s.aid; ledger = l }))

  pub claim_aid : Env → ℕ → Address → Aid T → Result AidError (Aid T)
  unfolding is_paused get_aid
  claim_aid env aid_id recipient s = do
    fail_if (is_paused s.auth) paused
    require_auth env recipient
    r ← ok_or (get_aid aid_id s) not_found
    fail_if (is_status r.status settled || is_status r.status refunded) already_claimed
    fail_if (ltb r.expiry_ledger env.sequence) expired
    fail_if (not (recipient == r.recipient)) unauthorized
    pay_aid env aid_id settled r r.recipient
        (acted env "claim_aid"
          ∷ emit (symbol_short "aid_stl") (num aid_id ∷ [])
          ∷ emit (symbol_short "aid_clm") (num aid_id ∷ [])
          ∷ [])
        s

  pub refund_aid : Env → ℕ → Aid T → Result AidError (Aid T)
  unfolding get_aid
  refund_aid env aid_id s = do
    r ← ok_or (get_aid aid_id s) not_found
    fail_if (is_status r.status settled) already_claimed
    fail_if (is_status r.status refunded) already_refunded
    fail_if (leb env.sequence r.expiry_ledger) not_expired_yet
    pay_aid env aid_id refunded r r.donor
        (acted env "refund" ∷ emit (symbol_short "aid_ref") (num aid_id ∷ []) ∷ []) s
