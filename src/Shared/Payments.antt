-- ===== src/Shared/Payments.antt =====
-- Payment primitives (shared/src/payments.rs): fees, and escrows over the part of a contract's
-- storage that they use. `T` is the state of the token contracts, the parameter `Token T`.
pub mod Fees
pub mod Escrows
pub mod Closing
pub mod Histories
pub mod Once
use trellis_contracts.Prelude.{
  ℕ, ◌+◌, ◌-◌, ◌^◌, Bool, not, ◌&&◌, Option, some, List, [], ◌∷◌, ◌++◌, ltb, leb, ◌==◌,
  if◌then◌else◌, unwrap_or, symbol_short, FinMap, lookup, insert, ℤ, ltb_ℤ, leb_ℤ, checked_sub,
  checked_mul, checked_div, pos,
}
use trellis_contracts.Host.{
  Env, Result, Event, Address, Symbol, ◌>>=◌, ◌>>◌, fail_if, ok_or, expect, ok, addr, int, num,
}
use trellis_contracts.Host.Token.{Token}
use trellis_contracts.Shared.Errors.{
  Error, invalid_argument, payment_invalid_amount, payment_escrow_not_found,
  payment_escrow_already_released, payment_escrow_already_refunded, payment_escrow_expired,
  payment_invalid_fee_rate, payment_fee_overflow, payment_escrow_id_overflow,
}
use trellis_contracts.Shared.Events.{emit}

abbrev pub bps_denom : ℤ
bps_denom = pos 10_000

abbrev pub max_fee_bps : ℤ
max_fee_bps = pos 10_000

abbrev pub u64_max : ℕ
u64_max = 2 ^ 64 - 1

pub data EscrowState : Type 0 where
  active released refunded : EscrowState

pub record EscrowRecord : Type 0 where
  pub id : ℕ
  pub depositor : Address
  pub beneficiary : Address
  pub token : Address
  pub amount : ℤ
  pub expiry_ledger : ℕ
  pub state : EscrowState

-- The entries `esc_seq`, `esc_act` and `(esc_rec, id)`, the tokens' state and the event log.
pub record EscrowStore (T : Type 0) : Type 0 where
  pub esc_seq : Option ℕ
  pub esc_act : Option (List ℕ)
  pub esc_rec : FinMap EscrowRecord
  pub ledger : T
  pub events : List Event

-- The derived equality of `EscrowState`, by the variants' positions.
abbrev state_index : EscrowState → ℕ
state_index active = 0
state_index released = 1
state_index refunded = 2

abbrev pub is_state : EscrowState → EscrowState → Bool
is_state a b = state_index a == state_index b

-- The loop of `remove_from_active`.
unfoldable pub others : ℕ → List ℕ → List ℕ
others k [] = []
others k (i ∷ is) = if i == k then others k is else i ∷ others k is

abbrev pub new_record : ℕ → Address → Address → Address → ℤ → ℕ → EscrowRecord
new_record i token depositor beneficiary amount expiry_ledger = record {
  id = i;
  depositor = depositor;
  beneficiary = beneficiary;
  token = token;
  amount = amount;
  expiry_ledger = expiry_ledger;
  state = active;
}

-- `record.state = st; persistent_set(&escrow_key(id), &record)`
abbrev pub close_escrow :
    {T : Type 0} → ℕ → EscrowState → EscrowRecord → EscrowStore T → EscrowStore T
close_escrow escrow_id st r s = record s {
  esc_rec = insert escrow_id (record r { state = st }) s.esc_rec;
}

unfoldable pub escrow_created : EscrowRecord → Event
escrow_created r =
    emit (symbol_short "pay_esc_c")
      (num r.id ∷ addr r.depositor ∷ addr r.beneficiary ∷ int r.amount ∷ num r.expiry_ledger ∷ [])

unfoldable pub escrow_closed : Symbol → ℕ → Address → ℤ → Event
escrow_closed topic escrow_id to amount = emit topic (num escrow_id ∷ addr to ∷ int amount ∷ [])

unfoldable pub validate_amount : ℤ → Result Error (Unit {0})
validate_amount amount = fail_if (leb_ℤ amount (pos 0)) payment_invalid_amount

unfoldable pub validate_fee_rate : ℤ → Result Error (Unit {0})
validate_fee_rate rate_bps =
    fail_if (not (leb_ℤ (pos 0) rate_bps && leb_ℤ rate_bps max_fee_bps)) payment_invalid_fee_rate

unfoldable pub calculate_fee : ℤ → ℤ → Result Error ℤ
unfolding validate_amount validate_fee_rate
calculate_fee amount rate_bps = do
  validate_amount amount
  validate_fee_rate rate_bps
  product ← ok_or (checked_mul amount rate_bps) payment_fee_overflow
  ok_or (checked_div product bps_denom) payment_fee_overflow

unfoldable pub calculate_fee_split : ℤ → ℤ → Result Error (ℤ × ℤ)
calculate_fee_split amount rate_bps = do
  fee ← calculate_fee amount rate_bps
  net ← ok_or (checked_sub amount fee) payment_fee_overflow
  ok (fee, net)

module _ {T : Type 0} (c : Token T) where
  -- `token::Client::transfer`: the call traps if the token contract does.
  abbrev pub move : {E : Type 0} → Address → Address → Address → ℤ → T → Result E T
  move token from to amount l = expect (c.transfer token from to amount l)

  abbrev pub log : Event → EscrowStore T → EscrowStore T
  log e s = record s { events = e ∷ s.events }

  -- Both transfers of the crate work on the tokens' state and append to an event log.
  unfoldable pub safe_transfer :
      Address → Address → Address → ℤ → T × List Event → Result Error (T × List Event)
  unfolding validate_amount
  safe_transfer token from to amount (l, es) = do
    validate_amount amount
    l' ← move token from to amount l
    ok (l', emit (symbol_short "pay_xfr") (addr from ∷ addr to ∷ int amount ∷ []) ∷ es)

  unfoldable pub safe_transfer_from_contract :
      Env → Address → Address → ℤ → T × List Event → Result Error (T × List Event)
  unfolding validate_amount
  safe_transfer_from_contract env token to amount (l, es) = do
    validate_amount amount
    let self = env.current_contract_address
    l' ← move token self to amount l
    ok (l', emit (symbol_short "pay_xfr") (addr self ∷ addr to ∷ int amount ∷ []) ∷ es)

  -- One leg of `deduct_fee`: `if amount > 0 { transfer; emit }`.
  abbrev pub pay_if :
      Symbol → Address → Address → Address → ℤ → T × List Event → Result Error (T × List Event)
  pay_if topic token from to amount (l, es) =
      if ltb_ℤ (pos 0) amount
      then (move token from to amount l >>= λ l'.
          ok (l', emit topic (addr from ∷ addr to ∷ int amount ∷ []) ∷ es))
      else ok (l, es)

  -- `FeeConfig` is the pair of the rate and the recipient.
  unfoldable pub deduct_fee :
      Address
      → Address
      → ℤ
      → Address
      → ℤ
      → Address
      → T × List Event
      → Result Error (ℤ × T × List Event)
  deduct_fee token from rate_bps recipient amount to s = do
    split ← calculate_fee_split amount rate_bps
    s₁ ← pay_if (symbol_short "pay_fee") token from recipient split.0 s
    s₂ ← pay_if (symbol_short "pay_xfr") token from to split.1 s₁
    ok (split.1, s₂.0, s₂.1)

  -- The new identifier and the store with the advanced counter.
  unfoldable pub next_escrow_id : EscrowStore T → Result Error (ℕ × EscrowStore T)
  next_escrow_id s = do
    let current = unwrap_or s.esc_seq 0
    fail_if (leb u64_max current) payment_escrow_id_overflow
    ok (current + 1, record s { esc_seq = some (current + 1) })

  unfoldable pub store_escrow : EscrowRecord → EscrowStore T → EscrowStore T
  store_escrow r s = record s {
    esc_rec = insert r.id r s.esc_rec;
    esc_act = some (unwrap_or s.esc_act [] ++ r.id ∷ []);
  }

  unfoldable pub remove_from_active : ℕ → EscrowStore T → EscrowStore T
  remove_from_active escrow_id s = record s {
    esc_act = some (others escrow_id (unwrap_or s.esc_act []));
  }

  unfoldable pub create_escrow :
      Env → Address → Address → Address → ℤ → ℕ → EscrowStore T → Result Error (ℕ × EscrowStore T)
  unfolding validate_amount next_escrow_id store_escrow
  create_escrow env token depositor beneficiary amount expiry_ledger s = do
    validate_amount amount
    fail_if (leb expiry_ledger env.sequence) invalid_argument
    next ← next_escrow_id s
    let r = new_record next.0 token depositor beneficiary amount expiry_ledger
    let stored = store_escrow r next.1
    l ← move token depositor env.current_contract_address amount stored.ledger
    ok (next.0, log (escrow_created r) (record stored { ledger = l }))

  -- The guards that `release_escrow` and `refund_escrow` share.
  unfoldable pub load_active : ℕ → EscrowStore T → Result Error EscrowRecord
  load_active escrow_id s = do
    r ← ok_or (lookup escrow_id s.esc_rec) payment_escrow_not_found
    fail_if (is_state released r.state) payment_escrow_already_released
    fail_if (is_state refunded r.state) payment_escrow_already_refunded
    ok r

  unfoldable pub release_escrow : Env → Address → ℕ → EscrowStore T → Result Error (EscrowStore T)
  unfolding load_active remove_from_active
  release_escrow env token escrow_id s = do
    r ← load_active escrow_id s
    fail_if (ltb r.expiry_ledger env.sequence) payment_escrow_expired
    let closed = remove_from_active escrow_id (close_escrow escrow_id released r s)
    l ← move token env.current_contract_address r.beneficiary r.amount closed.ledger
    ok (
        log (escrow_closed (symbol_short "pay_esc_r") escrow_id r.beneficiary r.amount)
          (record closed { ledger = l }))

  unfoldable pub refund_escrow : Env → Address → ℕ → EscrowStore T → Result Error (EscrowStore T)
  unfolding load_active remove_from_active
  refund_escrow env token escrow_id s = do
    r ← load_active escrow_id s
    let closed = remove_from_active escrow_id (close_escrow escrow_id refunded r s)
    l ← move token env.current_contract_address r.depositor r.amount closed.ledger
    ok (
        log (escrow_closed (symbol_short "pay_esc_f") escrow_id r.depositor r.amount)
          (record closed { ledger = l }))

  unfoldable pub get_escrow : ℕ → EscrowStore T → Option EscrowRecord
  get_escrow escrow_id s = lookup escrow_id s.esc_rec
