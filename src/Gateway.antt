-- ===== src/Gateway.antt =====
-- The payments contract (contracts/payments-contract/src/lib.rs): deposits, withdrawals with a fee,
-- escrows and batch payouts, over the primitives of shared/src/payments.rs.
pub mod Calls
pub mod Accounts
pub mod Balances
pub mod Escrows
pub mod Backing
pub mod Solvency
pub mod History
mod Tests
use trellis_contracts.Prelude.{
  ℕ, Bool, true, not, ◌&&◌, Option, some, List, [], ◌∷◌, if◌then◌else◌, unwrap_or, symbol_short,
  FinMap, lookup, insert, ℤ, ◌-ℤ◌, ltb_ℤ, leb_ℤ, checked_add, checked_sub, pos,
}
use trellis_contracts.Host.{
  symbol, Env, Result, Event, Address, ◌>>=◌, ◌>>◌, fail_if, require_auth, ok_or, expect, ok, err,
  panic_with_error, trap, addr, int,
}
use trellis_contracts.Host.Token.{Token}
use trellis_contracts.Shared.Errors.{
  Error, not_found, overflow, payment_invalid_amount, payment_insufficient_balance,
  payment_invalid_fee_rate,
}
use trellis_contracts.Shared.Events.{emit, emit_module_initialized, emit_action_executed}
use trellis_contracts.Shared.Auth.{AuthStore, set_admin, require_admin}
use trellis_contracts.Shared.Payments.{
  EscrowStore, calculate_fee_split, move, safe_transfer_from_contract, create_escrow,
  release_escrow, refund_escrow,
}
use trellis_contracts.Shared.Batch.{BatchResult, BatchStore, BatchError, multi_transfer_all}

-- The storage: `TOKEN`, `FEE_RATE`, `FEE_RECIPIENT`, `(DEPOSITED, who)`, `TOTAL_DEPOSITS`, the keys
-- of shared::auth, and the escrow store with the tokens' state and the event log. `bat_lck` is the
-- lock of shared::batch.
pub record Gateway (T : Type 0) : Type 0 where
  pub auth : AuthStore
  pub token_key : Option Address
  pub fee_rt : Option ℤ
  pub fee_rcp : Option Address
  pub depos : FinMap ℤ
  pub t_depo : Option ℤ
  pub escrows : EscrowStore T
  pub bat_lck : Bool

-- `i128::checked_sub(..).unwrap_or(0)`
abbrev pub sub_or_zero : ℤ → ℤ → ℤ
sub_or_zero a b = unwrap_or (checked_sub a b) (pos 0)

abbrev pub is_fee_rate : ℤ → Bool
is_fee_rate r = leb_ℤ (pos 0) r && leb_ℤ r (pos 10_000)

module _ {T : Type 0} (c : Token T) where
  abbrev pub with_log : Event → Gateway T → Gateway T
  with_log e s = record s { escrows = record (s.escrows) { events = e ∷ s.escrows.events } }

  -- The tokens' state and the log, which the transfers of shared::payments thread through.
  abbrev pub purse : Gateway T → T × List Event
  purse s = (s.escrows.ledger, s.escrows.events)

  abbrev pub with_purse : T × List Event → Gateway T → Gateway T
  with_purse p s = record s { escrows = record (s.escrows) { ledger = p.0; events = p.1 } }

  pub initialize : Env → Address → Address → ℤ → Address → Gateway T → Result Error (Gateway T)
  unfolding set_admin
  initialize env admin_addr token fee_rate_bps fee_recipient s = do
    fail_if (not (is_fee_rate fee_rate_bps)) payment_invalid_fee_rate
    let configured : Gateway T = record s {
      auth = set_admin admin_addr s.auth;
      token_key = some token;
      fee_rt = some fee_rate_bps;
      fee_rcp = some fee_recipient;
      t_depo = some (pos 0);
    }
    ok (
        with_log (emit_module_initialized (symbol_short "pay_gw") 1 admin_addr env.timestamp)
          configured)

  pub set_fee_rate : Env → Address → ℤ → Gateway T → Result Error (Gateway T)
  unfolding require_admin
  set_fee_rate env caller new_rate_bps s = do
    fail_if (not (is_fee_rate new_rate_bps)) payment_invalid_fee_rate
    require_admin env s.auth caller
    ok (
        with_log
          (emit_action_executed (symbol_short "pay_gw") (symbol_short "fee_set") caller true
            env.timestamp)
          (record s { fee_rt = some new_rate_bps }))

  pub balance_of : Address → Gateway T → ℤ
  balance_of who s = unwrap_or (lookup who s.depos) (pos 0)

  pub total_deposits : Gateway T → ℤ
  total_deposits s = unwrap_or s.t_depo (pos 0)

  pub deposit : Env → Address → ℤ → Gateway T → Result Error (Gateway T)
  unfolding balance_of total_deposits
  deposit env from amount s = do
    fail_if (leb_ℤ amount (pos 0)) payment_invalid_amount
    token ← ok_or s.token_key not_found
    require_auth env from
    l ← move c token from env.current_contract_address amount s.escrows.ledger
    new_balance ← ok_or (checked_add (balance_of from s) amount) overflow
    new_total ← ok_or (checked_add (total_deposits s) amount) overflow
    let credited : Gateway T = record s {
      depos = insert from new_balance s.depos;
      t_depo = some new_total;
    }
    ok (
        with_purse
          (
            l,
            emit (symbol_short "t_dep")
                  (symbol (symbol_short "default") ∷ addr from ∷ int amount ∷ int new_balance ∷ [])
                ∷ s.escrows.events,
          )
          credited)

  -- `if x > 0 { safe_transfer_from_contract(..)?; }`
  abbrev pub pay_positive :
      Env → Address → Address → ℤ → T × List Event → Result Error (T × List Event)
  pay_positive env token to x p =
      if ltb_ℤ (pos 0) x then safe_transfer_from_contract c env token to x p else ok p

  -- The part that `withdraw` and `withdraw_amount` share: the fee, the two payouts, and the
  -- bookkeeping for an account that gives up `amount` and keeps `remaining`.
  pub pay_out : Env → Address → ℤ → ℤ → Gateway T → Result Error (ℤ × Gateway T)
  unfolding total_deposits
  pay_out env who amount remaining s = do
    token ← ok_or s.token_key not_found
    let fee_rate = unwrap_or s.fee_rt (pos 0)
    recipient ← ok_or s.fee_rcp not_found
    split ← calculate_fee_split amount fee_rate
    p₁ ← pay_positive env token recipient split.0 (purse s)
    p₂ ← pay_positive env token who split.1 p₁
    let debited : Gateway T = record s {
      depos = insert who remaining s.depos;
      t_depo = some (sub_or_zero (total_deposits s) amount);
    }
    ok (split.1, with_purse p₂ debited)

  pub withdraw : Env → Address → Gateway T → Result Error (ℤ × Gateway T)
  unfolding balance_of
  withdraw env who s = do
    require_auth env who
    let deposited = balance_of who s
    fail_if (leb_ℤ deposited (pos 0)) payment_insufficient_balance
    out ← pay_out env who deposited (pos 0) s
    ok (
      out.0,
      with_log
          (emit (symbol_short "t_wdw")
            (symbol (symbol_short "default") ∷ addr who ∷ int deposited ∷ int out.0 ∷ []))
          out.1,
    )

  pub withdraw_amount : Env → Address → ℤ → Gateway T → Result Error (ℤ × Gateway T)
  unfolding balance_of
  withdraw_amount env who amount s = do
    fail_if (leb_ℤ amount (pos 0)) payment_invalid_amount
    require_auth env who
    let deposited = balance_of who s
    fail_if (ltb_ℤ deposited amount) payment_insufficient_balance
    pay_out env who amount (deposited -ℤ amount) s

  pub create_escrow_entry :
      Env → Address → Address → ℤ → ℕ → Gateway T → Result Error (ℕ × Gateway T)
  create_escrow_entry env depositor beneficiary amount expiry_ledger s = do
    require_auth env depositor
    token ← ok_or s.token_key not_found
    out ← create_escrow c env token depositor beneficiary amount expiry_ledger s.escrows
    ok (out.0, record s { escrows = out.1 })

  pub release_escrow_entry : Env → Address → ℕ → Gateway T → Result Error (Gateway T)
  unfolding require_admin
  release_escrow_entry env caller escrow_id s = do
    require_admin env s.auth caller
    token ← ok_or s.token_key not_found
    e ← release_escrow c env token escrow_id s.escrows
    ok (record s { escrows = e })

  pub refund_escrow_entry : Env → Address → ℕ → Gateway T → Result Error (Gateway T)
  unfolding require_admin
  refund_escrow_entry env caller escrow_id s = do
    require_admin env s.auth caller
    token ← ok_or s.token_key not_found
    e ← refund_escrow c env token escrow_id s.escrows
    ok (record s { escrows = e })

  -- `Result::unwrap`: any failure of the callee traps.
  abbrev unwrap : {E A : Type 0} → Result E A → Result Error A
  unwrap (ok a) = ok a
  unwrap (err _) = trap
  unwrap (panic_with_error n) = panic_with_error n
  unwrap trap = trap

  pub batch_payout :
      Env → Address → List (Address × ℤ) → Gateway T → Result Error (BatchResult × Gateway T)
  unfolding require_admin
  batch_payout env caller recipients s = do
    unwrap (require_admin env s.auth caller)
    token ← expect s.token_key
    let b : BatchStore T = record {
      bat_lck = s.bat_lck;
      ledger = s.escrows.ledger;
      events = s.escrows.events;
    }
    out ← unwrap (multi_transfer_all c env.current_contract_address token recipients b)
    let after : BatchStore T = out.1
    ok (out.0, record (with_purse (after.ledger, after.events) s) { bat_lck = after.bat_lck })
