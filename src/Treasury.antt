-- ===== src/Treasury.antt =====
-- The treasury contract (contracts/treasury-contract/src/lib.rs): balances per category, a limit on
-- one withdrawal, and the entry points that move them.
pub mod Calls
pub mod Balances
pub mod Withdrawals
pub mod Authority
pub mod History
mod Tests
use trellis_contracts.Prelude.{
  Bool, true, false, not, Option, none, some, List, [], ◌∷◌, unwrap_or, symbol_short, FinMap,
  lookup, insert, ℤ, ◌-ℤ◌, ltb_ℤ, leb_ℤ, checked_add, checked_sub, pos,
}
use trellis_contracts.Host.{
  Env, Result, Event, Address, Symbol, ◌>>=◌, ◌>>◌, fail_if, require_auth, ok_or, ok, addr, int,
}
use trellis_contracts.Shared.Errors.{
  Error, unauthorized, overflow, insufficient_balance, withdrawal_limit_exceeded, invalid_argument,
  not_paused,
}
use trellis_contracts.Shared.Events.{
  emit, emit_commission_paid, emit_treasury_deposit, emit_treasury_withdrawal,
  emit_module_initialized, emit_action_executed, emit_permission_changed,
}
use trellis_contracts.Shared.Auth.{
  AuthStore, no_auth, set_admin, require_admin, set_role, grant_role, revoke_role, require_role,
  is_paused, treasury_manager,
}

-- The storage: `(BALANCE, category)`, `MAX_WD` and `REFERRAL_CONTRACT`, the keys of shared::auth,
-- and the log of events.
pub record Treasury : Type 0 where
  pub auth : AuthStore
  pub cat_bal : FinMap ℤ
  pub max_wd : Option ℤ
  pub ref_ctr : Option Address
  pub events : List Event

-- The storage of a contract that was just deployed.
abbrev pub deployed : Treasury
deployed = record { auth = no_auth; cat_bal = []; max_wd = none; ref_ctr = none; events = [] }

pub reserve_category : Symbol
unfolding symbol_short
reserve_category = symbol_short "reserve"

unfoldable pub rewards_category : Symbol
unfolding symbol_short
rewards_category = symbol_short "rewards"

-- `emit_action_executed(&env, "treasury", action, &who, true, env.ledger().timestamp())`
pub done : Env → Symbol → Address → Event
done env action who = emit_action_executed (symbol_short "treasury") action who true env.timestamp

pub manager_changed : Env → Address → Bool → Event
manager_changed env who granted =
    emit_permission_changed (symbol_short "treasury") (symbol_short "manager") who granted
      env.timestamp

pub initialize : Env → Address → ℤ → Treasury → Result Error Treasury
unfolding set_admin set_role
initialize env admin_addr max_withdrawal_limit s = do
  fail_if (leb_ℤ max_withdrawal_limit (pos 0)) invalid_argument
  ok (record s {
    auth = set_role admin_addr treasury_manager (set_admin admin_addr s.auth);
    max_wd = some max_withdrawal_limit;
    events =
        emit_module_initialized (symbol_short "treasury") 1 admin_addr env.timestamp ∷ s.events;
  })

pub add_treasury_manager : Env → Address → Address → Treasury → Result Error Treasury
unfolding grant_role
add_treasury_manager env caller who s = do
  a ← grant_role env caller who treasury_manager s.auth
  ok (record s { auth = a; events = manager_changed env who true ∷ s.events })

pub remove_treasury_manager : Env → Address → Address → Treasury → Result Error Treasury
unfolding revoke_role
remove_treasury_manager env caller who s = do
  a ← revoke_role env caller who treasury_manager s.auth
  ok (record s { auth = a; events = manager_changed env who false ∷ s.events })

pub set_withdrawal_limit : Env → Address → ℤ → Treasury → Result Error Treasury
unfolding require_admin
set_withdrawal_limit env caller new_limit s = do
  require_admin env s.auth caller
  fail_if (leb_ℤ new_limit (pos 0)) invalid_argument
  ok (record s {
    max_wd = some new_limit;
    events = done env (symbol_short "wd_limit") caller ∷ s.events;
  })

unfoldable pub category_balance : Symbol → Treasury → ℤ
category_balance category s = unwrap_or (lookup category s.cat_bal) (pos 0)

pub withdrawal_limit : Treasury → ℤ
withdrawal_limit s = unwrap_or s.max_wd (pos 0)

pub deposit : Env → Address → Symbol → ℤ → Treasury → Result Error Treasury
unfolding require_role category_balance
deposit env caller category amount s = do
  fail_if (leb_ℤ amount (pos 0)) invalid_argument
  require_role env s.auth caller treasury_manager
  new_balance ← ok_or (checked_add (category_balance category s) amount) overflow
  ok (record s {
    cat_bal = insert category new_balance s.cat_bal;
    events =
        done env (symbol_short "deposit") caller
        ∷ emit_treasury_deposit category caller amount new_balance
        ∷ s.events;
  })

-- `balance - amount` is a plain subtraction; the guard before it keeps it in range.
pub withdraw : Env → Address → Address → ℤ → Symbol → Treasury → Result Error Treasury
unfolding require_role category_balance withdrawal_limit
withdraw env caller to amount category s = do
  fail_if (leb_ℤ amount (pos 0)) invalid_argument
  fail_if (ltb_ℤ (withdrawal_limit s) amount) withdrawal_limit_exceeded
  let balance = category_balance category s
  fail_if (ltb_ℤ balance amount) insufficient_balance
  require_role env s.auth caller treasury_manager
  ok (record s {
    cat_bal = insert category (balance -ℤ amount) s.cat_bal;
    events =
        done env (symbol_short "withdraw") caller
        ∷ emit_treasury_withdrawal category to amount (balance -ℤ amount)
        ∷ s.events;
  })

pub emergency_withdraw : Env → Address → Address → ℤ → Treasury → Result Error Treasury
unfolding require_admin is_paused category_balance
emergency_withdraw env caller to amount s = do
  fail_if (leb_ℤ amount (pos 0)) invalid_argument
  fail_if (not (is_paused s.auth)) not_paused
  let balance = category_balance reserve_category s
  new_balance ← ok_or (checked_sub balance amount) insufficient_balance
  fail_if (ltb_ℤ new_balance (pos 0)) insufficient_balance
  require_admin env s.auth caller
  ok (record s {
    cat_bal = insert reserve_category new_balance s.cat_bal;
    events =
        done env (symbol_short "emrg_wd") caller
        ∷ emit (symbol_short "t_emrg") (addr caller ∷ addr to ∷ int amount ∷ [])
        ∷ s.events;
  })

pub set_referral_contract : Env → Address → Address → Treasury → Result Error Treasury
unfolding require_admin
set_referral_contract env caller referral s = do
  require_admin env s.auth caller
  ok (record s {
    ref_ctr = some referral;
    events = done env (symbol_short "ref_ctr") caller ∷ s.events;
  })

pub referral_contract : Treasury → Option Address
referral_contract s = s.ref_ctr

unfoldable pub distribute_reward : Env → Address → ℤ → Treasury → Result Error Treasury
unfolding category_balance
distribute_reward env recipient amount s = do
  fail_if (leb_ℤ amount (pos 0)) invalid_argument
  let balance = category_balance rewards_category s
  fail_if (ltb_ℤ balance amount) insufficient_balance
  referral ← ok_or s.ref_ctr unauthorized
  require_auth env referral
  ok (record s {
    cat_bal = insert rewards_category (balance -ℤ amount) s.cat_bal;
    events =
        done env (symbol_short "reward") recipient
        ∷ emit_commission_paid recipient amount env.timestamp
        ∷ s.events;
  })
