-- ===== src/Shared/Auth.antt =====
-- Admin, roles and the pause flag (shared/src/auth.rs, and the pause helpers of
-- shared/src/storage.rs), over the part of a contract's storage that they use.
use trellis_contracts.Prelude.{
  ℕ, Bool, true, false, not, ◌&&◌, Option, none, some, unwrap_or, is_some, ◌==◌, if◌then◌else◌,
}
use trellis_contracts.Host.{Address, Env, Result, ok, ◌>>=◌, ◌>>◌, fail_if, require_auth, expect}
use trellis_contracts.Shared.Errors.{Error, unauthorized, contract_paused}

pub data Role : Type 0 where
  admin upgrader treasury_manager pauser referral_manager oracle_signer : Role

-- The derived `PartialEq` of `Role`, by the variants' positions.
abbrev pub role_index : Role → ℕ
role_index admin = 0
role_index upgrader = 1
role_index treasury_manager = 2
role_index pauser = 3
role_index referral_manager = 4
role_index oracle_signer = 5

-- `KEY_ADMIN`, `KEY_PAUSED`, and the entries `DataKey::Role(address, role)`.
pub record AuthStore : Type 0 where
  pub admin_key : Option Address
  pub paused_key : Option Bool
  pub roles : Address → Role → Option Bool

-- A fresh contract's storage.
abbrev pub no_auth : AuthStore
no_auth = record { admin_key = none; paused_key = none; roles = λ _ _. none }

unfoldable pub set_admin : Address → AuthStore → AuthStore
set_admin a s = record s { admin_key = some a }

unfoldable pub get_admin : {E : Type 0} → AuthStore → Result E Address
get_admin s = expect s.admin_key

unfoldable pub require_admin : Env → AuthStore → Address → Result Error (Unit {0})
unfolding get_admin
require_admin env s caller = do
  a ← get_admin s
  fail_if (not (caller == a)) unauthorized
  require_auth env caller

unfoldable pub has_role : AuthStore → Address → Role → Bool
has_role s user role = is_some (s.roles user role)

-- `persistent_set(&DataKey::Role(user, role), &true)`
unfoldable pub set_role : Address → Role → AuthStore → AuthStore
set_role user role s = record s {
  roles = λ u r. if u == user && role_index r == role_index role then some true else s.roles u r;
}

-- `persistent_remove(&DataKey::Role(user, role))`
unfoldable pub remove_role : Address → Role → AuthStore → AuthStore
remove_role user role s = record s {
  roles = λ u r. if u == user && role_index r == role_index role then none else s.roles u r;
}

unfoldable pub grant_role : Env → Address → Address → Role → AuthStore → Result Error AuthStore
unfolding require_admin set_role
grant_role env admin_caller user role s = do
  require_admin env s admin_caller
  ok (set_role user role s)

unfoldable pub revoke_role : Env → Address → Address → Role → AuthStore → Result Error AuthStore
unfolding require_admin remove_role
revoke_role env admin_caller user role s = do
  require_admin env s admin_caller
  ok (remove_role user role s)

unfoldable pub require_role : Env → AuthStore → Address → Role → Result Error (Unit {0})
unfolding has_role
require_role env s caller role = do
  fail_if (not (has_role s caller role)) unauthorized
  require_auth env caller

unfoldable pub is_paused : AuthStore → Bool
is_paused s = unwrap_or s.paused_key false

unfoldable pub set_paused : Bool → AuthStore → AuthStore
set_paused paused s = record s { paused_key = some paused }

unfoldable pub require_not_paused : AuthStore → Result Error (Unit {0})
unfolding is_paused
require_not_paused s = fail_if (is_paused s) contract_paused
