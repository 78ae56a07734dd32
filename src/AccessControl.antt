-- ===== src/AccessControl.antt =====
-- The access-control contract (contracts/access-control/src/lib.rs): admins, roles with members, and
-- a hierarchy of roles. Its walks up the hierarchy have no bound of their own, so they take the
-- budget of steps that the host grants, and are `none` when it is used up.
pub mod Hierarchy
pub mod Calls
pub mod Histories
mod Tests
use trellis_contracts.Prelude.{
  ℕ, zero, suc, Bool, true, false, not, Option, none, some, List, [], ◌∷◌, ◌++◌, map, ◌==◌,
  if◌then◌else◌, unwrap_or, update, symbol_short, FinMap, lookup, insert,
}
use trellis_contracts.Host.{
  Env, Result, Val, Event, Address, Symbol, ◌>>=◌, ◌>>◌, fail_if, require_auth, expect, ok, addr,
  symbol,
}

pub data AccessControlError : Type 0 where
  role_not_found role_already_exists already_member not_member self_reference : AccessControlError
  cycle_detected not_admin cannot_remove_super_admin invalid_role : AccessControlError

abbrev pub access_code : AccessControlError → ℕ
access_code role_not_found = 200
access_code role_already_exists = 201
access_code already_member = 202
access_code not_member = 203
access_code self_reference = 204
access_code cycle_detected = 205
access_code not_admin = 206
access_code cannot_remove_super_admin = 207
access_code invalid_role = 208

-- The storage, one field for each key of `DataKey`, the list `all_roles`, and the event log.
pub record AccessControl : Type 0 where
  pub admins : Option (FinMap Bool)
  pub super_key : Option Address
  pub role_parent : ℕ → Option Symbol
  pub exists_key : ℕ → Option Bool
  pub role_members : ℕ → Option (FinMap Bool)
  pub all_roles : Option (List Symbol)
  pub events : List Event

abbrev pub deployed : AccessControl
deployed = record {
  admins = none;
  super_key = none;
  role_parent = λ _. none;
  exists_key = λ _. none;
  role_members = λ _. none;
  all_roles = none;
  events = [];
}

abbrev publish : Symbol → List Val → AccessControl → AccessControl
publish topic vs s = record s { events = record { topics = topic ∷ []; payload = vs } ∷ s.events }

-- `map.get(key).unwrap_or(false)` in a map that is empty while it is missing.
abbrev pub flagged : Option (FinMap Bool) → ℕ → Bool
flagged m k = unwrap_or (lookup k (unwrap_or m [])) false

abbrev set_flag : ℕ → Bool → Option (FinMap Bool) → Option (FinMap Bool)
set_flag k b m = some (insert k b (unwrap_or m []))

pub role_exists : Symbol → AccessControl → Bool
role_exists role s = unwrap_or (s.exists_key role) false

register_role_internal : Symbol → AccessControl → AccessControl
register_role_internal role s = record s {
  exists_key = update s.exists_key role true;
  all_roles = some (unwrap_or s.all_roles [] ++ role ∷ []);
}

ensure_role_exists : Symbol → AccessControl → Result AccessControlError (Unit {0})
unfolding role_exists
ensure_role_exists role s = fail_if (not (role_exists role s)) role_not_found

abbrev set_member : Symbol → Address → Bool → AccessControl → AccessControl
set_member role user b s = record s {
  role_members = λ q. if q == role then set_flag user b (s.role_members role) else s.role_members q;
}

grant_role_internal : Symbol → Address → AccessControl → AccessControl
grant_role_internal role user s = set_member role user true s

revoke_role_internal : Symbol → Address → AccessControl → AccessControl
revoke_role_internal role user s = set_member role user false s

pub require_admin : Address → AccessControl → Result AccessControlError (Unit {0})
require_admin caller s = fail_if (not (flagged s.admins caller)) not_admin

-- The two checks that every gated entry point starts with.
pub gate : Env → Address → AccessControl → Result AccessControlError (Unit {0})
unfolding require_admin
gate env caller s = require_admin caller s >> require_auth env caller

validate_role_symbol : Symbol → Result AccessControlError (Unit {0})
validate_role_symbol _ = ok tt

pub has_ancestor : ℕ → (ℕ → Option Symbol) → Symbol → Symbol → Option Bool
has_ancestor zero parents role candidate = none
has_ancestor (suc n) parents role candidate = elim (parents role) [
  | none ↦ some false
  | some parent ↦ elim (parent == candidate) [
    | true ↦ some true
    | false ↦ has_ancestor n parents parent candidate
  ]
]

pub has_role_recursive : ℕ → AccessControl → Symbol → Address → Option Bool
has_role_recursive zero s role user = none
has_role_recursive (suc n) s role user = elim (flagged (s.role_members role) user) [
  | true ↦ some true
  | false ↦ elim (s.role_parent role) [
    | none ↦ some false
    | some parent ↦ has_role_recursive n s parent user
  ]
]

abbrev push_front : Symbol → Option (List Symbol) → Option (List Symbol)
push_front parent none = none
push_front parent (some chain) = some (parent ∷ chain)

pub get_role_ancestors : ℕ → (ℕ → Option Symbol) → Symbol → Option (List Symbol)
get_role_ancestors zero parents role = none
get_role_ancestors (suc n) parents role = elim (parents role) [
  | none ↦ some []
  | some parent ↦ push_front parent (get_role_ancestors n parents parent)
]

pub initialize : Env → Address → AccessControl → AccessControl
unfolding register_role_internal grant_role_internal
initialize env super_admin s =
    publish (symbol_short "ac_cr") (symbol (symbol_short "super") ∷ addr super_admin ∷ []) (
      grant_role_internal (symbol_short "super") super_admin (
        register_role_internal (symbol_short "super")
          (record s { super_key = some super_admin; admins = some (insert super_admin true []) })))

pub is_admin : Address → AccessControl → Bool
is_admin who s = flagged s.admins who

pub add_admin : Env → Address → Address → AccessControl → Result AccessControlError AccessControl
add_admin env caller new_admin s = do
  gate env caller s
  if flagged s.admins new_admin
      then ok s
      else ok (
          publish (symbol_short "ac_ad") (addr caller ∷ addr new_admin ∷ [])
            (record s { admins = set_flag new_admin true s.admins }))

pub remove_admin : Env → Address → Address → AccessControl → Result AccessControlError AccessControl
remove_admin env caller target s = do
  gate env caller s
  super_admin_addr ← expect s.super_key
  fail_if (target == super_admin_addr) cannot_remove_super_admin
  if not (flagged s.admins target)
      then ok s
      else ok (
          publish (symbol_short "ac_ar") (addr caller ∷ addr target ∷ [])
            (record s { admins = set_flag target false s.admins }))

pub create_role : Env → Address → Symbol → AccessControl → Result AccessControlError AccessControl
unfolding validate_role_symbol role_exists register_role_internal
create_role env caller role s = do
  gate env caller s
  validate_role_symbol role
  fail_if (role_exists role s) role_already_exists
  ok (
      publish (symbol_short "ac_cr") (symbol role ∷ addr caller ∷ [])
        (register_role_internal role s))

pub set_role_parent :
    ℕ → Env → Address → Symbol → Symbol → AccessControl → Result AccessControlError AccessControl
unfolding ensure_role_exists
set_role_parent budget env caller role parent s = do
  gate env caller s
  ensure_role_exists role s
  ensure_role_exists parent s
  fail_if (role == parent) self_reference
  cycle ← expect (has_ancestor budget s.role_parent parent role)
  fail_if cycle cycle_detected
  ok (
      publish (symbol_short "ac_ps") (symbol role ∷ symbol parent ∷ addr caller ∷ [])
        (record s { role_parent = update s.role_parent role parent }))

pub grant_role :
    Env → Address → Symbol → Address → AccessControl → Result AccessControlError AccessControl
unfolding ensure_role_exists grant_role_internal
grant_role env caller role user s = do
  gate env caller s
  ensure_role_exists role s
  ok (
      publish (symbol_short "ac_gr") (symbol role ∷ addr user ∷ addr caller ∷ [])
        (grant_role_internal role user s))

pub revoke_role :
    Env → Address → Symbol → Address → AccessControl → Result AccessControlError AccessControl
unfolding ensure_role_exists revoke_role_internal
revoke_role env caller role user s = do
  gate env caller s
  ensure_role_exists role s
  ok (
      publish (symbol_short "ac_rv") (symbol role ∷ addr user ∷ addr caller ∷ [])
        (revoke_role_internal role user s))
