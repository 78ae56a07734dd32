-- ===== src/Host.antt =====
-- What the contracts use of the Soroban host: addresses, symbols, the environment of a call, the
-- outcome of a call, published events, and the token contract as a parameter.
-- A call that returns an error or panics is rolled back by the host, so only `ok` carries a state.
pub mod Token
pub mod Sample
use Prim.Native.Nat.{ℕ}
use trellis_contracts.Prelude.{
  refl, ◌≡◌, ℤ, Bool, Option, none, some, List, true, false, if◌then◌else◌,
}

abbrev pub Address : Type 0
Address = ℕ

abbrev pub Symbol : Type 0
Symbol = ℕ

-- `Env`, read-only in one invocation: the ledger's sequence and time, the contract's own address,
-- and which addresses have authorised this invocation.
pub record Env : Type 0 where
  pub sequence : ℕ
  pub timestamp : ℕ
  pub current_contract_address : Address
  pub authorized : Address → Bool

-- How an invocation ends: a value, an error of the contract's enum, `panic_with_error` with an
-- error's code, or a trap (`expect`, a missing authorisation, a failed callee).
pub data Result (E A : Type 0) : Type 0 where
  ok : A → Result E A
  err : E → Result E A
  panic_with_error : ℕ → Result E A
  trap : Result E A

infixl 5 ◌>>=◌ ◌>>◌
abbrev pub ◌>>=◌ : {E A B : Type 0} → Result E A → (A → Result E B) → Result E B
ok a >>= f = f a
err e >>= f = err e
panic_with_error n >>= f = panic_with_error n
trap >>= f = trap

abbrev pub ◌>>◌ : {E B : Type 0} → Result E (Unit {0}) → Result E B → Result E B
m >> k = m >>= λ _. k

module _ {E : Type 0} where
  -- `if c { return Err(e); }`
  abbrev pub fail_if : Bool → E → Result E (Unit {0})
  fail_if true e = err e
  fail_if false e = ok tt

  -- `if c { env.panic_with_error(e); }`, with the error's code.
  abbrev pub panic_if : Bool → ℕ → Result E (Unit {0})
  panic_if true n = panic_with_error n
  panic_if false n = ok tt

  -- `Address::require_auth`
  abbrev pub require_auth : Env → Address → Result E (Unit {0})
  require_auth env a = if env.authorized a then ok tt else trap

  -- `Option::ok_or`
  abbrev pub ok_or : {A : Type 0} → Option A → E → Result E A
  ok_or none e = err e
  ok_or (some a) e = ok a

  -- `Option::expect` and `Option::unwrap`
  abbrev pub expect : {A : Type 0} → Option A → Result E A
  expect none = trap
  expect (some a) = ok a

-- A value in an event.
pub data Val : Type 0 where
  addr : Address → Val
  int : ℤ → Val
  num : ℕ → Val
  symbol : Symbol → Val
  flag : Bool → Val

-- A published event. A contract's log keeps the newest event first.
pub record Event : Type 0 where
  pub topics : List Symbol
  pub payload : List Val

-- A bind that succeeds: both parts did.
pub bind_ok :
    {E A B : Type 0} (m : Result E A) (f : A → Result E B) {b : B}
    → (m >>= f) ≡ ok b
    → (a : A) × (m ≡ ok a) × (f a ≡ ok b)
bind_ok (ok a) f h = (a, refl, h)
bind_ok (err e) f h = cc
bind_ok (panic_with_error n) f h = cc
bind_ok trap f h = cc

pub ok_or-eq_ok : {E A : Type 0} (o : Option A) (e : E) {a : A} → ok_or o e ≡ ok a → o ≡ some a
ok_or-eq_ok none e h = cc
ok_or-eq_ok (some x) e h = cc

-- The same for a proof that goes on with the parts.
pub bind_then :
    {E A B : Type 0} {b : B} {P : Type 0} (m : Result E A) (f : A → Result E B)
    → (m >>= f) ≡ ok b
    → ((a : A) → m ≡ ok a → f a ≡ ok b → P)
    → P
bind_then (ok a) f h k = k a refl h
bind_then (err e) f h k = absurd (cc)
bind_then (panic_with_error n) f h k = absurd (cc)
bind_then trap f h k = absurd (cc)

-- The state after an invocation: the host discards the writes of one that fails.
abbrev pub commit : {E S : Type 0} → S → Result E S → S
commit s (ok s') = s'
commit s (err _) = s
commit s (panic_with_error _) = s
commit s trap = s

-- What holds before an invocation, and after it if it succeeds, holds after it.
pub commit_keeps :
    {E S : Type 0} (P : S → Type 0) (r : Result E S) (s : S)
    → P s
    → ((s' : S) → r ≡ ok s' → P s')
    → P (commit s r)
commit_keeps P (ok s') s h k = k s' refl
commit_keeps P (err _) s h k = h
commit_keeps P (panic_with_error _) s h k = h
commit_keeps P trap s h k = h
