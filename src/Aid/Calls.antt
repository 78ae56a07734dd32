-- ===== src/Aid/Calls.antt =====
-- The entry points of the aid contract that change its state, as calls, and sequences of them.
use trellis_contracts.Host.Token.{Token}
use trellis_contracts.Prelude.{refl, ◌≡◌, ℕ, Bool, Option, none, some, List, [], ◌∷◌, unwrap_or, ℤ}
use trellis_contracts.Host.{Env, Result, Address, ok, err, panic_with_error, trap}
use trellis_contracts.Aid.{
  Aid, initialize, update_config, set_paused, create_aid, claim_aid, refund_aid,
}

pub data Call : Type 0 where
  initialize_call : Address → Address → Address → ℕ → Call
  update_call : Address → Option Address → Option ℕ → Call
  create_call : Address → Address → ℤ → ℕ → Call
  claim_call : ℕ → Address → Call
  refund_call : ℕ → Call
  pause_call : Address → Bool → Call

-- The state that an invocation commits, if it does not fail.
abbrev pub committed : {E A : Type 0} → Result E A → Option A
committed (ok a) = some a
committed (err _) = none
committed (panic_with_error _) = none
committed trap = none

abbrev second : {A B : Type 0} → Option (A × B) → Option B
second none = none
second (some (_, b)) = some b

module _ {T : Type 0} (c : Token T) where
  unfoldable pub invoke : Env → Call → Aid T → Option (Aid T)
  invoke env (initialize_call a t k d) s = committed (initialize env a t k d s)
  invoke env (update_call a t d) s = committed (update_config env a t d s)
  invoke env (create_call d r x e) s = second (committed (create_aid c env d r x e s))
  invoke env (claim_call i r) s = committed (claim_aid c env i r s)
  invoke env (refund_call i) s = committed (refund_aid c env i s)
  invoke env (pause_call a b) s = committed (set_paused env a b s)

  -- The state after a sequence of invocations; one that fails is rolled back.
  unfoldable pub run : List (Env × Call) → Aid T → Aid T
  run [] s = s
  run ((env, k) ∷ ks) s = run ks (unwrap_or (invoke env k s) s)

pub committed_ok : {E A : Type 0} (r : Result E A) {a : A} → committed r ≡ some a → r ≡ ok a
committed_ok (ok x) h = cc
committed_ok (err _) h = cc
committed_ok (panic_with_error _) h = cc
committed_ok trap h = cc

pub second-committed :
    {E A B : Type 0} (r : Result E (A × B)) {b : B}
    → second (committed r) ≡ some b
    → (a : A) × (r ≡ ok (a, b))
second-committed (ok (a, x)) h = (a, cc)
second-committed (err _) h = cc
second-committed (panic_with_error _) h = cc
second-committed trap h = cc

-- A predicate that every successful call keeps holds after any invocation.
pub keep_invoke :
    {A : Type 0} (P : A → Type 0) (o : Option A) (s : A)
    → P s
    → ((s' : A) → o ≡ some s' → P s')
    → P (unwrap_or o s)
keep_invoke P none s h k = h
keep_invoke P (some s') s h k = k s' refl
