-- ===== src/Host/Token.antt =====
-- The token contract (`token::Client`), a parameter of every contract that moves funds. `T` is the
-- state of all token contracts; `transfer` is `none` where the callee traps.
use trellis_contracts.Prelude.{ℕ, ◌≡◌, ◌≢◌, ℤ, ◌+ℤ◌, ◌-ℤ◌, ◌≤ℤ◌, Option, some}

pub record Token (T : Type 0) : Type 0 where
  pub balance : ℕ → ℕ → T → ℤ
  pub transfer : ℕ → ℕ → ℕ → ℤ → T → Option T

-- What the contracts rely on: a transfer of `x` of one token takes at most `x` from the sender,
-- gives `x` to any other receiver, and leaves third parties and other tokens alone.
pub record IsToken {T : Type 0} (c : Token T) : Type 0 where
  pub debits :
      (t from to : ℕ) (x : ℤ) (s s' : T)
      → c.transfer t from to x s ≡ some s'
      → c.balance t from s -ℤ x ≤ℤ c.balance t from s'
  pub credits :
      (t from to : ℕ) (x : ℤ) (s s' : T)
      → c.transfer t from to x s ≡ some s'
      → to ≢ from
      → c.balance t to s' ≡ c.balance t to s +ℤ x
  pub bystanders :
      (t from to a : ℕ) (x : ℤ) (s s' : T)
      → c.transfer t from to x s ≡ some s'
      → a ≢ from
      → a ≢ to
      → c.balance t a s' ≡ c.balance t a s
  pub other_tokens :
      (t u from to a : ℕ) (x : ℤ) (s s' : T)
      → c.transfer t from to x s ≡ some s'
      → u ≢ t
      → c.balance u a s' ≡ c.balance u a s
