-- ===== src/Host/Sample.antt =====
-- A concrete environment and a concrete token contract with the laws of `IsToken`, for the tests.
use trellis_contracts.Prelude.{
  ℕ, ◌≡◌, ◌&&◌, none, some, arith, ◌==◌, if◌then◌else◌, ℤ, int_laws, ◌+ℤ◌, ◌-ℤ◌, leb_ℤ, pos,
}
use trellis_contracts.Host.Token.{Token, IsToken}
use trellis_contracts.Host.{Env, Address}

-- Invocations that `who` has authorised, of the contract at address 100.
abbrev pub env_of : Address → Env
env_of who = record {
  sequence = 5;
  timestamp = 7;
  current_contract_address = 100;
  authorized = λ a. a == who;
}

-- The balance of each address in each token.
abbrev pub Bank : Type 0
Bank = ℕ → ℕ → ℤ

unfoldable pub moved : ℕ → ℕ → ℕ → ℤ → Bank → Bank
moved t from to x s u a =
    let left = if u == t && a == from then s u a -ℤ x else s u a in
    if u == t && a == to then left +ℤ x else left

-- A token that refuses negative amounts and overdrafts.
abbrev pub bank : Token Bank
bank = record {
  balance = λ t a s. s t a;
  transfer = λ t from to x s.
      if leb_ℤ (pos 0) x && leb_ℤ x (s t from) then some (moved t from to x s) else none;
}

pub bank-IsToken : IsToken bank
unfolding moved
bank-IsToken = record {
  debits = λ t from to x s s' e.
      let q : s' ≡ moved t from to x s = ground arith in rw q (grind (int_laws));
  credits = λ t from to x s s' e ne.
      let q : s' ≡ moved t from to x s = ground arith in rw q (grind (int_laws));
  bystanders = λ t from to a x s s' e n m.
      let q : s' ≡ moved t from to x s = ground arith in rw q (ground arith);
  other_tokens = λ t u from to a x s s' e n.
      let q : s' ≡ moved t from to x s = ground arith in rw q (ground arith);
}

-- Address 1 holds 1000 of the token 50.
abbrev pub rich : Bank
rich u a = if u == 50 && a == 1 then pos 1000 else pos 0

-- The same, and the contract holds 200 of it.
abbrev pub vault : Bank
vault u a = if u == 50 && a == 1 then pos 1000 else if u == 50 && a == 100 then pos 200 else pos 0
