-- ===== src/Gateway/Tests.antt =====
-- Runs of the payments contract, and its theorems at concrete states.
use trellis_contracts.Gateway.Calls.{
  Call, run, deposit_call, withdraw_call, withdraw_amount_call, entry_call, release_call,
}
use trellis_contracts.Gateway.Solvency.{IsSolid, ArePlain}
use trellis_contracts.Gateway.History.{run-IsSolid}
use trellis_contracts.Gateway.Balances.{run-IsBalanced}
use trellis_contracts.Prelude.{
  List, lookup, ◌≡◌, refl, false, none, some, [], ◌∷◌, arith, total, ℤ, ◌+ℤ◌, pos,
}
use trellis_contracts.Host.{Env, commit}
use trellis_contracts.Host.Sample.{env_of, Bank, bank, bank-IsToken, vault}
use trellis_contracts.Shared.Auth.{no_auth}
use trellis_contracts.Gateway.{Gateway, deposit, withdraw, withdraw_amount, balance_of}
use trellis_contracts.Gateway.Accounts.{IsBalanced}
use trellis_contracts.Gateway.Backing.{IsBacked, owed}

-- Address 1 has deposited 200 of the token 50; the fee is 1 %, for address 8.
abbrev opened : Gateway Bank
opened = record {
  auth = no_auth;
  token_key = some 50;
  fee_rt = some (pos 100);
  fee_rcp = some 8;
  depos = (1, pos 200) ∷ [];
  t_depo = some (pos 200);
  escrows = record { esc_seq = none; esc_act = none; esc_rec = []; ledger = vault; events = [] };
  bat_lck = false;
}

abbrev deposited : Gateway Bank
deposited = commit opened (deposit bank (env_of 1) 1 (pos 30) opened)

abbrev withdrawn : ℤ × Gateway Bank
withdrawn = commit (pos 0, opened) (withdraw bank (env_of 1) 1 opened)

abbrev taken : ℤ × Gateway Bank
taken = commit (pos 0, opened) (withdraw_amount bank (env_of 1) 1 (pos 100) opened)

opened-IsBalanced : IsBalanced bank opened
unfolding total trellis_contracts.Gateway.total_deposits ◌+ℤ◌
opened-IsBalanced = record { nonneg = (omega arith, tt); summed = refl; range = omega arith }

opened-IsBacked : IsBacked bank 100 opened
unfolding total owed ◌+ℤ◌
opened-IsBacked u k = let q : 50 ≡ u = ground arith in ground arith

withdrawn_net : withdrawn.0 ≡ pos 198
unfolding withdraw trellis_contracts.Prelude.lookup trellis_contracts.Gateway.pay_out
    trellis_contracts.Shared.Payments.calculate_fee_split
    trellis_contracts.Shared.Payments.calculate_fee trellis_contracts.Prelude.checked_mul
    trellis_contracts.Prelude.◌*ℤ◌ trellis_contracts.Prelude.checked_div
    trellis_contracts.Prelude.◌/ℤ◌ trellis_contracts.Prelude.checked_sub
    trellis_contracts.Prelude.◌-ℤ◌ trellis_contracts.Shared.Payments.safe_transfer_from_contract
    trellis_contracts.Host.Sample.moved
withdrawn_net = refl

taken_rest : balance_of bank 1 taken.1 ≡ pos 100
unfolding withdraw_amount trellis_contracts.Prelude.lookup trellis_contracts.Gateway.pay_out
    trellis_contracts.Shared.Payments.calculate_fee_split
    trellis_contracts.Shared.Payments.calculate_fee trellis_contracts.Prelude.checked_mul
    trellis_contracts.Prelude.◌*ℤ◌ trellis_contracts.Prelude.checked_div
    trellis_contracts.Prelude.◌/ℤ◌ trellis_contracts.Prelude.checked_sub
    trellis_contracts.Prelude.◌-ℤ◌ trellis_contracts.Shared.Payments.safe_transfer_from_contract
    trellis_contracts.Host.Sample.moved trellis_contracts.Prelude.insert
taken_rest = refl

opened-IsSolid : IsSolid bank 100 opened
unfolding total owed trellis_contracts.Gateway.total_deposits ◌+ℤ◌ lookup
opened-IsSolid = record {
  balanced = opened-IsBalanced;
  backed = opened-IsBacked;
  numbered = λ k h. refl;
  single = λ u e k r h. absurd (cc);
}

-- 1 deposits, funds an escrow for 2 and withdraws.
abbrev history : List (Env × Call)
history =
    (env_of 1, deposit_call 1 (pos 30))
    ∷ (env_of 1, entry_call 1 2 (pos 5) 10)
    ∷ (env_of 1, withdraw_amount_call 1 (pos 100))
    ∷ (env_of 1, release_call 1 1)
    ∷ (env_of 1, withdraw_call 1)
    ∷ []

run-IsSolid_example : IsSolid bank 100 (run bank history opened)
unfolding ArePlain
run-IsSolid_example =
    run-IsSolid bank bank-IsToken 100 history opened
      ((refl, omega arith), ((refl, omega arith), (refl, (refl, (refl, tt))))) opened-IsSolid

run-IsBalanced_example : IsBalanced bank (run bank history opened)
run-IsBalanced_example = run-IsBalanced bank history opened opened-IsBalanced
