-- ===== src/Shared/Tests.antt =====
-- Runs of the shared crate, and its theorems at concrete inputs.
use trellis_contracts.Shared.Payments.Histories.{
  AreIn, ArePlain, EscrowCall, create_op, release_op, refund_op, escrow_run, escrow_run-IsSound,
}
use trellis_contracts.Prelude.{
  List, ltb, ◌⊎◌, some, ◌≤◌, insert, length, ℕ, ◌*◌, ◌/◌, ◌≡◌, refl, true, false, ◌&&◌, none, [],
  ◌∷◌, arith, if◌then◌else◌, lookup, total, ◌+ℤ◌, ◌≤ℤ◌, leb_ℤ, i128_max, pos,
}
use trellis_contracts.Host.{Address, Env, Result, commit, ok, err}
use trellis_contracts.Host.Sample.{env_of, Bank, moved, bank, bank-IsToken, rich, vault}
use trellis_contracts.Shared.Math.{apply_bps, is_rate, safe_add, safe_sub, checked_sub, bps_of}
use trellis_contracts.Shared.Errors.{payment_escrow_already_released}
use trellis_contracts.Shared.Payments.{
  EscrowStore, calculate_fee, calculate_fee_split, create_escrow, release_escrow, refund_escrow,
}
use trellis_contracts.Shared.Payments.Fees.{calculate_fee_split_exact}
use trellis_contracts.Shared.Payments.Escrows.{AreNumbered, IsSound}
use trellis_contracts.Shared.Payments.Once.{token_run, release_escrow_once}
use trellis_contracts.Shared.Batch.{
  BatchError, OperationResult, non_atomic, non_atomic_default, finish, start, BatchTransfer,
  BatchConfig, BatchResult, BatchStore, atomic_default, atomic, is_atomic, attempt, execute,
  execute_multi_transfer,
}
use trellis_contracts.Shared.Batch.Counts.{successes, failures, execute_reports}
use trellis_contracts.Shared.Batch.Atomic.{
  IsRunnable, Pays, pay_all, execute_multi_transfer-pay_all, atomic_keeps_first,
}

half : apply_bps (pos 101) (pos 5_000) ≡ ok (pos 50)
unfolding apply_bps trellis_contracts.Shared.Math.checked_div trellis_contracts.Prelude.checked_div
    trellis_contracts.Prelude.◌/ℤ◌ trellis_contracts.Shared.Math.checked_mul
    trellis_contracts.Prelude.checked_mul trellis_contracts.Prelude.◌*ℤ◌
    trellis_contracts.Prelude.◌%ℤ◌ trellis_contracts.Shared.Math.checked_add
    trellis_contracts.Prelude.checked_add ◌+ℤ◌
half = refl

largest : apply_bps i128_max (pos 10_000) ≡ ok i128_max
unfolding apply_bps trellis_contracts.Shared.Math.checked_div trellis_contracts.Prelude.checked_div
    trellis_contracts.Prelude.◌/ℤ◌ trellis_contracts.Shared.Math.checked_mul
    trellis_contracts.Prelude.checked_mul trellis_contracts.Prelude.◌*ℤ◌
    trellis_contracts.Prelude.◌%ℤ◌ trellis_contracts.Shared.Math.checked_add
    trellis_contracts.Prelude.checked_add ◌+ℤ◌
largest = refl

calculate_fee_split_exact_example :
    (pos 308 +ℤ pos 12_037 ≡ pos 12_345) × (pos 0 ≤ℤ pos 308) × (pos 0 ≤ℤ pos 12_037)
unfolding calculate_fee_split calculate_fee trellis_contracts.Prelude.checked_mul
    trellis_contracts.Prelude.◌*ℤ◌ trellis_contracts.Prelude.checked_div
    trellis_contracts.Prelude.◌/ℤ◌ trellis_contracts.Prelude.checked_sub
    trellis_contracts.Prelude.◌-ℤ◌
calculate_fee_split_exact_example =
    calculate_fee_split_exact (pos 12_345) (pos 250) (pos 308) (pos 12_037)
      (omega arith, omega arith) refl

abbrev no_escrows : EscrowStore Bank
no_escrows = record { esc_seq = none; esc_act = none; esc_rec = []; ledger = vault; events = [] }

-- Address 1 locks 30 of the token 50 for 2, until ledger 10.
abbrev held : ℕ × EscrowStore Bank
held = commit (0, no_escrows) (create_escrow bank (env_of 1) 50 1 2 (pos 30) 10 no_escrows)

abbrev paid : EscrowStore Bank
paid = commit held.1 (release_escrow bank (env_of 1) 50 1 held.1)

no_escrows-IsSound : IsSound bank 100 no_escrows
unfolding total lookup
no_escrows-IsSound = record { fresh = λ k h. refl; listed = λ k. refl; solvent = λ u. ground arith }

held_numbered : AreNumbered held.1
unfolding create_escrow lookup trellis_contracts.Prelude.insert moved ◌+ℤ◌
held_numbered k h = ground arith

-- Later a second escrow is made and refunded, and others try to close the first in another token.
abbrev later : List (Env × Address × EscrowCall)
later =
    (env_of 1, 50, create_op 1 2 (pos 20) 10)
    ∷ (env_of 3, 51, refund_op 1)
    ∷ (env_of 1, 50, refund_op 2)
    ∷ []

release_escrow_once_example :
    (release_escrow bank (env_of 3) 51 1 (token_run bank later paid)
      ≡ err payment_escrow_already_released)
    × (refund_escrow bank (env_of 3) 51 1 (token_run bank later paid)
        ≡ err payment_escrow_already_released)
unfolding create_escrow release_escrow lookup trellis_contracts.Prelude.insert moved ◌+ℤ◌
release_escrow_once_example =
    release_escrow_once bank (env_of 1) (env_of 3) 50 51 1 held.1 paid later held_numbered refl

abbrev unlocked : BatchStore Bank
unlocked = record { bat_lck = false; ledger = rich; events = [] }

abbrev pays_10 : BatchTransfer
pays_10 = record { to = 2; amount = pos 10 }

abbrev pays_nothing : BatchTransfer
pays_nothing = record { to = 3; amount = pos 0 }

two-IsRunnable : IsRunnable 2 atomic_default unlocked
two-IsRunnable = record {
  some_operation = omega arith;
  within = omega arith;
  ceiling = omega arith;
  unlocked = refl;
}

execute_multi_transfer-pay_all_example :
    Pays 2
      (pay_all bank 1 50 (pays_10 ∷ pays_10 ∷ []) rich)
      (execute_multi_transfer bank 1 50 (pays_10 ∷ pays_10 ∷ []) atomic_default unlocked)
execute_multi_transfer-pay_all_example =
    execute_multi_transfer-pay_all bank 1 50 (pays_10 ∷ pays_10 ∷ []) atomic_default unlocked
      two-IsRunnable refl (omega arith, (omega arith, tt))

atomic_keeps_first_example :
    (r : BatchResult) × (s' : BatchStore Bank) × (execute_multi_transfer bank 1 50
        (pays_10 ∷ pays_nothing ∷ [])
        atomic_default
        unlocked
      ≡ ok (r, s'))
    × (r.reverted ≡ true)
    × (r.succeeded ≡ 1)
    × (s'.ledger ≡ moved 50 1 2 (pos 10) rich)
atomic_keeps_first_example =
    atomic_keeps_first bank 1 50 pays_10 pays_nothing [] atomic_default unlocked
      (moved 50 1 2 (pos 10) rich) two-IsRunnable refl (omega arith) (omega arith) refl

-- A payment of the token 50 from address 1.
abbrev pay : BatchTransfer → Bank → Result BatchError (OperationResult × Bank)
pay t l = attempt non_atomic (bank.transfer 50 1 t.to t.amount l) l

abbrev overdraft : BatchTransfer
overdraft = record { to = 2; amount = pos 5_000 }

abbrev reported : BatchResult × BatchStore Bank
reported =
    commit (finish 0 start, unlocked)
      (execute pay non_atomic_default (pays_10 ∷ overdraft ∷ []) unlocked)

execute_reports_example :
    (reported.0.total ≡ 2)
    × (reported.0.succeeded ≡ successes reported.0.results)
    × (reported.0.failed ≡ failures reported.0.results)
    × (length reported.0.results ≤ reported.0.total)
    × ((reported.0.reverted ≡ true) ⊎ (length reported.0.results ≡ reported.0.total))
    × (reported.0.reverted ≡ is_atomic non_atomic && ltb 0 reported.0.failed)
    × (reported.1.bat_lck ≡ false)
unfolding execute trellis_contracts.Shared.Batch.run_ops attempt trellis_contracts.Shared.Batch.note
    moved trellis_contracts.Prelude.◌-ℤ◌
execute_reports_example =
    execute_reports pay non_atomic_default (pays_10 ∷ overdraft ∷ []) unlocked reported.1 reported.0
      refl

no_escrows-AreIn : AreIn 50 no_escrows
unfolding lookup
no_escrows-AreIn k r e = absurd (cc)

abbrev escrow_history : List (Env × EscrowCall)
escrow_history =
    (env_of 1, create_op 1 2 (pos 30) 10)
    ∷ (env_of 1, release_op 1)
    ∷ (env_of 1, create_op 1 2 (pos 20) 10)
    ∷ (env_of 1, refund_op 2)
    ∷ []

escrow_run-IsSound_example :
    IsSound bank 100 (escrow_run bank 50 escrow_history no_escrows)
    × AreIn 50 (escrow_run bank 50 escrow_history no_escrows)
unfolding ArePlain
escrow_run-IsSound_example =
    escrow_run-IsSound bank bank-IsToken 100 50 escrow_history no_escrows
      ((refl, omega arith), (refl, ((refl, omega arith), (refl, tt)))) no_escrows-IsSound
      no_escrows-AreIn
