-- ===== src/Shared/Batch/Atomic.antt =====
-- Batches of token transfers (shared/src/batch.rs): what atomic mode pays, where it does not
-- revert, and that non-atomic mode always reports.
use trellis_contracts.Host.Token.{Token}
use trellis_contracts.Prelude.{
  ℕ, zero, suc, ◌+◌, ◌≤◌, ◌<◌, ◌≡◌, refl, inl, inr, true, false, Option, none, some, List, [], ◌∷◌,
  arith, Option-cases, length, ◌≤ℤ◌, pos,
}
use trellis_contracts.Host.{Result, Address, ok, trap}
use trellis_contracts.Shared.Batch.{
  closed, start, failure, BatchError, BatchConfig, BatchTransfer, BatchResult, BatchStore, Progress,
  absolute_max_batch_size, note, run_ops, transfer_op, execute_multi_transfer, atomic, success,
}

-- A batch that passes the checks before its loop.
pub record IsRunnable {T : Type 0} (n : ℕ) (config : BatchConfig) (s : BatchStore T) : Type 0 where
  pub some_operation : 0 < n
  pub within : n ≤ config.max_operations
  pub ceiling : config.max_operations ≤ absolute_max_batch_size
  pub unlocked : s.bat_lck ≡ false

-- Every transfer has a positive amount.
abbrev pub AllPositive : List BatchTransfer → Type 0
AllPositive [] = Unit {0}
AllPositive (t ∷ ts) = (pos 1 ≤ℤ t.amount) × AllPositive ts

-- `n` successes in a row.
pub succeeds : ℕ → Progress → Progress
unfolding note
succeeds zero p = p
succeeds (suc n) p = succeeds n (note atomic success p)

succeeds_counts :
    (n : ℕ) (p : Progress)
    → ((succeeds n p).succeeded ≡ p.succeeded + n)
      × ((succeeds n p).failed ≡ p.failed)
      × ((succeeds n p).reverted ≡ p.reverted)
unfolding succeeds
succeeds_counts zero p = (omega arith, refl, refl)
succeeds_counts (suc n) p = ground (arith, succeeds_counts n (note atomic success p))

-- How a batch of `n` transfers ends, by what paying them all comes to.
abbrev pub Pays :
    {T : Type 0} → ℕ → Option T → Result BatchError (BatchResult × BatchStore T) → Type 0
Pays n none x = x ≡ trap
Pays {T} n (some l) x =
    (r : BatchResult) × (s' : BatchStore T) × (x ≡ ok (r, s'))
    × (r.succeeded ≡ n)
    × (r.failed ≡ 0)
    × (r.reverted ≡ false)
    × (s'.ledger ≡ l)

module _ {T : Type 0} (c : Token T) (caller token : Address) where
  -- The transfers one after the other, `none` if one fails: what an atomic batch is to do.
  pub pay_all : List BatchTransfer → T → Option T
  pay_all [] l = some l
  pay_all (t ∷ ts) l = elim (c.transfer token caller t.to t.amount l) [
    | none ↦ none
    | some l' ↦ pay_all ts l'
  ]

  -- The outcome of the loop for a payment that may fail.
  abbrev outcome : ℕ → Progress → Option T → Result BatchError (Progress × T)
  outcome n p none = trap
  outcome n p (some l) = ok (succeeds n p, l)

  run_ops-pay_all :
      (ts : List BatchTransfer) (p : Progress) (l : T)
      → AllPositive ts
      → p.reverted ≡ false
      → run_ops (transfer_op c token caller atomic) atomic ts p l
        ≡ outcome (length ts) p (pay_all ts l)
  unfolding run_ops transfer_op pay_all succeeds
  run_ops-pay_all [] p l v f = refl
  run_ops-pay_all (t ∷ ts) p l v f = elim (Option-cases (c.transfer token caller t.to t.amount l)) [
    | inl refused ↦ ground arith
    | inr (l', paid) ↦ ground (arith, run_ops-pay_all ts (note atomic success p) l' v.1 f)
  ]

  -- An atomic batch of positive amounts that passes the checks on its size, its configuration and
  -- the lock makes all transfers in order and reports each as a success, or traps if one of them
  -- fails.
  pub execute_multi_transfer-pay_all :
      (ts : List BatchTransfer) (config : BatchConfig) (s : BatchStore T)
      → IsRunnable (length ts) config s
      → config.mode ≡ atomic
      → AllPositive ts
      → Pays (length ts) (pay_all ts s.ledger) (execute_multi_transfer c caller token ts config s)
  unfolding execute_multi_transfer
  execute_multi_transfer-pay_all ts config s v m a = elim (Option-cases (pay_all ts s.ledger)) [
    | inl refused ↦ rw refused (ground (arith, run_ops-pay_all ts start s.ledger a refl))
    | inr (l, paid) ↦
        let p = succeeds (length ts) start in
        let counts = succeeds_counts (length ts) start in
        rw paid (
          (closed (length ts) s.events p l).0,
          (closed (length ts) s.events p l).1,
          ground (arith, run_ops-pay_all ts start s.ledger a refl),
          omega (arith, counts.0),
          counts.1,
          counts.2,
          refl,
        )
  ]

  -- An atomic batch that passes the checks before its loop, whose first transfer is positive and
  -- can be made and whose second is not positive, returns normally with its first transfer made,
  -- and is reported as reverted.
  pub atomic_keeps_first :
      (t u : BatchTransfer) (ts : List BatchTransfer) (config : BatchConfig) (s : BatchStore T)
      (l : T)
      → IsRunnable (length (t ∷ u ∷ ts)) config s
      → config.mode ≡ atomic
      → pos 1 ≤ℤ t.amount
      → u.amount ≤ℤ pos 0
      → c.transfer token caller t.to t.amount s.ledger ≡ some l
      → (r : BatchResult) × (s' : BatchStore T) × (execute_multi_transfer c caller token
            (t ∷ u ∷ ts)
            config
            s
          ≡ ok (r, s'))
        × (r.reverted ≡ true)
        × (r.succeeded ≡ 1)
        × (s'.ledger ≡ l)
  unfolding execute_multi_transfer run_ops transfer_op note
  atomic_keeps_first t u ts config s l v m p q paid =
      let cut = note atomic (failure 803) (note atomic success start) in
      let out = closed (length (t ∷ u ∷ ts)) s.events cut l in
      (out.0, out.1, ground arith, refl, omega arith, refl)
