-- ===== src/Shared/Batch.antt =====
-- The batch executor (shared/src/batch.rs). `T` is the state of the other contracts; a call of one
-- is `none` where it fails. The three executors of the source run the same loop over different
-- single operations, so the loop takes the operation as an argument.
pub mod Counts
pub mod Atomic
use trellis_contracts.Host.Token.{Token}
use trellis_contracts.Prelude.{
  none, map, some, Option, ℕ, ◌+◌, Bool, true, false, ◌||◌, List, [], ◌∷◌, ◌++◌, ltb, ◌==◌,
  if◌then◌else◌, length, symbol_short, ℤ, leb_ℤ, pos,
}
use trellis_contracts.Shared.Errors.{code, invalid_amount}
use trellis_contracts.Host.{
  panic_with_error, trap, err, Val, Symbol, Result, Event, Address, ◌>>=◌, ◌>>◌, fail_if, ok, num,
  flag,
}
use trellis_contracts.Shared.Events.{emit}

pub data BatchError : Type 0 where
  batch_too_large : BatchError
  operation_failed : BatchError
  invalid_config : BatchError
  invalid_operation : BatchError
  empty_batch : BatchError
  reentrancy_detected : BatchError

abbrev pub batch_code : BatchError → ℕ
batch_code batch_too_large = 800
batch_code operation_failed = 801
batch_code invalid_config = 802
batch_code invalid_operation = 803
batch_code empty_batch = 804
batch_code reentrancy_detected = 805

pub data BatchMode : Type 0 where
  atomic non_atomic : BatchMode

abbrev pub is_atomic : BatchMode → Bool
is_atomic atomic = true
is_atomic non_atomic = false

pub record BatchConfig : Type 0 where
  pub mode : BatchMode
  pub max_operations : ℕ

abbrev pub default_max_batch_size : ℕ
default_max_batch_size = 50

abbrev pub absolute_max_batch_size : ℕ
absolute_max_batch_size = 100

abbrev pub atomic_default : BatchConfig
atomic_default = record { mode = atomic; max_operations = default_max_batch_size }

abbrev pub non_atomic_default : BatchConfig
non_atomic_default = record { mode = non_atomic; max_operations = default_max_batch_size }

pub record BatchTransfer : Type 0 where
  pub to : Address
  pub amount : ℤ

pub data OperationResult : Type 0 where
  success : OperationResult
  failure : ℕ → OperationResult
  skipped : OperationResult

pub record BatchResult : Type 0 where
  pub results : List OperationResult
  pub total : ℕ
  pub succeeded : ℕ
  pub failed : ℕ
  pub reverted : Bool

-- The entry `bat_lck` of temporary storage, the other contracts' state, and the event log.
pub record BatchStore (T : Type 0) : Type 0 where
  pub bat_lck : Bool
  pub ledger : T
  pub events : List Event

-- The variables of the loop.
pub record Progress : Type 0 where
  pub results : List OperationResult
  pub succeeded : ℕ
  pub failed : ℕ
  pub reverted : Bool

abbrev pub start : Progress
start = record { results = []; succeeded = 0; failed = 0; reverted = false }

-- The `match` on one operation's result; `reverted` also stands for the `break`.
unfoldable pub note : BatchMode → OperationResult → Progress → Progress
note mode success p = record p { results = p.results ++ success ∷ []; succeeded = p.succeeded + 1 }
note mode (failure n) p = record p {
  results = p.results ++ failure n ∷ [];
  failed = p.failed + 1;
  reverted = is_atomic mode || p.reverted;
}
note mode skipped p = record p { results = p.results ++ skipped ∷ [] }

validate_config : BatchConfig → Result BatchError (Unit {0})
validate_config config =
    fail_if (config.max_operations == 0 || ltb absolute_max_batch_size config.max_operations)
      invalid_config

validate_transfer : BatchTransfer → Result BatchError (Unit {0})
validate_transfer t = fail_if (leb_ℤ t.amount (pos 0)) invalid_operation

-- The event that closes a batch.
pub completed : ℕ → Progress → Event
completed total p =
    if p.reverted
    then emit (symbol_short "bat_done")
        (num total ∷ num p.succeeded ∷ num p.failed ∷ flag true ∷ [])
    else if ltb 0 p.failed
    then emit (symbol_short "bat_part") (num total ∷ num p.succeeded ∷ num p.failed ∷ [])
    else emit (symbol_short "bat_done")
        (num total ∷ num p.succeeded ∷ num p.failed ∷ flag false ∷ [])

abbrev pub finish : ℕ → Progress → BatchResult
finish count p = record {
  results = p.results;
  total = count;
  succeeded = p.succeeded;
  failed = p.failed;
  reverted = p.reverted;
}

-- What `execute_*` returns once its loop has ended: the report, and the store with the lock
-- released and the closing event.
abbrev pub closed : {T : Type 0} → ℕ → List Event → Progress → T → BatchResult × BatchStore T
closed count es p l =
    (finish count p, record { bat_lck = false; ledger = l; events = completed count p ∷ es })

module _ {T A : Type 0} (single : A → T → Result BatchError (OperationResult × T)) where
  unfoldable pub run_ops : BatchMode → List A → Progress → T → Result BatchError (Progress × T)
  run_ops mode [] p l = ok (p, l)
  run_ops mode (a ∷ as') p l = single a l >>= λ done. elim (note mode done.0 p).reverted [
    | true ↦ ok (note mode done.0 p, done.1)
    | false ↦ run_ops mode as' (note mode done.0 p) done.1
  ]

  unfoldable pub execute :
      BatchConfig → List A → BatchStore T → Result BatchError (BatchResult × BatchStore T)
  unfolding validate_config
  execute config ops s = do
    validate_config config
    let count = length ops
    fail_if (count == 0) empty_batch
    fail_if (ltb config.max_operations count) batch_too_large
    fail_if s.bat_lck reentrancy_detected
    out ← run_ops config.mode ops start s.ledger
    ok (closed count s.events out.0 out.1)

-- A call of another contract in a batch: fatal in atomic mode, recorded in the other.
unfoldable pub attempt :
    {T : Type 0} → BatchMode → Option T → T → Result BatchError (OperationResult × T)
attempt mode (some l') l = ok (success, l')
attempt atomic none l = trap
attempt non_atomic none l = ok (failure (code invalid_amount), l)

abbrev as_transfer : Address × ℤ → BatchTransfer
as_transfer (to, amount) = record { to = to; amount = amount }

module _ {T : Type 0} (c : Token T) where
  execute_single_transfer :
      Address → Address → BatchMode → BatchTransfer → T → Result BatchError (OperationResult × T)
  unfolding attempt
  execute_single_transfer token caller mode t l =
      attempt mode (c.transfer token caller t.to t.amount l) l

  -- One round of the loop of `execute_multi_transfer`.
  pub transfer_op :
      Address → Address → BatchMode → BatchTransfer → T → Result BatchError (OperationResult × T)
  unfolding execute_single_transfer validate_transfer
  transfer_op token caller mode t l = elim (validate_transfer t) [
    | ok _ ↦ execute_single_transfer token caller mode t l
    | err e ↦ ok (failure (batch_code e), l)
    | panic_with_error n ↦ panic_with_error n
    | trap ↦ trap
  ]

  unfoldable pub execute_multi_transfer :
      Address
      → Address
      → List BatchTransfer
      → BatchConfig
      → BatchStore T
      → Result BatchError (BatchResult × BatchStore T)
  unfolding execute
  execute_multi_transfer caller token transfers config s =
      execute (transfer_op token caller config.mode) config transfers s

  unfoldable pub multi_transfer_all :
      Address
      → Address
      → List (Address × ℤ)
      → BatchStore T
      → Result BatchError (BatchResult × BatchStore T)
  unfolding execute_multi_transfer
  multi_transfer_all caller token recipients s =
      execute_multi_transfer caller token (map as_transfer recipients) atomic_default s

-- Calls of arbitrary contracts: `invoke contract func args` is `none` where the callee fails.
module _ {T : Type 0} (invoke : Address → Symbol → List Val → T → Option T) where
  invoke_op : BatchMode → Address × Symbol × List Val → T → Result BatchError (OperationResult × T)
  unfolding attempt
  invoke_op mode (contract, func, args) l = attempt mode (invoke contract func args l) l

  unfoldable pub execute_multi_invoke :
      BatchConfig
      → List (Address × Symbol × List Val)
      → BatchStore T
      → Result BatchError (BatchResult × BatchStore T)
  unfolding execute invoke_op
  execute_multi_invoke config calls s = execute (invoke_op config.mode) config calls s

  no_args_op : BatchMode → Address × Symbol → T → Result BatchError (OperationResult × T)
  unfolding attempt
  no_args_op mode (contract, func) l = attempt mode (invoke contract func [] l) l

  unfoldable pub batch_invoke_no_args :
      BatchConfig
      → List (Address × Symbol)
      → BatchStore T
      → Result BatchError (BatchResult × BatchStore T)
  unfolding execute no_args_op
  batch_invoke_no_args config calls s = execute (no_args_op config.mode) config calls s
