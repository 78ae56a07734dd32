-- ===== src/Shared/Batch/Counts.antt =====
-- What a batch reports (shared/src/batch.rs), whatever the single operation does.
use trellis_contracts.Prelude.{
  ◌∙◌, sym, false, inr, ◌⊎◌, true, inl, ◌≤◌, ℕ, suc, ◌+◌, ◌≡◌, refl, ap, ◌&&◌, List, [], ◌∷◌, ◌++◌,
  arith, ltb, length,
}
use trellis_contracts.Host.{trap, panic_with_error, err, Result, ok}
use trellis_contracts.Shared.Batch.{
  start, BatchResult, BatchStore, BatchConfig, execute, BatchError, BatchMode, OperationResult,
  Progress, is_atomic, note, run_ops, success, failure, skipped,
}

-- Successes in a list of results, and failures.
pub successes : List OperationResult → ℕ
successes [] = 0
successes (success ∷ rs) = suc (successes rs)
successes (failure _ ∷ rs) = successes rs
successes (skipped ∷ rs) = successes rs

pub failures : List OperationResult → ℕ
failures [] = 0
failures (success ∷ rs) = failures rs
failures (failure _ ∷ rs) = suc (failures rs)
failures (skipped ∷ rs) = failures rs

length-push :
    (rs : List OperationResult) (r : OperationResult) → length (rs ++ r ∷ []) ≡ suc (length rs)
length-push [] r = refl
length-push (x ∷ rs) r = ap suc (length-push rs r)

successes-push :
    (rs : List OperationResult) (r : OperationResult)
    → successes (rs ++ r ∷ []) ≡ successes rs + successes (r ∷ [])
unfolding successes
successes-push [] r = omega arith
successes-push (x ∷ rs) r = ground (arith, successes-push rs r)

failures-push :
    (rs : List OperationResult) (r : OperationResult)
    → failures (rs ++ r ∷ []) ≡ failures rs + failures (r ∷ [])
unfolding failures
failures-push [] r = omega arith
failures-push (x ∷ rs) r = ground (arith, failures-push rs r)

-- The counters agree with the results, and in atomic mode a failure is reported as a reversal.
pub record Tallied (mode : BatchMode) (p : Progress) : Type 0 where
  pub good : p.succeeded ≡ successes p.results
  pub bad : p.failed ≡ failures p.results
  pub halts : p.reverted ≡ is_atomic mode && ltb 0 p.failed

length-note :
    (mode : BatchMode) (r : OperationResult) (p : Progress)
    → length (note mode r p).results ≡ suc (length p.results)
unfolding note
length-note mode success p = length-push p.results success
length-note mode (failure n) p = length-push p.results (failure n)
length-note mode skipped p = length-push p.results skipped

note-Tallied :
    (mode : BatchMode) (r : OperationResult) (p : Progress)
    → Tallied mode p
    → Tallied mode (note mode r p)
unfolding note successes failures
note-Tallied mode r p v = ground (arith, successes-push p.results r, failures-push p.results r)

module _ {T A : Type 0} (single : A → T → Result BatchError (OperationResult × T)) where
  -- One round of the loop of a batch that ends well.
  pub run_ops_step :
      (mode : BatchMode) (a : A) (as' : List A) (p p' : Progress) (l l' : T)
      → run_ops single mode (a ∷ as') p l ≡ ok (p', l')
      → (r : OperationResult) × (l₁ : T) × (single a l ≡ ok (r, l₁))
        × (((note mode r p).reverted ≡ true) × (p' ≡ note mode r p) × (l' ≡ l₁)
            ⊎ ((note mode r p).reverted ≡ false)
              × (run_ops single mode as' (note mode r p) l₁ ≡ ok (p', l')))
  unfolding run_ops
  run_ops_step mode a as' p p' l l' e = go (single a l) refl
    where
      go :
          (x : Result BatchError (OperationResult × T))
          → single a l ≡ x
          → (r : OperationResult) × (l₁ : T) × (single a l ≡ ok (r, l₁))
            × (((note mode r p).reverted ≡ true) × (p' ≡ note mode r p) × (l' ≡ l₁)
                ⊎ ((note mode r p).reverted ≡ false)
                  × (run_ops single mode as' (note mode r p) l₁ ≡ ok (p', l')))
      go (ok (r, l₁)) h = (r, l₁, h, ground arith)
      go (err b) h = absurd (ground arith)
      go (panic_with_error n) h = absurd (ground arith)
      go trap h = absurd (ground arith)

  run_ops-Tallied :
      (mode : BatchMode) (as' : List A) (p p' : Progress) (l l' : T)
      → Tallied mode p
      → run_ops single mode as' p l ≡ ok (p', l')
      → Tallied mode p'
  unfolding run_ops
  run_ops-Tallied mode [] p p' l l' v e = let q : p ≡ p' = ground arith in rw (← q) v
  run_ops-Tallied mode (a ∷ as') p p' l l' v e =
      let (r, l₁, h, end) = run_ops_step mode a as' p p' l l' e in
      let w = note-Tallied mode r p v in
      elim end [
        | inl (_, q, _) ↦ rw q w
        | inr (_, rest) ↦ run_ops-Tallied mode as' (note mode r p) p' l₁ l' w rest
      ]

  -- A loop that is not cut short has one result for each operation, after those that were there.
  run_ops-length :
      (mode : BatchMode) (as' : List A) (p p' : Progress) (l l' : T)
      → run_ops single mode as' p l ≡ ok (p', l')
      → (length p'.results ≤ length p.results + length as')
        × (p'.reverted ≡ false → length p'.results ≡ length p.results + length as')
  unfolding run_ops
  run_ops-length mode [] p p' l l' e = let q : p ≡ p' = ground arith in ground arith
  run_ops-length mode (a ∷ as') p p' l l' e =
      let (r, l₁, h, end) = run_ops_step mode a as' p p' l l' e in
      elim end [
        | inl (cut, q, _) ↦
            let n = length-note mode r p in rw q (omega arith, λ f. absurd (cc (sym cut ∙ f)))
        | inr (_, rest) ↦
            let n = length-note mode r p in
            let ih = run_ops-length mode as' (note mode r p) p' l₁ l' rest in
            (omega (arith, ih.0), λ f. omega (arith, ih.1 f))
      ]

  -- A batch that returns counts its results exactly, has one for each operation unless it is
  -- reported as reverted, is reported as reverted exactly when it is atomic and an operation
  -- failed, and leaves the lock released.
  pub execute_reports :
      (config : BatchConfig) (ops : List A) (s s' : BatchStore T) (r : BatchResult)
      → execute single config ops s ≡ ok (r, s')
      → (r.total ≡ length ops)
        × (r.succeeded ≡ successes r.results)
        × (r.failed ≡ failures r.results)
        × (length r.results ≤ r.total)
        × ((r.reverted ≡ true) ⊎ (length r.results ≡ r.total))
        × (r.reverted ≡ is_atomic config.mode && ltb 0 r.failed)
        × (s'.bat_lck ≡ false)
  unfolding execute successes failures
  execute_reports config ops s s' r e = go (run_ops single config.mode ops start s.ledger) refl
    where
      go :
          (x : Result BatchError (Progress × T))
          → run_ops single config.mode ops start s.ledger ≡ x
          → (r.total ≡ length ops)
            × (r.succeeded ≡ successes r.results)
            × (r.failed ≡ failures r.results)
            × (length r.results ≤ r.total)
            × ((r.reverted ≡ true) ⊎ (length r.results ≡ r.total))
            × (r.reverted ≡ is_atomic config.mode && ltb 0 r.failed)
            × (s'.bat_lck ≡ false)
      go (ok (p, l)) h =
          let w = run_ops-Tallied config.mode ops start p s.ledger l (ground arith) h in
          ground (arith, w, run_ops-length config.mode ops start p s.ledger l h)
      go (err b) h = absurd (ground arith)
      go (panic_with_error n) h = absurd (ground arith)
      go trap h = absurd (ground arith)
