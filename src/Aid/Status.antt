-- ===== src/Aid/Status.antt =====
-- The life cycle of an aid: pending, then settled or refunded once, and nothing after that.
use trellis_contracts.Aid.Solvency.{configures_same}
use trellis_contracts.Host.Token.{Token}
use trellis_contracts.Prelude.{
  unwrap_or, ◌∷◌, [], List, inr, arith, inl, ◌==◌, Bool-cases, ℕ, ◌≡◌, refl, ◌≢◌, Option, none,
  some, FinMap, lookup, insert, lookup-insert,
}
use trellis_contracts.Host.{Env}
use trellis_contracts.Aid.{
  AidStatus, AidRecord, Aid, new_aid, create_aid, claim_aid, refund_aid, pending, settled, refunded,
}
use trellis_contracts.Aid.Calls.{
  keep_invoke, run, Call, invoke, committed_ok, second-committed, create_call, claim_call,
  refund_call,
}
use trellis_contracts.Aid.Escrow.{create_aid_effect, claim_aid_effect, refund_aid_effect}

-- How one call can change the entry of an aid: not at all, by creation, or by being closed with
-- nothing but the status changed.
pub data Moves : Option AidRecord → Option AidRecord → Type 0 where
  stays : (o : Option AidRecord) → Moves o o
  opens : (r : AidRecord) → r.status ≡ pending → Moves none (some r)
  closes :
      (r : AidRecord) (st : AidStatus)
      → r.status ≡ pending
      → st ≢ pending
      → Moves (some r) (some (record r { status = st }))

insert-Moves :
    (i k : ℕ) (r : AidRecord) (m : FinMap AidRecord)
    → Moves (lookup k m) (some r)
    → Moves (lookup i m) (lookup i (insert k r m))
insert-Moves i k r m h = rw (lookup-insert k i r m) (elim (Bool-cases (i == k)) [
  | inl same ↦ rw same (let q : i ≡ k = ground arith in rw q h)
  | inr other ↦ rw other (stays _)
])

-- A closed entry only stays as it is.
Moves-closed :
    {o o' : Option AidRecord}
    → Moves o o'
    → (r : AidRecord) → o ≡ some r
    → r.status ≢ pending
    → o' ≡ some r
Moves-closed (stays o) r e closed = e
Moves-closed (opens q a) r e closed = absurd (cc)
Moves-closed (closes q st a d) r e closed = absurd (closed (ground arith))

module _ {T : Type 0} (c : Token T) where
  -- Every successful call of the aid contract moves every entry along its life cycle: untouched,
  -- created as pending, or closed with nothing but the status changed.
  pub invoke-Moves :
      (env : Env) (i : ℕ) (k : Call) (s s' : Aid T)
      → invoke c env k s ≡ some s'
      → Moves (lookup i s.aid) (lookup i s'.aid)
  unfolding invoke
  invoke-Moves env i (create_call d r x t) s s' e =
      let (n, h) = second-committed (create_aid c env d r x t s) e in
      let (token, _, _, _, _, free, _, after) = create_aid_effect c env d r x t n s s' h in
      rw after (insert-Moves i n (new_aid n d r token x t) s.aid (rw free (opens _ refl)))
  invoke-Moves env i (claim_call j r) s s' e =
      let (q, _, found, a, _, after) =
        claim_aid_effect c env j r s s' (committed_ok (claim_aid c env j r s) e) in
      rw after (
        insert-Moves i j (record q { status = settled }) s.aid (rw found (closes q settled a (cc))))
  invoke-Moves env i (refund_call j) s s' e =
      let (q, _, found, a, _, after) =
        refund_aid_effect c env j s s' (committed_ok (refund_aid c env j s) e) in
      rw after (
        insert-Moves i j (record q { status = refunded }) s.aid
          (rw found (closes q refunded a (cc))))
  invoke-Moves env i k s s' e = rw ((configures_same c env k s s' refl e).0) (stays _)

  -- Once an aid is settled or refunded, no sequence of invocations changes its record again.
  pub run_closed :
      (i : ℕ) (ks : List (Env × Call)) (s : Aid T) (r : AidRecord)
      → lookup i s.aid ≡ some r
      → r.status ≢ pending
      → lookup i (run c ks s).aid ≡ some r
  unfolding run
  run_closed i [] s r found closed = found
  run_closed i ((env, k) ∷ ks) s r found closed =
      run_closed i ks (unwrap_or (invoke c env k s) s) r
        (keep_invoke (λ t. lookup i t.aid ≡ some r) (invoke c env k s) s found
          λ s' e. Moves-closed (invoke-Moves env i k s s' e) r found closed)
        closed
