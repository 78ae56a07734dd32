-- ===== src/Registry/Entries.antt =====
-- What the registry keeps for good: immutable metadata, and histories without repetition that
-- name every version in use.
use trellis_contracts.Prelude.{
  ℕ, ◌≡◌, refl, inl, inr, true, false, not, ◌&&◌, ◌||◌, Option, none, some, List, [], ◌∷◌, ◌++◌,
  arith, ◌==◌, if◌then◌else◌, Bool-cases, unwrap_or, FinMap, lookup, insert, lookup-insert,
}
use trellis_contracts.Host.{Env, Symbol, fail_if, bind_then, commit, commit_keeps, ok}
use trellis_contracts.Shared.Errors.{immutable_entry}
use trellis_contracts.Shared.Auth.{require_admin}
use trellis_contracts.Registry.{
  Registry, ContractRegistration, MetadataEntry, Call, initialize_call, contract_call,
  metadata_call, invoke, run, initialize, set_contract, set_metadata, record_version, any_version,
  last_is, is_fixed,
}

-- An immutable entry survives one call.
invoke_immutable :
    (env : Env) (c : Call) (name : Symbol) (r : MetadataEntry) (s s' : Registry)
    → lookup name s.metadata ≡ some r
    → r.immutable ≡ true
    → invoke env c s ≡ ok s'
    → lookup name s'.metadata ≡ some r
unfolding invoke initialize set_contract set_metadata
invoke_immutable env (initialize_call a) name r s s' h f e = ground arith
invoke_immutable env (contract_call c n a v) name r s s' h f e =
    bind_then (require_admin env s.auth c) _ e λ _ _ e₁. ground arith
invoke_immutable env (metadata_call c n u x i v) name r s s' h f e =
    bind_then (require_admin env s.auth c) _ e λ _ _ e₁.
      bind_then (fail_if (is_fixed (lookup n s.metadata)) immutable_entry) _ e₁ λ _ free e₂.
        let entry : MetadataEntry = record {
          uri = u;
          hash = x;
          immutable = i;
          updated_at = env.timestamp;
          schema_version = v;
        } in
        ground (arith, lookup-insert n name entry s.metadata)

-- Metadata that is stored as immutable stays as it is through every sequence of invocations of the
-- registry.
pub run_immutable :
    (cs : List (Env × Call)) (name : Symbol) (r : MetadataEntry) (s : Registry)
    → lookup name s.metadata ≡ some r
    → r.immutable ≡ true
    → lookup name (run cs s).metadata ≡ some r
unfolding run
run_immutable [] name r s h f = h
run_immutable ((env, c) ∷ cs) name r s h f =
    run_immutable cs name r (commit s (invoke env c s))
      (commit_keeps (λ t. lookup name t.metadata ≡ some r) (invoke env c s) s h
        λ s' e. invoke_immutable env c name r s s' h f e)
      f

-- No version twice.
abbrev pub IsDistinct : List ℕ → Type 0
IsDistinct [] = Unit {0}
IsDistinct (v ∷ vs) = (any_version v vs ≡ false) × IsDistinct vs

any_version-push :
    (v w : ℕ) (xs : List ℕ) → any_version v (xs ++ w ∷ []) ≡ (any_version v xs || w == v)
any_version-push v w [] = ground arith
any_version-push v w (x ∷ xs) = ground (arith, any_version-push v w xs)

push-IsDistinct :
    (w : ℕ) (xs : List ℕ) → IsDistinct xs → any_version w xs ≡ false → IsDistinct (xs ++ w ∷ [])
push-IsDistinct w [] d f = (refl, tt)
push-IsDistinct w (x ∷ xs) d f = ground (arith, push-IsDistinct w xs (d.1), any_version-push x w xs)

last_is-any_version : (v : ℕ) (xs : List ℕ) → last_is v xs ≡ true → any_version v xs ≡ true
last_is-any_version v [] h = absurd (cc)
last_is-any_version v (x ∷ []) h = ground arith
last_is-any_version v (x ∷ y ∷ xs) h = ground (arith, last_is-any_version v (y ∷ xs))

-- The versions recorded for a name.
abbrev pub versions : Symbol → Registry → List ℕ
versions name s = unwrap_or (lookup name s.history) []

-- The version of a registered contract is in its history.
abbrev pub IsRecorded : List ℕ → Option ContractRegistration → Type 0
IsRecorded vs none = Unit {0}
IsRecorded vs (some r) = any_version r.version vs ≡ true

-- Every history is free of repetitions and names the version in use.
pub record IsHistoric (s : Registry) : Type 0 where
  pub distinct : (name : Symbol) → IsDistinct (versions name s)
  pub recorded : (name : Symbol) → IsRecorded (versions name s) (lookup name s.contracts)

-- What recording a version makes of the versions of a name.
record_version_lem :
    (name version n : ℕ) (m : FinMap (List ℕ))
    → let old = unwrap_or (lookup n m) [] in
      unwrap_or (lookup n (record_version name version m)) []
      ≡ (if n == name && not (any_version version old) then old ++ version ∷ [] else old)
unfolding record_version
record_version_lem name version n m =
    let old = unwrap_or (lookup name m) [] in
    ground (arith, lookup-insert name n (old ++ version ∷ []) m, last_is-any_version version old)

set_contract-IsHistoric :
    (env : Env) (c name a v : ℕ) (s s' : Registry)
    → IsHistoric s
    → set_contract env c name a v s ≡ ok s'
    → IsHistoric s'
unfolding set_contract
set_contract-IsHistoric env c name a v s s' h e =
    bind_then (require_admin env s.auth c) _ e λ _ _ e₁.
      let r : ContractRegistration = record { address = a; version = v } in
      let hist : s'.history ≡ record_version name v s.history = ground arith in
      let ctr : s'.contracts ≡ insert name r s.contracts = ground arith in
      record {
        distinct = λ n.
            rw (hist, record_version_lem name v n s.history)
              (ground (arith, h.distinct n, push-IsDistinct v (versions n s) (h.distinct n)));
        recorded = λ n.
            rw
              (hist, ctr, record_version_lem name v n s.history, lookup-insert name n r s.contracts)
              (elim (Bool-cases (n == name)) [
                | inl same ↦ rw same (ground (arith, any_version-push v v (versions n s)))
                | inr other ↦ rw other (h.recorded n)
              ]);
      }

-- Calls that leave the contracts and their histories alone.
same_IsHistoric :
    (s s' : Registry)
    → IsHistoric s
    → s'.contracts ≡ s.contracts
    → s'.history ≡ s.history
    → IsHistoric s'
same_IsHistoric s s' h c v = record { distinct = rw v h.distinct; recorded = rw (c, v) h.recorded }

invoke-IsHistoric :
    (env : Env) (c : Call) (s s' : Registry) → IsHistoric s → invoke env c s ≡ ok s' → IsHistoric s'
unfolding invoke initialize set_metadata
invoke-IsHistoric env (contract_call c n a v) s s' h e =
    set_contract-IsHistoric env c n a v s s' h e
invoke-IsHistoric env (initialize_call a) s s' h e =
    same_IsHistoric s s' h (ground arith) (ground arith)
invoke-IsHistoric env (metadata_call c n u x i v) s s' h e =
    bind_then (require_admin env s.auth c) _ e λ _ _ e₁.
      bind_then (fail_if (is_fixed (lookup n s.metadata)) immutable_entry) _ e₁
        λ _ _ e₂. same_IsHistoric s s' h (ground arith) (ground arith)

-- After every sequence of invocations of the registry each version history has no version twice
-- and contains the version of the registered contract, if so before.
pub run-IsHistoric : (cs : List (Env × Call)) (s : Registry) → IsHistoric s → IsHistoric (run cs s)
unfolding run
run-IsHistoric [] s h = h
run-IsHistoric ((env, c) ∷ cs) s h =
    run-IsHistoric cs _
      (commit_keeps IsHistoric (invoke env c s) s h λ s' e. invoke-IsHistoric env c s s' h e)
