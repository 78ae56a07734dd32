-- ===== src/AccessControl/Histories.antt =====
-- What holds after any sequence of invocations: the hierarchy has no cycle, so that every walk up
-- it ends, and the super-admin stays an admin.
use trellis_contracts.Host.{expect, fail_if, bind_then, ok, Env}
use trellis_contracts.Prelude.{
  not, [], lookup-insert, insert, lookup, List, ℕ, ◌+◌, ◌≡◌, ◌≢◌, ◌⊎◌, inl, inr, Bool, true, false,
  ◌||◌, Option, some, arith, ◌==◌, if◌then◌else◌, Bool-cases, unwrap_or, update,
}
use trellis_contracts.AccessControl.{
  AccessControl, is_admin, deployed, flagged, gate, ensure_role_exists, role_exists, initialize,
  add_admin, remove_admin, create_role, set_role_parent, grant_role, revoke_role, has_ancestor,
  has_role_recursive, get_role_ancestors, role_not_found, self_reference, cycle_detected,
}
use trellis_contracts.AccessControl.Hierarchy.{
  Ancestor, near, Ancestor-snoc, Ancestor-grows, IsRanked, has_ancestor-true, has_ancestor-false,
  has_ancestor_returns, get_role_ancestors_returns, has_role_returns,
}
use trellis_contracts.AccessControl.Calls.{
  Call, invoke, run, run_keeps, initialize_call, add_admin_call, remove_admin_call, create_call,
  parent_call, grant_call, revoke_call,
}

module _ {parents : ℕ → Option ℕ} (v : IsRanked parents) (parent : ℕ) where
  -- The roles from `parent` upwards, which get a rank above all others.
  lifted : ℕ → Bool
  lifted r = r == parent || unwrap_or (has_ancestor (v.bound + 1) parents parent r) false

  lifted-Ancestor : (r : ℕ) → Ancestor parents r parent → lifted r ≡ true
  unfolding lifted
  lifted-Ancestor r x =
      let (b, e) = has_ancestor_returns v (v.bound + 1) parent r (omega arith) in
      elim (Bool-cases b) [
        | inl yes' ↦ ground arith
        | inr no' ↦ absurd (has_ancestor-false (v.bound + 1) parents parent r (rw (← no') e) x)
      ]

  lifted_self : lifted parent ≡ true
  unfolding lifted
  lifted_self = ground arith

  lifted_cases : (r : ℕ) → lifted r ≡ true → (r ≡ parent) ⊎ Ancestor parents r parent
  unfolding lifted
  lifted_cases r h = elim (Bool-cases (r == parent)) [
    | inl same ↦ inl (ground arith)
    | inr other ↦ inr (has_ancestor-true (v.bound + 1) parents parent r (ground arith))
  ]

  lifted_up : (r p : ℕ) → parents r ≡ some p → lifted r ≡ true → lifted p ≡ true
  lifted_up r p up h = elim (lifted_cases r h) [
    | inl same ↦ lifted-Ancestor p (near parent (rw same at up))
    | inr x ↦ lifted-Ancestor p (Ancestor-snoc x up)
  ]

  -- A new edge from `role` to `parent`, which `role` is no ancestor of.
  update-IsRanked :
      (role : ℕ)
      → role ≢ parent
      → ¬ Ancestor parents role parent
      → IsRanked (update parents role parent)
  update-IsRanked role ne free =
      let low : lifted role ≡ false = elim (Bool-cases (lifted role)) [
        | inl high ↦ elim (lifted_cases role high) [
          | inl same ↦ absurd (ne same)
          | inr x ↦ absurd (free x)
        ]
        | inr below ↦ below
      ] in
      let top : lifted parent ≡ true = lifted_self in
      record {
        rank = λ r. if lifted r then v.rank r + v.bound + 1 else v.rank r;
        bound = v.bound + v.bound + 1;
        grows = λ r p e. elim (Bool-cases (r == role)) [
          | inl same ↦
              let q : r ≡ role = ground arith in ground (arith, v.bounded r, v.bounded role)
          | inr other ↦ ground (arith, v.grows r p, lifted_up r p, v.bounded r)
        ];
        bounded = λ r. ground (arith, v.bounded r);
      }

-- Calls that leave the hierarchy alone.
same_IsRanked : {m m' : ℕ → Option ℕ} → m' ≡ m → IsRanked m → IsRanked m'
same_IsRanked e v = rw e v

set_role_parent-IsRanked :
    (n : ℕ) (env : Env) (c role parent : ℕ) (s s' : AccessControl)
    → IsRanked s.role_parent
    → set_role_parent n env c role parent s ≡ ok s'
    → IsRanked s'.role_parent
unfolding set_role_parent ensure_role_exists
set_role_parent-IsRanked n env c role parent s s' v e = bind_then (gate env c s) _ e λ _ _ e₁.
    bind_then (fail_if (not (role_exists role s)) role_not_found) _ e₁ λ _ _ e₂.
      bind_then (fail_if (not (role_exists parent s)) role_not_found) _ e₂ λ _ _ e₃.
        bind_then (fail_if (role == parent) self_reference) _ e₃ λ _ other e₄.
          bind_then (expect (has_ancestor n s.role_parent parent role)) _ e₄ λ b found e₅.
            bind_then (fail_if b cycle_detected) _ e₅ λ _ free e₆.
              let no' : has_ancestor n s.role_parent parent role ≡ some false = ground arith in
              let q : s'.role_parent ≡ update s.role_parent role parent = ground arith in
              rw q (
                update-IsRanked v parent role (ground arith)
                  (has_ancestor-false n s.role_parent parent role no'))

invoke-IsRanked :
    (n : ℕ) (env : Env) (c : Call) (s s' : AccessControl)
    → IsRanked s.role_parent
    → invoke n env c s ≡ ok s'
    → IsRanked s'.role_parent
unfolding invoke initialize add_admin remove_admin create_role grant_role revoke_role
invoke-IsRanked n env (parent_call c r p) s s' v e = set_role_parent-IsRanked n env c r p s s' v e
invoke-IsRanked n env (initialize_call a) s s' v e = same_IsRanked (ground arith) v
invoke-IsRanked n env (add_admin_call c a) s s' v e =
    bind_then (gate env c s) _ e λ _ _ e₁. same_IsRanked (ground arith) v
invoke-IsRanked n env (remove_admin_call c a) s s' v e =
    bind_then (gate env c s) _ e λ _ _ e₁. same_IsRanked (ground arith) v
invoke-IsRanked n env (create_call c r) s s' v e =
    bind_then (gate env c s) _ e λ _ _ e₁. same_IsRanked (ground arith) v
invoke-IsRanked n env (grant_call c r u) s s' v e =
    bind_then (gate env c s) _ e λ _ _ e₁. same_IsRanked (ground arith) v
invoke-IsRanked n env (revoke_call c r u) s s' v e =
    bind_then (gate env c s) _ e λ _ _ e₁. same_IsRanked (ground arith) v

-- A fresh contract has no hierarchy.
deployed-IsRanked : IsRanked deployed.role_parent
deployed-IsRanked = record {
  rank = λ _. 0;
  bound = 0;
  grows = λ r p e. absurd (cc);
  bounded = λ r. omega arith;
}

run-IsRanked : (cs : List (ℕ × Env × Call)) → IsRanked (run cs deployed).role_parent
run-IsRanked cs =
    run_keeps (λ s. IsRanked s.role_parent) (λ n env c s s' h e. invoke-IsRanked n env c s s' h e)
      cs deployed deployed-IsRanked

-- After every history of a deployed access-control contract no role is its own ancestor.
pub run_acyclic :
    (cs : List (ℕ × Env × Call)) (role : ℕ) → ¬ Ancestor (run cs deployed).role_parent role role
run_acyclic cs role x = omega (arith, Ancestor-grows (run-IsRanked cs) x)

-- After every history of a deployed access-control contract some budget of steps is enough,
-- whatever is added to it, for every check of a role, every search for an ancestor and every
-- listing of ancestors to return.
pub run_walks_end :
    (cs : List (ℕ × Env × Call))
    → (n : ℕ) × ((k role user : ℕ)
        → ((b : Bool) × (has_role_recursive (n + k) (run cs deployed) role user ≡ some b))
          × ((b : Bool) × (has_ancestor (n + k) (run cs deployed).role_parent role user ≡ some b))
          × ((chain : List ℕ) × (get_role_ancestors (n + k) (run cs deployed).role_parent role
                ≡ some chain)))
run_walks_end cs =
    let v = run-IsRanked cs in
    (
      v.bound + 1,
      λ k role user. (
        has_role_returns (run cs deployed) v (v.bound + 1 + k) role user (omega arith),
        has_ancestor_returns v (v.bound + 1 + k) role user (omega arith),
        get_role_ancestors_returns v (v.bound + 1 + k) role (omega arith),
      ),
    )

-- The super-admin, once set, is flagged as an admin.
abbrev pub IsRooted : AccessControl → Type 0
IsRooted s = (a : ℕ) → s.super_key ≡ some a → flagged s.admins a ≡ true

invoke-IsRooted :
    (n : ℕ) (env : Env) (c : Call) (s s' : AccessControl)
    → IsRooted s
    → invoke n env c s ≡ ok s'
    → IsRooted s'
unfolding invoke initialize add_admin remove_admin create_role set_role_parent grant_role
    revoke_role lookup insert
invoke-IsRooted n env (initialize_call a) s s' v e x h = ground arith
invoke-IsRooted n env (add_admin_call c a) s s' v e x h =
    bind_then (gate env c s) _ e
      λ _ _ e₁. ground (arith, v x, lookup-insert a x true (unwrap_or s.admins []))
invoke-IsRooted n env (remove_admin_call c a) s s' v e x h = bind_then (gate env c s) _ e λ _ _ e₁.
    bind_then (expect s.super_key) _ e₁
      λ root set e₂. ground (arith, v x, lookup-insert a x false (unwrap_or s.admins []))
invoke-IsRooted n env (create_call c r) s s' v e x h =
    bind_then (gate env c s) _ e λ _ _ e₁. ground (arith, v x)
invoke-IsRooted n env (grant_call c r u) s s' v e x h =
    bind_then (gate env c s) _ e λ _ _ e₁. ground (arith, v x)
invoke-IsRooted n env (revoke_call c r u) s s' v e x h =
    bind_then (gate env c s) _ e λ _ _ e₁. ground (arith, v x)
invoke-IsRooted n env (parent_call c r p) s s' v e x h = bind_then (gate env c s) _ e λ _ _ e₁.
    bind_then (ensure_role_exists r s) _ e₁ λ _ _ e₂.
      bind_then (ensure_role_exists p s) _ e₂ λ _ _ e₃.
        bind_then (fail_if (r == p) self_reference) _ e₃ λ _ _ e₄.
          bind_then (expect (has_ancestor n s.role_parent p r)) _ e₄
            λ b found e₅. bind_then (fail_if b cycle_detected) _ e₅ λ _ _ e₆. ground (arith, v x)

-- After every history of a deployed access-control contract its super-admin is an admin.
pub run_super_admin :
    (cs : List (ℕ × Env × Call)) (who : ℕ)
    → (run cs deployed).super_key ≡ some who
    → is_admin who (run cs deployed) ≡ true
unfolding is_admin
run_super_admin cs who h =
    run_keeps IsRooted (λ n env c s s' v e. invoke-IsRooted n env c s s' v e) cs deployed
      (λ a x. absurd (cc)) who h
