-- ===== src/AccessControl/Hierarchy.antt =====
-- The walks up the role hierarchy, against the ancestor relation.
use trellis_contracts.Prelude.{
  ℕ, zero, suc, ◌+◌, ◌≤◌, ◌<◌, ◌≡◌, refl, ◌↔◌, inl, inr, Bool, true, false, Option, some, List, [],
  ◌∷◌, arith, ◌==◌, Bool-cases, Option-cases,
}
use trellis_contracts.AccessControl.{
  AccessControl, flagged, has_ancestor, has_role_recursive, get_role_ancestors,
}

-- `a` is reached from `r` by one or more steps to the parent.
pub data Ancestor (parents : ℕ → Option ℕ) (a : ℕ) : ℕ → Type 0 where
  near : (r : ℕ) → parents r ≡ some a → Ancestor parents a r
  far : (r p : ℕ) → parents r ≡ some p → Ancestor parents a p → Ancestor parents a r

pub Ancestor-snoc :
    {parents : ℕ → Option ℕ} {a b r : ℕ}
    → Ancestor parents a r
    → parents a ≡ some b
    → Ancestor parents b r
Ancestor-snoc {a = a} (near r e) h = far r a e (near a h)
Ancestor-snoc (far r p e x) h = far r p e (Ancestor-snoc x h)

pub has_ancestor-true :
    (n : ℕ) (parents : ℕ → Option ℕ) (r a : ℕ)
    → has_ancestor n parents r a ≡ some true
    → Ancestor parents a r
unfolding has_ancestor
has_ancestor-true zero parents r a h = absurd (cc)
has_ancestor-true (suc n) parents r a h = elim (Option-cases (parents r)) [
  | inl top ↦ absurd (ground arith)
  | inr (p, up) ↦ elim (Bool-cases (p == a)) [
    | inl same ↦ near r (ground arith)
    | inr other ↦ far r p up (has_ancestor-true n parents p a (ground arith))
  ]
]

pub has_ancestor-false :
    (n : ℕ) (parents : ℕ → Option ℕ) (r a : ℕ)
    → has_ancestor n parents r a ≡ some false
    → ¬ Ancestor parents a r
unfolding has_ancestor
has_ancestor-false zero parents r a h x = cc
has_ancestor-false (suc n) parents r a h (near _ e) = ground arith
has_ancestor-false (suc n) parents r a h (far _ p e x) = elim (Bool-cases (p == a)) [
  | inl same ↦ ground arith
  | inr other ↦ has_ancestor-false n parents p a (ground arith) x
]

-- Ranks that grow towards the root and are bounded: there is no cycle, and no endless walk.
pub record IsRanked (parents : ℕ → Option ℕ) : Type 0 where
  pub rank : ℕ → ℕ
  pub bound : ℕ
  pub grows : (r p : ℕ) → parents r ≡ some p → rank r < rank p
  pub bounded : (r : ℕ) → rank r ≤ bound

pub Ancestor-grows :
    {parents : ℕ → Option ℕ} (v : IsRanked parents) {a r : ℕ}
    → Ancestor parents a r
    → v.rank r < v.rank a
Ancestor-grows v {a} (near r e) = v.grows r a e
Ancestor-grows v {a} (far r p e x) = omega (arith, v.grows r p e, Ancestor-grows v x)

module _ {parents : ℕ → Option ℕ} (v : IsRanked parents) where
  pub has_ancestor_returns :
      (n r a : ℕ) → v.bound < n + v.rank r → (b : Bool) × (has_ancestor n parents r a ≡ some b)
  unfolding has_ancestor
  has_ancestor_returns zero r a h = absurd (omega (arith, v.bounded r))
  has_ancestor_returns (suc n) r a h = elim (Option-cases (parents r)) [
    | inl top ↦ (false, rw (top, has_ancestor))
    | inr (p, up) ↦ elim (Bool-cases (p == a)) [
      | inl same ↦ (true, rw (up, same, has_ancestor))
      | inr other ↦
          rw (up, other, has_ancestor) (has_ancestor_returns n p a (omega (arith, v.grows r p up)))
    ]
  ]

  pub get_role_ancestors_returns :
      (n r : ℕ)
      → v.bound < n + v.rank r
      → (chain : List ℕ) × (get_role_ancestors n parents r ≡ some chain)
  unfolding get_role_ancestors
  get_role_ancestors_returns zero r h = absurd (omega (arith, v.bounded r))
  get_role_ancestors_returns (suc n) r h = elim (Option-cases (parents r)) [
    | inl top ↦ ([], rw (top, get_role_ancestors))
    | inr (p, up) ↦
        let (chain, e) = get_role_ancestors_returns n p (omega (arith, v.grows r p up)) in
        (p ∷ chain, rw (up, e, get_role_ancestors))
  ]

pub has_role_returns :
    (s : AccessControl) (v : IsRanked s.role_parent) (n r u : ℕ)
    → v.bound < n + v.rank r
    → (b : Bool) × (has_role_recursive n s r u ≡ some b)
unfolding has_role_recursive
has_role_returns s v zero r u h = absurd (omega (arith, v.bounded r))
has_role_returns s v (suc n) r u h = elim (Bool-cases (flagged (s.role_members r) u)) [
  | inl direct ↦ (true, rw (direct, has_role_recursive))
  | inr indirect ↦ elim (Option-cases (s.role_parent r)) [
    | inl top ↦ (false, rw (indirect, top, has_role_recursive))
    | inr (p, up) ↦
        rw (indirect, up, has_role_recursive)
          (has_role_returns s v n p u (omega (arith, v.grows r p up)))
  ]
]

-- Who holds a role: its members, and those who hold its parent.
pub data Holds (s : AccessControl) (user : ℕ) : ℕ → Type 0 where
  direct : (role : ℕ) → flagged (s.role_members role) user ≡ true → Holds s user role
  inherited :
      (role parent : ℕ) → s.role_parent role ≡ some parent → Holds s user parent → Holds s user role

has_role_true :
    (n : ℕ) (s : AccessControl) (r u : ℕ) → has_role_recursive n s r u ≡ some true → Holds s u r
unfolding has_role_recursive
has_role_true zero s r u h = absurd (cc)
has_role_true (suc n) s r u h = elim (Bool-cases (flagged (s.role_members r) u)) [
  | inl member ↦ direct r member
  | inr other ↦ elim (Option-cases (s.role_parent r)) [
    | inl top ↦ absurd (ground arith)
    | inr (p, up) ↦ inherited r p up (has_role_true n s p u (ground arith))
  ]
]

has_role_false :
    (n : ℕ) (s : AccessControl) (r u : ℕ) → has_role_recursive n s r u ≡ some false → ¬ Holds s u r
unfolding has_role_recursive
has_role_false zero s r u h x = cc
has_role_false (suc n) s r u h (direct _ e) = ground arith
has_role_false (suc n) s r u h (inherited _ p e x) = has_role_false n s p u (ground arith) x

-- Whenever has_role returns, it returns whether the user is a member of the role or of one of its
-- ancestors.
pub has_role_iff :
    (n : ℕ) (s : AccessControl) (role user : ℕ) (b : Bool)
    → has_role_recursive n s role user ≡ some b
    → (b ≡ true) ↔ Holds s user role
has_role_iff n s role user true e = (λ _. has_role_true n s role user e, λ _. refl)
has_role_iff n s role user false e =
    (λ h. absurd (cc), λ x. absurd (has_role_false n s role user e x))
