-- ===== src/Prelude/Maps.antt =====
-- Finite maps keyed by numbers whose entries are summed: accounts and balances.
use Prim.Native.Nat.{ℕ}
use mathlib.Core.Path.{◌≡◌, refl}
use mathlib.Core.Option.{Option, none, some}
use mathlib.Core.List.{List, [], ◌∷◌}
use native.Mathlib.Omega.{arith}
use trellis_contracts.Prelude.Tests.{◌==◌, if◌then◌else◌, unwrap_or}
use trellis_contracts.Prelude.Int.{ℤ, pos, ◌+ℤ◌, ◌≤ℤ◌, int_laws}

abbrev pub FinMap {ℓ} : Type ℓ → Type ℓ
FinMap V = List (ℕ × V)

module _ {ℓ} {V : Type ℓ} where
  unfoldable pub lookup : ℕ → FinMap V → Option V
  lookup k [] = none
  lookup k ((j, v) ∷ m) = if k == j then some v else lookup k m

  unfoldable pub insert : ℕ → V → FinMap V → FinMap V
  insert k v [] = (k, v) ∷ []
  insert k v ((j, w) ∷ m) = if k == j then (k, v) ∷ m else (j, w) ∷ insert k v m

  pub lookup-insert :
      (k j : ℕ) (v : V) (m : FinMap V)
      → lookup j (insert k v m) ≡ (if j == k then some v else lookup j m)
  unfolding lookup insert
  lookup-insert k j v [] = refl
  lookup-insert k j v ((i, w) ∷ m) = ground (arith, lookup-insert k j v m)

module _ {V : Type 0} (weight : V → ℤ) where
  abbrev pub weigh : Option V → ℤ
  weigh none = pos 0
  weigh (some v) = weight v

  -- The sum of all entries, each counted by its weight.
  unfoldable pub total : FinMap V → ℤ
  total [] = pos 0
  total ((_, v) ∷ m) = weight v +ℤ total m

  -- Writing one entry changes the sum by the difference of its weights; a missing entry counts 0.
  pub total-insert :
      (k : ℕ) (v : V) (m : FinMap V)
      → total (insert k v m) +ℤ weigh (lookup k m) ≡ total m +ℤ weight v
  unfolding lookup insert total
  total-insert k v [] = omega int_laws
  total-insert k v ((i, w) ∷ m) = grind (int_laws, total-insert k v m)

-- A balance weighs itself.
abbrev pub itself : ℤ → ℤ
itself x = x

-- No entry is negative.
abbrev pub AllNonneg : FinMap ℤ → Type 0
AllNonneg [] = Unit {0}
AllNonneg ((_, v) ∷ m) = (pos 0 ≤ℤ v) × AllNonneg m

pub insert-AllNonneg :
    (k : ℕ) (v : ℤ) (m : FinMap ℤ) → AllNonneg m → pos 0 ≤ℤ v → AllNonneg (insert k v m)
unfolding insert
insert-AllNonneg k v [] h p = (p, tt)
insert-AllNonneg k v ((i, w) ∷ m) h p = ground (arith, insert-AllNonneg k v m h.1 p)

pub total_nonneg : (m : FinMap ℤ) → AllNonneg m → pos 0 ≤ℤ total itself m
unfolding total
total_nonneg [] h = omega arith
total_nonneg ((_, v) ∷ m) h = let ih = total_nonneg m h.1 in omega int_laws

-- An entry is at most the sum.
pub lookup-le-total :
    (k : ℕ) (m : FinMap ℤ)
    → AllNonneg m
    → (pos 0 ≤ℤ unwrap_or (lookup k m) (pos 0)) × (unwrap_or (lookup k m) (pos 0) ≤ℤ total itself m)
unfolding lookup total
lookup-le-total k [] h = (omega arith, omega arith)
lookup-le-total k ((i, v) ∷ m) h = grind (int_laws, lookup-le-total k m h.1, total_nonneg m h.1)

pub total-insert-itself :
    (k : ℕ) (v : ℤ) (m : FinMap ℤ)
    → total itself (insert k v m) +ℤ unwrap_or (lookup k m) (pos 0) ≡ total itself m +ℤ v
total-insert-itself k v m = grind (int_laws, total-insert itself k v m)
