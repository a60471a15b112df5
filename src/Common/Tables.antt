-- ===== src/Common/Tables.antt =====
-- A database table keyed by a number, as an association list with the first match the row.
use Prim.Native.Nat.{ℕ}
use mathlib.Core.Path.{◌≡◌}
use mathlib.Core.Option.{Option, none, some}
use mathlib.Core.List.{List, [], ◌∷◌}
use native.Mathlib.Omega.{arith}
use online_observatory.Common.Tests.{◌==◌, if◌then◌else◌}

abbrev pub Table {ℓ} : Type ℓ → Type ℓ
Table V = List (ℕ × V)

module _ {ℓ} {V : Type ℓ} where
  -- `findUnique`
  abbrev pub lookup : ℕ → Table V → Option V
  lookup k [] = none
  lookup k ((j, v) ∷ t) = if k == j then some v else lookup k t

  -- `update`, which changes nothing where the key is missing
  abbrev pub adjust : ℕ → (V → V) → Table V → Table V
  adjust k f [] = []
  adjust k f ((j, v) ∷ t) = if k == j then (j, f v) ∷ t else (j, v) ∷ adjust k f t

  -- `createMany` with `skipDuplicates`, for one row
  abbrev pub create : ℕ → V → Table V → Table V
  create k v t = elim (lookup k t) [ none ↦ (k, v) ∷ t | some _ ↦ t ]

  abbrev pub map_some : (V → V) → Option V → Option V
  map_some f none = none
  map_some f (some v) = some (f v)

  abbrev pub or_else : Option V → V → V
  or_else none d = d
  or_else (some v) d = v

  pub lookup-adjust :
      (j k : ℕ) (f : V → V) (t : Table V)
      → lookup j (adjust k f t) ≡ (if j == k then map_some f (lookup j t) else lookup j t)
  lookup-adjust j k f [] = ground arith
  lookup-adjust j k f ((i, v) ∷ t) = ground (arith, lookup-adjust j k f t)

  pub lookup-create :
      (j k : ℕ) (v : V) (t : Table V)
      → lookup j (create k v t) ≡ (if j == k then some (or_else (lookup k t) v) else lookup j t)
  lookup-create j k v t = ground arith
