-- ===== src/Prelude/Map.antt =====
-- `FxHashMap` (the standard `HashMap`) as an association list. Its order stands for the map's
-- iteration order, which the program may not rely on.
use mathlib.Core.Path.{◌≡◌, refl}
use mathlib.Core.Bool.{Bool}
use mathlib.Core.Option.{Option, none, some}
use mathlib.Core.List.{List, [], ◌∷◌}
use native.Mathlib.Omega.{arith}
use spanfall.Prelude.Tests.{Eq, is_some, if◌then◌else◌, eq_refl}

abbrev pub Map {ℓ κ} : Type ℓ → Type κ → Type (ℓ ⊔ κ)
Map K V = List (K × V)

module _ {ℓ κ} {K : Type ℓ} {V : Type κ} ⦃e : Eq K⦄ where
  abbrev pub get : Map K V → K → Option V
  get [] k = none
  get ((j, v) ∷ m) k = if e.beq j k then some v else get m k

  abbrev pub contains_key : Map K V → K → Bool
  contains_key m k = is_some (get m k)

  unfoldable pub insert : Map K V → K → V → Map K V
  insert [] k v = (k, v) ∷ []
  insert ((j, w) ∷ m) k v = if e.beq j k then (k, v) ∷ m else (j, w) ∷ insert m k v

  unfoldable pub remove : Map K V → K → Map K V
  remove [] k = []
  remove ((j, w) ∷ m) k = let rest = remove m k in if e.beq j k then rest else (j, w) ∷ rest

  pub get-insert :
      (m : Map K V) (k j : K) (v : V)
      → get (insert m k v) j ≡ (if e.beq k j then some v else get m j)
  unfolding insert
  get-insert [] k j v = refl
  get-insert ((i, w) ∷ m) k j v =
      ground (arith, e.beq_iff k j, e.beq_iff i k, e.beq_iff i j, get-insert m k j v)

  pub get-insert_self : (m : Map K V) (k : K) (v : V) → get (insert m k v) k ≡ some v
  get-insert_self m k v = rw (get-insert m k k v, eq_refl k)

  pub get-remove :
      (m : Map K V) (k j : K) → get (remove m k) j ≡ (if e.beq k j then none else get m j)
  unfolding remove
  get-remove [] k j = ground arith
  get-remove ((i, w) ∷ m) k j =
      ground (arith, e.beq_iff k j, e.beq_iff i k, e.beq_iff i j, get-remove m k j)
