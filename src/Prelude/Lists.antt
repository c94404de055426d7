-- ===== src/Prelude/Lists.antt =====
-- Lists measured and indexed by native numbers, under the library's names.
use Prim.Native.Nat.{ℕ, zero, suc, ◌+◌, ◌<◌}
use mathlib.Core.Path.{◌≡◌, refl, ap}
use mathlib.Core.Logic.{◌≢◌}
use mathlib.Core.List.{List, [], ◌∷◌, ◌++◌, map}
use mathlib.Core.Option.{Option, none, some}
use native.Mathlib.Omega.{arith}

module _ {ℓ} {A : Type ℓ} where
  abbrev pub length : List A → ℕ
  length [] = 0
  length (x ∷ xs) = suc (length xs)

  abbrev pub get_elem? : List A → ℕ → Option A
  get_elem? [] i = none
  get_elem? (x ∷ xs) zero = some x
  get_elem? (x ∷ xs) (suc i) = get_elem? xs i

  abbrev pub set : List A → ℕ → A → List A
  set [] i v = []
  set (x ∷ xs) zero v = v ∷ xs
  set (x ∷ xs) (suc i) v = x ∷ set xs i v

  abbrev pub take : ℕ → List A → List A
  take zero xs = []
  take (suc n) [] = []
  take (suc n) (x ∷ xs) = x ∷ take n xs

  abbrev pub drop : ℕ → List A → List A
  drop zero xs = xs
  drop (suc n) [] = []
  drop (suc n) (x ∷ xs) = drop n xs

  -- `P` of every element.
  abbrev pub All {κ} : (A → Type κ) → List A → Type κ
  All P [] = Unit
  All P (x ∷ xs) = P x × All P xs

  pub length-append : (xs ys : List A) → length (xs ++ ys) ≡ length xs + length ys
  length-append [] ys = omega arith
  length-append (x ∷ xs) ys = omega (arith, length-append xs ys)

module _ {ℓ} {A : Type ℓ} where
  pub length-set : (xs : List A) (i : ℕ) (v : A) → length (set xs i v) ≡ length xs
  length-set [] i v = refl
  length-set (x ∷ xs) zero v = refl
  length-set (x ∷ xs) (suc i) v = ap suc (length-set xs i v)

  pub length-map {κ} : {B : Type κ} (f : A → B) (xs : List A) → length (map f xs) ≡ length xs
  length-map f [] = refl
  length-map f (x ∷ xs) = ap suc (length-map f xs)

  pub map-set {κ} :
      {B : Type κ} (f : A → B) (xs : List A) (i : ℕ) (v : A)
      → set (map f xs) i (f v) ≡ map f (set xs i v)
  map-set f [] i v = refl
  map-set f (x ∷ xs) zero v = refl
  map-set f (x ∷ xs) (suc i) v = ap (◌∷◌ (f x)) (map-set f xs i v)

  -- A write that `f` does not see.
  pub map-set_same {κ} :
      {B : Type κ} (f : A → B) (xs : List A) (i : ℕ) (u v : A)
      → get_elem? xs i ≡ some u
      → f v ≡ f u
      → map f (set xs i v) ≡ map f xs
  map-set_same f [] i u v h e = refl
  map-set_same f (x ∷ xs) zero u v h e = ground arith
  map-set_same f (x ∷ xs) (suc i) u v h e = ap (◌∷◌ (f x)) (map-set_same f xs i u v h e)

  pub get_elem?-map {κ} :
      {B : Type κ} (f : A → B) (xs : List A) (i : ℕ) {v : A}
      → get_elem? xs i ≡ some v
      → get_elem? (map f xs) i ≡ some (f v)
  get_elem?-map f [] i h = ground arith
  get_elem?-map f (x ∷ xs) zero h = ground arith
  get_elem?-map f (x ∷ xs) (suc i) h = get_elem?-map f xs i h

  pub get_elem?_lt : (xs : List A) (i : ℕ) {v : A} → get_elem? xs i ≡ some v → i < length xs
  get_elem?_lt [] i h = ground arith
  get_elem?_lt (x ∷ xs) zero h = omega arith
  get_elem?_lt (x ∷ xs) (suc i) h = omega (arith, get_elem?_lt xs i h)

  pub get_elem?_of_lt : (xs : List A) (i : ℕ) → i < length xs → (v : A) × (get_elem? xs i ≡ some v)
  get_elem?_of_lt [] i h = elim h [ ]
  get_elem?_of_lt (x ∷ xs) zero h = (x, refl)
  get_elem?_of_lt (x ∷ xs) (suc i) h = get_elem?_of_lt xs i (omega arith)

  pub get_elem?-set_self :
      (xs : List A) (i : ℕ) (v : A) → i < length xs → get_elem? (set xs i v) i ≡ some v
  get_elem?-set_self [] i v h = elim h [ ]
  get_elem?-set_self (x ∷ xs) zero v h = refl
  get_elem?-set_self (x ∷ xs) (suc i) v h = get_elem?-set_self xs i v (omega arith)

  pub get_elem?-set_ne :
      (xs : List A) {i j : ℕ} (v : A) → i ≢ j → get_elem? (set xs i v) j ≡ get_elem? xs j
  get_elem?-set_ne [] v h = refl
  get_elem?-set_ne (x ∷ xs) {i = zero} {j = zero} v h = absurd (h refl)
  get_elem?-set_ne (x ∷ xs) {i = zero} {j = suc j} v h = refl
  get_elem?-set_ne (x ∷ xs) {i = suc i} {j = zero} v h = refl
  get_elem?-set_ne (x ∷ xs) {i = suc i} {j = suc j} v h = get_elem?-set_ne xs v (λ e. h (ap suc e))

  pub get_elem?-append_left :
      (xs ys : List A) (i : ℕ) {v : A} → get_elem? xs i ≡ some v → get_elem? (xs ++ ys) i ≡ some v
  get_elem?-append_left [] ys i h = ground arith
  get_elem?-append_left (x ∷ xs) ys zero h = h
  get_elem?-append_left (x ∷ xs) ys (suc i) h = get_elem?-append_left xs ys i h

  pub get_elem?-append_end : (xs : List A) (v : A) → get_elem? (xs ++ v ∷ []) (length xs) ≡ some v
  get_elem?-append_end [] v = refl
  get_elem?-append_end (x ∷ xs) v = get_elem?-append_end xs v

  pub set-append :
      (xs : List A) (x v : A) (ys : List A) → set (xs ++ x ∷ ys) (length xs) v ≡ xs ++ v ∷ ys
  set-append [] x v ys = refl
  set-append (y ∷ xs) x v ys = ap (◌∷◌ y) (set-append xs x v ys)

  pub take-append : (xs ys : List A) → take (length xs) (xs ++ ys) ≡ xs
  take-append [] ys = refl
  take-append (x ∷ xs) ys = ap (◌∷◌ x) (take-append xs ys)

  pub drop-append : (xs ys : List A) → drop (length xs) (xs ++ ys) ≡ ys
  drop-append [] ys = refl
  drop-append (x ∷ xs) ys = drop-append xs ys

pub All-append {ℓ κ} :
    {A : Type ℓ} (P : A → Type κ) (xs ys : List A) → All P xs → All P ys → All P (xs ++ ys)
All-append P [] ys hx hy = hy
All-append P (x ∷ xs) ys hx hy = (hx.0, All-append P xs ys hx.1 hy)
