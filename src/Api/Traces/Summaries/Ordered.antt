-- ===== src/Api/Traces/Summaries/Ordered.antt =====
-- The ordered set of service names that `list_traces` of src/api/traces.rs gathers.
use spanfall.Prelude.{
  ℕ, ◌≡◌, refl, Bool, true, false, ◌||◌, Option, none, some, List, [], ◌∷◌, arith, ok,
  get_elem?_of_lt, list_beq, list_beq_iff, list_eq, ℕ_eq, Bool-cases, inl, inr,
}
use spanfall.Prelude.Text.{Text}
use spanfall.Prelude.Strings.{text_lt}
use spanfall.Interner
use spanfall.Store.{Store, service_name}
use spanfall.Store.Valid.{IdWithin, service_count, row_service}
use spanfall.Api.Traces.{set_insert, service_of_span}

-- A service id within the table stands for its name.
pub service_of_span_lem :
    (s : Store) (o : Option ℕ)
    → IdWithin (service_count s) o
    → service_of_span s o ≡ ok (row_service s o)
unfolding service_of_span service_name Interner.get
service_of_span_lem s none w = refl
service_of_span_lem s (some id) w =
    let (v, e) = get_elem?_of_lt s.service_interner.values id w in rw e

-- Each text after `x` is greater than the one before it.
abbrev pub Ascends : Text → List Text → Type 0
Ascends x [] = Unit
Ascends x (y ∷ ys) = (text_lt x y ≡ true) × Ascends y ys

abbrev pub IsAscending : List Text → Type 0
IsAscending [] = Unit
IsAscending (x ∷ xs) = Ascends x xs

abbrev pub elem : Text → List Text → Bool
elem z [] = false
elem z (x ∷ xs) = list_beq x z || elem z xs

text_lt-total : (x y : Text) → list_beq x y ≡ false → text_lt x y ≡ false → text_lt y x ≡ true
unfolding text_lt
text_lt-total [] [] ne ge = ground arith
text_lt-total [] (d ∷ y) ne ge = ground arith
text_lt-total (c ∷ x) [] ne ge = refl
text_lt-total (c ∷ x) (d ∷ y) ne ge = ground (arith, text_lt-total x y)

set_insert-Ascends :
    (z x : Text) (ys : List Text) → text_lt z x ≡ true → Ascends z ys → Ascends z (set_insert x ys)
unfolding set_insert
set_insert-Ascends z x [] lt a = (lt, tt)
set_insert-Ascends z x (y ∷ ys) lt a = elim (Bool-cases (list_beq x y)) [
  | inl same ↦ rw same a
  | inr other ↦ elim (Bool-cases (text_lt x y)) [
    | inl less ↦ rw (other, less) (lt, (less, a.1))
    | inr more ↦
        rw (other, more) (a.0, set_insert-Ascends y x ys (text_lt-total x y other more) a.1)
  ]
]

pub set_insert-IsAscending :
    (x : Text) (ys : List Text) → IsAscending ys → IsAscending (set_insert x ys)
unfolding set_insert
set_insert-IsAscending x [] a = tt
set_insert-IsAscending x (y ∷ ys) a = elim (Bool-cases (list_beq x y)) [
  | inl same ↦ rw same a
  | inr other ↦ elim (Bool-cases (text_lt x y)) [
    | inl less ↦ rw (other, less) (less, a)
    | inr more ↦ rw (other, more) (set_insert-Ascends y x ys (text_lt-total x y other more) a)
  ]
]

pub elem-set_insert :
    (z x : Text) (ys : List Text) → elem z (set_insert x ys) ≡ (list_beq x z || elem z ys)
unfolding set_insert
elem-set_insert z x [] = refl
elem-set_insert z x (y ∷ ys) = ground (arith, list_beq_iff x y, elem-set_insert z x ys)
