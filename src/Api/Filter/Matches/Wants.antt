-- ===== src/Api/Filter/Matches/Wants.antt =====
-- The tests of src/api/filter.rs on attribute values decide what a query asks of them.
use spanfall.Prelude.{
  ℕ, ◌≡◌, ◌≢◌, inl, inr, refl, ap, ◌∙◌, Bool, true, false, ◌||◌, some, List, [], ◌∷◌, map, All,
  arith, list_beq, list_beq_iff, ℕ_eq, list_eq, Bool-cases,
}
use spanfall.Prelude.Text.{Text, text}
use spanfall.Types.{AttrValue, str, int, double, bool}
use spanfall.Api.Filter.{
  Op, eq, ne, gt, gte, lt, lte, Numbers, cmp, int_eq, attr_eq, attr_num, attr_ordered, attr_matches,
  attr_contains, any, values_match,
}
use spanfall.Api.Filter.Matches.Values.{values_named}
use spanfall.Api.Filter.Matches.Meaning.{
  Any, FloatCompares, IsEqual, IsOrdered, IsWanted, HasWanted, Mentions,
}
use spanfall.Api.Filter.Matches.Decided.{
  Decides, decides-not, decides-or, decides_as, int_eq_iff, contains-Occurs, is_ok_and-decides,
}

module _ (n : Numbers) where
  cmp-FloatCompares :
      (op : Op) (a b : ℕ) → Decides (cmp n.f64_eq n.f64_lt n.f64_le op a b) (FloatCompares n op a b)
  unfolding cmp
  cmp-FloatCompares eq a b = ((λ h. h), λ h. h)
  cmp-FloatCompares ne a b = ground arith
  cmp-FloatCompares gt a b = ((λ h. h), λ h. h)
  cmp-FloatCompares gte a b = ((λ h. h), λ h. h)
  cmp-FloatCompares lt a b = ((λ h. h), λ h. h)
  cmp-FloatCompares lte a b = ((λ h. h), λ h. h)

  attr_eq-IsEqual : (v : AttrValue) (raw : Text) → Decides (attr_eq n v raw) (IsEqual n raw v)
  unfolding attr_eq
  attr_eq-IsEqual (str s) raw = list_beq_iff s raw
  attr_eq-IsEqual (int i) raw =
      decides_as _
        (is_ok_and-decides (n.parse_i64 raw) (λ v. int_eq v i) (λ v. v ≡ i) (λ v. int_eq_iff v i))
        (λ (v, e, h). e ∙ ap some h) (λ h. (i, h, refl))
  attr_eq-IsEqual (double d) raw =
      is_ok_and-decides (n.parse_f64 raw) (λ v. n.f64_eq v d) (λ v. n.f64_eq v d ≡ true)
        (λ v. ((λ h. h), λ h. h))
  attr_eq-IsEqual (bool true) raw = list_beq_iff raw (text "true")
  attr_eq-IsEqual (bool false) raw = list_beq_iff raw (text "false")

  attr_ordered-IsOrdered :
      (op : Op) (v : AttrValue) (raw : Text)
      → Decides (attr_ordered n op v raw) (IsOrdered n op raw v)
  unfolding attr_ordered attr_num
  attr_ordered-IsOrdered op (str s) raw = ((λ h. absurd (ground arith)), λ h. absurd h)
  attr_ordered-IsOrdered op (bool b) raw = ((λ h. absurd (ground arith)), λ h. absurd h)
  attr_ordered-IsOrdered op (int i) raw =
      is_ok_and-decides (n.parse_f64 raw) _ (FloatCompares n op (n.i64_as_f64 i))
        (cmp-FloatCompares op (n.i64_as_f64 i))
  attr_ordered-IsOrdered op (double d) raw =
      is_ok_and-decides (n.parse_f64 raw) _ (FloatCompares n op d) (cmp-FloatCompares op d)

  attr_matches-IsWanted :
      (op : Op) (v : AttrValue) (raw : Text)
      → Decides (attr_matches n op v raw) (IsWanted n op raw v)
  unfolding attr_matches
  attr_matches-IsWanted eq v raw = attr_eq-IsEqual v raw
  attr_matches-IsWanted ne v raw = decides-not _ (attr_eq-IsEqual v raw)
  attr_matches-IsWanted gt v raw = attr_ordered-IsOrdered gt v raw
  attr_matches-IsWanted gte v raw = attr_ordered-IsOrdered gte v raw
  attr_matches-IsWanted lt v raw = attr_ordered-IsOrdered lt v raw
  attr_matches-IsWanted lte v raw = attr_ordered-IsOrdered lte v raw

  pub attr_contains-Mentions :
      (v : AttrValue) (needle : Text) → Decides (attr_contains n v needle) (Mentions n needle v)
  unfolding attr_contains
  attr_contains-Mentions (str s) needle = contains-Occurs s needle
  attr_contains-Mentions (int i) needle = contains-Occurs (n.i64_to_string i) needle
  attr_contains-Mentions (double d) needle = contains-Occurs (n.f64_to_string d) needle
  attr_contains-Mentions (bool true) needle = contains-Occurs (text "true") needle
  attr_contains-Mentions (bool false) needle = contains-Occurs (text "false") needle

  pub any-Any :
      (test : AttrValue → Bool) (P : AttrValue → Type 0)
      → ((v : AttrValue) → Decides (test v) (P v))
      → (kvs : List (Text × AttrValue))
      → Decides (any n test (map (λ kv. kv.1) kvs)) (Any (λ kv. P kv.1) kvs)
  any-Any test P d [] = ((λ h. absurd (ground arith)), λ h. absurd h)
  any-Any test P d (kv ∷ kvs) = decides-or _ _ (d kv.1) (any-Any test P d kvs)

  any-named :
      (key : Text) (test : AttrValue → Bool) (P : AttrValue → Type 0)
      → ((v : AttrValue) → Decides (test v) (P v))
      → (kvs : List (Text × AttrValue))
      → Decides (any n test (values_named key kvs)) (Any (λ kv. (kv.0 ≡ key) × P kv.1) kvs)
  unfolding values_named
  any-named key test P d [] = ((λ h. absurd (ground arith)), λ h. absurd h)
  any-named key test P d ((k, v) ∷ kvs) =
      let rest = any-named key test P d kvs in
      elim (Bool-cases (list_beq k key)) [
        | inl same ↦
            let e = (list_beq_iff k key).0 same in
            rw same (
              decides_as _ (decides-or _ _ (d v) rest)
                (λ h. elim h [ inl p ↦ inl (e, p) | inr q ↦ inr q ])
                (λ h. elim h [ inl p ↦ inl p.1 | inr q ↦ inr q ]))
        | inr other ↦ rw other (
            decides_as _ rest inr (λ h. elim h [
              | inl p ↦ absurd (let q = (list_beq_iff k key).1 p.0 in ground arith)
              | inr q ↦ q
            ]))
      ]

  is_nil : List AttrValue → Bool
  is_nil [] = true
  is_nil (v ∷ vs) = false

  is_nil-named :
      (key : Text) (kvs : List (Text × AttrValue))
      → Decides (is_nil (values_named key kvs)) (All (λ kv. kv.0 ≢ key) kvs)
  unfolding values_named is_nil
  is_nil-named key [] = ((λ h. tt), λ h. refl)
  is_nil-named key ((k, v) ∷ kvs) = elim (Bool-cases (list_beq k key)) [
    | inl same ↦
        rw same ((λ h. absurd (ground arith)), λ h. absurd (h.0 ((list_beq_iff k key).0 same)))
    | inr other ↦ rw other (
        decides_as _ (is_nil-named key kvs)
          (λ h. ((λ e. let q = (list_beq_iff k key).1 e in ground arith), h)) (λ h. h.1))
  ]

  values_match-ne :
      (raw : Text) (vs : List AttrValue)
      → values_match n ne raw vs ≡ (is_nil vs || any n (λ v. attr_matches n ne v raw) vs)
  unfolding values_match is_nil
  values_match-ne raw [] = refl
  values_match-ne raw (v ∷ vs) = refl

  values_match-any :
      (op : Op) (raw : Text) (vs : List AttrValue)
      → op ≢ ne
      → values_match n op raw vs ≡ any n (λ v. attr_matches n op v raw) vs
  unfolding values_match
  values_match-any op raw (v ∷ vs) h = refl
  values_match-any ne raw [] h = absurd (h refl)
  values_match-any eq raw [] h = refl
  values_match-any gt raw [] h = refl
  values_match-any gte raw [] h = refl
  values_match-any lt raw [] h = refl
  values_match-any lte raw [] h = refl

  module _ (key raw : Text) (kvs : List (Text × AttrValue)) where
    some-IsWanted :
        (op : Op)
        → Decides
            (any n (λ v. attr_matches n op v raw) (values_named key kvs))
            (Any (λ kv. (kv.0 ≡ key) × IsWanted n op raw kv.1) kvs)
    some-IsWanted op =
        any-named key (λ v. attr_matches n op v raw) (IsWanted n op raw)
          (λ v. attr_matches-IsWanted op v raw) kvs

    unless_ne :
        (op : Op)
        → op ≢ ne
        → Decides
            (values_match n op raw (values_named key kvs))
            (Any (λ kv. (kv.0 ≡ key) × IsWanted n op raw kv.1) kvs)
    unless_ne op h = rw (values_match-any op raw (values_named key kvs) h) (some-IsWanted op)

    pub values_match-HasWanted :
        (op : Op)
        → Decides (values_match n op raw (values_named key kvs)) (HasWanted n key op raw kvs)
    values_match-HasWanted ne =
        rw (values_match-ne raw (values_named key kvs))
          (decides-or _ _ (is_nil-named key kvs) (some-IsWanted ne))
    values_match-HasWanted eq = unless_ne eq (λ h. absurd (ground arith))
    values_match-HasWanted gt = unless_ne gt (λ h. absurd (ground arith))
    values_match-HasWanted gte = unless_ne gte (λ h. absurd (ground arith))
    values_match-HasWanted lt = unless_ne lt (λ h. absurd (ground arith))
    values_match-HasWanted lte = unless_ne lte (λ h. absurd (ground arith))
