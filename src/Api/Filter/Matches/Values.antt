-- ===== src/Api/Filter/Matches/Values.antt =====
-- The values of a span's attributes under one key, in src/api/filter.rs, by the key's string.
use spanfall.Prelude.{
  ℕ, ◌≡◌, refl, sym, ap, ap₂, ◌∙◌, Option, none, some, List, [], ◌∷◌, map, if◌then◌else◌, arith,
  get_elem?, Bool-cases, Option-cases, inl, inr, list_beq, list_beq_iff, nat_eq, ℕ_eq, list_eq,
  of_some,
}
use spanfall.Prelude.Map
use spanfall.Prelude.MapLaws.{none≢some}
use spanfall.Prelude.Text.{Text}
use spanfall.Types.{AttrValue, trace_id_eq}
use spanfall.Interner.{Interner}
use spanfall.Interner.Bounds.{IsValid as Interner_IsValid}
use spanfall.Trace.Spec.{key_of, value_of}
use spanfall.Trace.Attrs.{resolved, all_kept}
use spanfall.Api.Filter.{Numbers, values_of}

-- The values that a span was sent with under a key.
unfoldable pub values_named : Text → List (Text × AttrValue) → List AttrValue
values_named key [] = []
values_named key ((k, v) ∷ kvs) =
    let rest = values_named key kvs in if list_beq k key then v ∷ rest else rest

-- A key that the store has never seen has none.
abbrev pub values_under : Option Text → List (Text × AttrValue) → List AttrValue
values_under none kvs = []
values_under (some key) kvs = values_named key kvs

module _ (n : Numbers) (i : Interner) (v : Interner_IsValid i) (key : ℕ) where
  -- An id stands for one string only, and no other id does.
  same_key :
      (name : Text) (k : ℕ) (s : Text)
      → get_elem? i.values key ≡ some name
      → get_elem? i.values k ≡ some s
      → nat_eq k key ≡ list_beq s name
  same_key name k s named here = elim (Bool-cases (list_beq s name)) [
    | inl eq ↦
        let e = (list_beq_iff s name).0 eq in
        let both : k ≡ key =
          of_some (sym (v.complete s k here) ∙ ap (Map.get i.map) e ∙ v.complete name key named) in
        ground (arith, eq)
    | inr ne ↦ elim (Bool-cases (nat_eq k key)) [
      | inl eq ↦
          let e : s ≡ name =
            of_some (sym here ∙ ap (get_elem? i.values) ((ℕ_eq.beq_iff k key).0 eq) ∙ named) in
          absurd (ground (arith, (list_beq_iff s name).1 e))
      | inr other ↦ other ∙ sym ne
    ]
  ]

  values_of-named :
      (name : Text) (attrs : List (ℕ × AttrValue)) (kvs : List (Text × AttrValue))
      → get_elem? i.values key ≡ some name
      → resolved i attrs ≡ all_kept kvs
      → values_of n key (map key_of attrs) (map value_of attrs) ≡ values_named name kvs
  unfolding values_of values_named
  values_of-named name [] [] named h = refl
  values_of-named name [] (kv ∷ kvs) named h = absurd (cc)
  values_of-named name (kv ∷ attrs) [] named h = absurd (cc)
  values_of-named name ((k, a) ∷ attrs) ((s, b) ∷ kvs) named h =
      let here : get_elem? i.values k ≡ some s = cc in
      let value : a ≡ b = cc in
      let rest = values_of-named name attrs kvs named (cc) in
      rw (same_key name k s named here, value, rest)

  values_of-absent :
      (attrs : List (ℕ × AttrValue)) (kvs : List (Text × AttrValue))
      → get_elem? i.values key ≡ none
      → resolved i attrs ≡ all_kept kvs
      → values_of n key (map key_of attrs) (map value_of attrs) ≡ []
  unfolding values_of
  values_of-absent [] kvs gone h = refl
  values_of-absent (kv ∷ attrs) [] gone h = absurd (cc)
  values_of-absent ((k, a) ∷ attrs) ((s, b) ∷ kvs) gone h =
      let here : get_elem? i.values k ≡ some s = cc in
      let rest = values_of-absent attrs kvs gone (cc) in
      elim (Bool-cases (nat_eq k key)) [
        | inl eq ↦
            absurd
              (none≢some gone (ap (get_elem? i.values) (sym ((ℕ_eq.beq_iff k key).0 eq)) ∙ here))
        | inr ne ↦ rw (ne, rest)
      ]

  pub values_of-resolved :
      (attrs : List (ℕ × AttrValue)) (kvs : List (Text × AttrValue))
      → resolved i attrs ≡ all_kept kvs
      → values_of n key (map key_of attrs) (map value_of attrs)
        ≡ values_under (get_elem? i.values key) kvs
  values_of-resolved attrs kvs h = elim (Option-cases (get_elem? i.values key)) [
    | inl gone ↦ rw gone (values_of-absent attrs kvs gone h)
    | inr (name, named) ↦ rw named (values_of-named name attrs kvs named h)
  ]

pub values-shown :
    (i : Interner) (attrs : List (ℕ × AttrValue)) (kvs : List (Text × AttrValue))
    → resolved i attrs ≡ all_kept kvs
    → map value_of attrs ≡ map (λ kv. kv.1) kvs
values-shown i [] [] h = refl
values-shown i [] (kv ∷ kvs) h = absurd (cc)
values-shown i (kv ∷ attrs) [] h = absurd (cc)
values-shown i ((k, a) ∷ attrs) ((s, b) ∷ kvs) h =
    ap₂ (λ x xs. x ∷ xs) (cc) (values-shown i attrs kvs (cc))
