-- ===== src/Trace/Upsert.antt =====
-- `upsert` of Trace/Spec, case by case: a span that is new, and one that is there.
use spanfall.Prelude.{
  ℕ, zero, suc, ◌≡◌, refl, ap, Option, none, some, List, [], ◌∷◌, ◌++◌, map, arith, Bool-cases,
  Option-cases, inl, inr, ◌==◌, get_elem?, set,
}
use spanfall.Types.{SpanId, AttrValue, span_id_eq, span_id_beq_iff}
use spanfall.Trace.{NewSpan}
use spanfall.Trace.Spec.{Row, overwritten, row_of, upsert, position}

abbrev pub ids_of : List Row → List SpanId
ids_of rows = map (λ r. r.span_id) rows

abbrev pub attrs_of : List Row → List (List (ℕ × AttrValue))
attrs_of rows = map (λ r. r.attributes) rows

pub upsert-new :
    (rows : List Row) (span : NewSpan) (service : Option ℕ) (attrs : List (ℕ × AttrValue))
    → position span.span_id (ids_of rows) ≡ none
    → upsert rows span service attrs ≡ rows ++ row_of span service attrs ∷ []
unfolding upsert position
upsert-new [] span service attrs h = refl
upsert-new (r ∷ rows) span service attrs h = ground (arith, upsert-new rows span service attrs)

pub record Overwrites (rows : List Row) (span : NewSpan) (service : Option ℕ)
    (attrs : List (ℕ × AttrValue)) (i : ℕ) : Type 0 where
  pub old : Row
  pub here : get_elem? rows i ≡ some old
  pub same_id : old.span_id ≡ span.span_id
  pub result : upsert rows span service attrs ≡ set rows i (overwritten old span service attrs)

pub upsert-old :
    (rows : List Row) (span : NewSpan) (service : Option ℕ) (attrs : List (ℕ × AttrValue)) (i : ℕ)
    → position span.span_id (ids_of rows) ≡ some i
    → Overwrites rows span service attrs i
unfolding upsert position
upsert-old [] span service attrs i h = absurd (ground arith)
upsert-old (r ∷ rows) span service attrs i h = elim (Bool-cases (r.span_id == span.span_id)) [
  | inl eq ↦
      let first : i ≡ zero = ground arith in
      rw first (record {
        old = r;
        here = refl;
        same_id = (span_id_beq_iff r.span_id span.span_id).0 eq;
        result = rw eq;
      })
  | inr ne ↦ elim (Option-cases (position span.span_id (ids_of rows))) [
    | inl missing ↦ absurd (ground arith)
    | inr (j, found) ↦
        let later : i ≡ suc j = ground arith in
        let o = upsert-old rows span service attrs j found in
        rw later (record {
          old = o.old;
          here = o.here;
          same_id = o.same_id;
          result = rw ne (ap (◌∷◌ r) o.result);
        })
  ]
]
