-- ===== src/Trace/Readers.antt =====
-- What the accessors of src/store/trace.rs return on a trace that stores a sequence of spans.
use spanfall.Prelude.{
  ℕ, zero, suc, ◌≡◌, inl, inr, ap, ◌∙◌, Option, some, List, [], ◌∷◌, map, length, arith, Bool-cases,
  Option-cases, get_elem?, get_elem?-map, length-map, ok, at, at_lem, ◌==◌,
}
use spanfall.Types.{SpanId, span_id_eq, span_id_beq_iff}
use spanfall.Trace.{
  Trace, span_count, is_orphan, parent_idx, name, span_id, service_name_id, start_time_unix_nano,
  end_time_unix_nano, status_message, status_code, unknown_service, attributes, attribute_keys,
}
use spanfall.Trace.Spec.{Row, position, parent_of, orphan_of, Refines, key_of, value_of}
use spanfall.Trace.Csr.{attributes_lem, attribute_keys_lem}
use spanfall.Trace.Upsert.{ids_of, attrs_of}

-- Every accessor at one index.
pub record Reads (t : Trace) (rows : List Row) (i : ℕ) (r : Row) : Type 0 where
  pub span_id : span_id t i ≡ ok r.span_id
  pub name : name t i ≡ ok r.name
  pub start : start_time_unix_nano t i ≡ ok r.start_time_unix_nano
  pub end : end_time_unix_nano t i ≡ ok r.end_time_unix_nano
  pub message : status_message t i ≡ ok r.status_message
  pub code : status_code t i ≡ ok r.status_code
  pub unknown : unknown_service t i ≡ ok r.unknown_service
  pub service : service_name_id t i ≡ ok r.service_name_id
  pub parent : parent_idx t i ≡ ok (parent_of (ids_of rows) r.parent_span_id)
  pub orphan : is_orphan t i ≡ ok (orphan_of (ids_of rows) r.parent_span_id)
  pub keys : attribute_keys t i ≡ ok (map key_of r.attributes)
  pub values : attributes t i ≡ ok (map value_of r.attributes)

at_column {ℓ} :
    {A : Type ℓ} (f : Row → A) (rows : List Row) (column : List A) (i : ℕ) {r : Row}
    → column ≡ map f rows
    → get_elem? rows i ≡ some r
    → at column i ≡ ok (f r)
at_column f rows column i col here =
    at_lem column i (ap (λ c. get_elem? c i) col ∙ get_elem?-map f rows i here)

-- On a trace that stores `rows` no accessor panics at the index of a row, and each returns what the
-- row says, the parent and the orphan flag as all the ids of the trace determine them.
pub Refines-Reads :
    (t : Trace) (rows : List Row) (i : ℕ) (r : Row)
    → Refines t rows
    → get_elem? rows i ≡ some r
    → Reads t rows i r
unfolding span_id name start_time_unix_nano end_time_unix_nano status_message status_code
    unknown_service service_name_id parent_idx is_orphan
Refines-Reads t rows i r ref here = record {
  span_id = at_column (λ r. r.span_id) rows t.span_ids i ref.span_ids here;
  name = at_column (λ r. r.name) rows t.names i ref.names here;
  start = at_column (λ r. r.start_time_unix_nano) rows t.start_time_unix_nano i ref.starts here;
  end = at_column (λ r. r.end_time_unix_nano) rows t.end_time_unix_nano i ref.ends here;
  message = at_column (λ r. r.status_message) rows t.status_message i ref.messages here;
  code = at_column (λ r. r.status_code) rows t.status_code i ref.codes here;
  unknown = at_column (λ r. r.unknown_service) rows t.unknown_service i ref.unknowns here;
  service = at_column (λ r. r.service_name_id) rows t.service_name_id i ref.services here;
  parent =
      at_lem t.parent_idx i (ap (λ c. get_elem? c i) parents ∙ linked (parent_of (ids_of rows)));
  orphan = at_lem t.orphan i (ap (λ c. get_elem? c i) orphans ∙ linked (orphan_of (ids_of rows)));
  keys = attribute_keys_lem t (attrs_of rows) i r.attributes ref.csr attrs_here;
  values = attributes_lem t (attrs_of rows) i r.attributes ref.csr attrs_here;
}
  where
    attrs_here : get_elem? (attrs_of rows) i ≡ some r.attributes
    attrs_here = get_elem?-map (λ r. r.attributes) rows i here

    parents_col : List (Option SpanId)
    parents_col = map (λ r. r.parent_span_id) rows

    parents : t.parent_idx ≡ map (parent_of (ids_of rows)) parents_col
    parents = ref.links.parent ∙ ap (λ ids. map (parent_of ids) parents_col) ref.span_ids

    orphans : t.orphan ≡ map (orphan_of (ids_of rows)) parents_col
    orphans = ref.links.orphan ∙ ap (λ ids. map (orphan_of ids) parents_col) ref.span_ids

    linked :
        {A : Type 0} (f : Option SpanId → A)
        → get_elem? (map f parents_col) i ≡ some (f r.parent_span_id)
    linked f = get_elem?-map f parents_col i (get_elem?-map (λ r. r.parent_span_id) rows i here)

pub span_count_lem : (t : Trace) (rows : List Row) → Refines t rows → span_count t ≡ length rows
unfolding span_count
span_count_lem t rows ref = ap length ref.span_ids ∙ length-map (λ r. r.span_id) rows

pub position-get_elem? :
    (s : SpanId) (ids : List SpanId) (j : ℕ) → position s ids ≡ some j → get_elem? ids j ≡ some s
unfolding position
position-get_elem? s [] j h = ground arith
position-get_elem? s (x ∷ ids) j h = elim (Bool-cases (x == s)) [
  | inl eq ↦ let first : j ≡ zero = ground arith in rw first (ap some ((span_id_beq_iff x s).0 eq))
  | inr ne ↦ elim (Option-cases (position s ids)) [
    | inl missing ↦ absurd (ground arith)
    | inr (i, found) ↦
        let later : j ≡ suc i = ground arith in rw later (position-get_elem? s ids i found)
  ]
]
