-- ===== src/Trace/Overwrite.antt =====
-- The two branches of `Trace::insert` (src/store/trace.rs) on a trace that stores rows: the columns
-- after `overwrite_at`, and those after a span is pushed and linked.
use spanfall.Prelude.{
  ℕ, zero, ◌+◌, ◌<◌, ◌^◌, ◌≡◌, refl, sym, ap, ◌∙◌, Option, none, some, List, [], ◌∷◌, ◌++◌, map,
  length, arith, get_elem?, set, length-append, length-map, map-append, map-set, map-set_same,
  get_elem?_lt, ok, assign, assign_lem,
}
use spanfall.Types.{AttrValue, span_id_eq}
use spanfall.Trace.{Trace, NewSpan}
use spanfall.Trace.Insert.{overwrite_at, push_span}
use spanfall.Trace.Spec.{
  Row, overwritten, row_of, position, Refines, attr_count, flatten, offsets_from, key_of, value_of,
}
use spanfall.Trace.Csr.{flatten-append, push-Csr, Replaces}
use spanfall.Trace.Links.{linked, linked-Links}
use spanfall.Trace.Upsert.{attrs_of}

-- The trace after `overwrite_at`.
abbrev pub overwritten_trace : Trace → ℕ → NewSpan → Option ℕ → List (List (ℕ × AttrValue)) → Trace
overwritten_trace t i span service rows' = record t {
  names = set t.names i span.name;
  start_time_unix_nano = set t.start_time_unix_nano i span.start_time_unix_nano;
  end_time_unix_nano = set t.end_time_unix_nano i span.end_time_unix_nano;
  status_message = set t.status_message i span.status_message;
  status_code = set t.status_code i span.status_code;
  unknown_service = set t.unknown_service i span.unknown_service;
  service_name_id = set t.service_name_id i service;
  attr_keys = map key_of (flatten rows');
  attr_values = map value_of (flatten rows');
  attr_offsets = offsets_from zero rows';
}

-- A column that holds `f` of the rows is long enough to be written at a row's place.
assign_column {ℓ} :
    {A : Type ℓ} (f : Row → A) (rows : List Row) (column : List A) (i : ℕ) (v : A) {old : Row}
    → column ≡ map f rows
    → get_elem? rows i ≡ some old
    → assign column i v ≡ ok (set column i v)
assign_column f rows column i v col here =
    assign_lem column i v
      (omega (arith, ap length col, length-map f rows, get_elem?_lt rows i here))

set_column {ℓ} :
    {A : Type ℓ} (f : Row → A) (rows : List Row) (column : List A) (i : ℕ) (r : Row)
    → column ≡ map f rows
    → set column i (f r) ≡ map f (set rows i r)
set_column f rows column i r col = rw col (map-set f rows i r)

same_column {ℓ} :
    {A : Type ℓ} (f : Row → A) (rows : List Row) (column : List A) (i : ℕ) (r : Row) {old : Row}
    → column ≡ map f rows
    → get_elem? rows i ≡ some old
    → f r ≡ f old
    → column ≡ map f (set rows i r)
same_column f rows column i r {old} col here e = col ∙ sym (map-set_same f rows i old r here e)

push_column {ℓ} :
    {A : Type ℓ} (f : Row → A) (rows : List Row) (column : List A) (r : Row)
    → column ≡ map f rows
    → column ++ f r ∷ [] ≡ map f (rows ++ r ∷ [])
push_column f rows column r col = rw col (sym (map-append f rows (r ∷ [])))

module _ (t : Trace) (rows : List Row) (ref : Refines t rows) (span : NewSpan) (service : Option ℕ)
    (attrs : List (ℕ × AttrValue)) where
  pub overwrite_at_lem :
      (i : ℕ) (old : Row)
      → get_elem? rows i ≡ some old
      → Replaces t i attrs (set (attrs_of rows) i attrs)
      → overwrite_at t i span service attrs
        ≡ ok (overwritten_trace t i span service (set (attrs_of rows) i attrs))
  unfolding overwrite_at
  overwrite_at_lem i old here p = rw (
    assign_column (λ r. r.name) rows t.names i span.name ref.names here,
    assign_column (λ r. r.start_time_unix_nano) rows t.start_time_unix_nano i
        span.start_time_unix_nano ref.starts here,
    assign_column (λ r. r.end_time_unix_nano) rows t.end_time_unix_nano i span.end_time_unix_nano
        ref.ends here,
    assign_column (λ r. r.status_message) rows t.status_message i span.status_message ref.messages
        here,
    assign_column (λ r. r.status_code) rows t.status_code i span.status_code ref.codes here,
    assign_column (λ r. r.unknown_service) rows t.unknown_service i span.unknown_service
        ref.unknowns here,
    assign_column (λ r. r.service_name_id) rows t.service_name_id i service ref.services here,
    p.at_start,
    p.at_end,
    p.keys,
    p.values,
    p.offsets,
  )

  pub overwritten-Refines :
      (i : ℕ) (old : Row)
      → get_elem? rows i ≡ some old
      → attr_count (set rows i (overwritten old span service attrs)) < 2 ^ 32
      → Refines
          (overwritten_trace t i span service (set (attrs_of rows) i attrs))
          (set rows i (overwritten old span service attrs))
  overwritten-Refines i old here small =
      let new = overwritten old span service attrs in
      let same_parents = map-set_same (λ r. r.parent_span_id) rows i old new here refl in
      let new_attrs = map-set (λ r. r.attributes) rows i new in
      record {
        span_ids = same_column (λ r. r.span_id) rows t.span_ids i new ref.span_ids here refl;
        names = set_column (λ r. r.name) rows t.names i new ref.names;
        starts =
            set_column (λ r. r.start_time_unix_nano) rows t.start_time_unix_nano i new ref.starts;
        ends = set_column (λ r. r.end_time_unix_nano) rows t.end_time_unix_nano i new ref.ends;
        messages = set_column (λ r. r.status_message) rows t.status_message i new ref.messages;
        codes = set_column (λ r. r.status_code) rows t.status_code i new ref.codes;
        unknowns = set_column (λ r. r.unknown_service) rows t.unknown_service i new ref.unknowns;
        services = set_column (λ r. r.service_name_id) rows t.service_name_id i new ref.services;
        links = rw same_parents (record {
          index = ref.links.index;
          parent = ref.links.parent;
          orphan = ref.links.orphan;
          pending = ref.links.pending;
          as_many = ref.links.as_many;
        });
        csr =
            rw (← new_attrs)
              (record { keys = refl; values = refl; offsets = refl; small = rw new_attrs small });
      }

  abbrev pub linked_trace : position span.span_id t.span_ids ≡ none → Trace
  linked_trace absent =
      linked t (map (λ r. r.parent_span_id) rows) span service attrs ref.links absent

  pub linked-Refines :
      (absent : position span.span_id t.span_ids ≡ none)
      → attr_count (rows ++ row_of span service attrs ∷ []) < 2 ^ 32
      → Refines (linked_trace absent) (rows ++ row_of span service attrs ∷ [])
  unfolding push_span
  linked-Refines absent small =
      let new = row_of span service attrs in
      let l =
        linked-Links t (map (λ r. r.parent_span_id) rows) span service attrs ref.links absent in
      record {
        span_ids = push_column (λ r. r.span_id) rows t.span_ids new ref.span_ids;
        names = push_column (λ r. r.name) rows t.names new ref.names;
        starts =
            push_column (λ r. r.start_time_unix_nano) rows t.start_time_unix_nano new ref.starts;
        ends = push_column (λ r. r.end_time_unix_nano) rows t.end_time_unix_nano new ref.ends;
        messages = push_column (λ r. r.status_message) rows t.status_message new ref.messages;
        codes = push_column (λ r. r.status_code) rows t.status_code new ref.codes;
        unknowns = push_column (λ r. r.unknown_service) rows t.unknown_service new ref.unknowns;
        services = push_column (λ r. r.service_name_id) rows t.service_name_id new ref.services;
        links = rw (map-append (λ r. r.parent_span_id) rows (new ∷ [])) l;
        csr = rw (map-append (λ r. r.attributes) rows (new ∷ [])) (
            push-Csr t (linked_trace absent) (attrs_of rows) attrs ref.csr (size small) refl refl
              refl);
      }
    where
      size :
          attr_count (rows ++ row_of span service attrs ∷ []) < 2 ^ 32
          → length (flatten (attrs_of rows)) + length attrs < 2 ^ 32
      size h = omega (
        arith,
        ap (λ xs. length (flatten xs))
            (map-append (λ r. r.attributes) rows (row_of span service attrs ∷ [])),
        ap length (flatten-append (attrs_of rows) (attrs ∷ [])),
        length-append (flatten (attrs_of rows)) (attrs ++ []),
        length-append attrs [],
      )
