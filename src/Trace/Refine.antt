-- ===== src/Trace/Refine.antt =====
-- `Trace::insert` of src/store/trace.rs never panics and does to the columns what `upsert` does to
-- a sequence of spans.
use spanfall.Prelude.{
  ℕ, ◌<◌, ◌^◌, ◌≡◌, refl, ap, ◌∙◌, true, false, Option, none, some, List, [], map, length, arith,
  Option-cases, inl, inr, set, length-map, map-set, get_elem?-map, ok,
}
use spanfall.Prelude.Map
use spanfall.Types.{SpanId, TraceId, AttrValue, span_id_eq}
use spanfall.Interner.{Interner}
use spanfall.Trace.{Trace, new, NewSpan, InsertOutcome}
use spanfall.Trace.Insert.{
  intern_attrs, overwrite_at, push_span, patch_waiting, insert_interned, insert,
}
use spanfall.Trace.Spec.{Row, children_of, overwritten, upsert, position, Refines, attr_count}
use spanfall.Trace.Csr.{set-Replaces}
use spanfall.Trace.Links.{patch-linked}
use spanfall.Trace.Upsert.{ids_of, attrs_of, upsert-new, upsert-old}
use spanfall.Trace.Overwrite.{
  overwritten_trace, overwrite_at_lem, overwritten-Refines, linked-Refines, linked_trace,
}

insert_interned_new :
    (t : Trace) (span : NewSpan) (service : Option ℕ) (attrs : List (ℕ × AttrValue)) (t' : Trace)
    → Map.get t.span_index span.span_id ≡ none
    → patch_waiting (push_span t span service attrs) span.span_id (length t.span_ids) ≡ ok t'
    → insert_interned t span service attrs
      ≡ ok (t', record { local_idx = length t.span_ids; is_duplicate = false })
unfolding insert_interned
insert_interned_new t span service attrs t' e p = rw (e, insert_interned, p)

insert_interned_duplicate :
    (t : Trace) (span : NewSpan) (service : Option ℕ) (attrs : List (ℕ × AttrValue)) (t' : Trace)
    (i : ℕ)
    → Map.get t.span_index span.span_id ≡ some i
    → overwrite_at t i span service attrs ≡ ok t'
    → insert_interned t span service attrs ≡ ok (t', record { local_idx = i; is_duplicate = true })
unfolding insert_interned
insert_interned_duplicate t span service attrs t' i e p = rw (e, insert_interned, p)

-- The outcome that a caller sees.
abbrev pub outcome_of : List Row → SpanId → InsertOutcome
outcome_of rows id = elim (position id (ids_of rows)) [
  | some i ↦ record { local_idx = i; is_duplicate = true }
  | none ↦ record { local_idx = length rows; is_duplicate = false }
]

-- A trace that is stored well: its header fields, and the spans that it holds.
pub record Inserts (t : Trace) (rows : List Row) (t' : Trace) (rows' : List Row) : Type 0 where
  pub refines : Refines t' rows'
  pub trace_id : t'.trace_id ≡ t.trace_id
  pub generation : t'.generation ≡ t.generation
  pub last_activity : t'.last_activity_unix_nano ≡ t.last_activity_unix_nano

-- An insertion returns, with the outcome, a trace that holds the upserted spans.
abbrev Returns : Trace → List Row → NewSpan → Option ℕ → List (ℕ × AttrValue) → Type 0
Returns t rows span service attrs =
    (t' : Trace) × (insert_interned t span service attrs ≡ ok (t', outcome_of rows span.span_id))
    × Inserts t rows t' (upsert rows span service attrs)

module _ (t : Trace) (rows : List Row) (ref : Refines t rows) (span : NewSpan) (service : Option ℕ)
    (attrs : List (ℕ × AttrValue))
    (small : attr_count (upsert rows span service attrs) < 2 ^ 32) where
  ids : t.span_ids ≡ ids_of rows
  ids = ref.span_ids

  insert_duplicate :
      (i : ℕ) → position span.span_id (ids_of rows) ≡ some i → Returns t rows span service attrs
  insert_duplicate i found =
      let o = upsert-old rows span service attrs i found in
      let small' : attr_count (set rows i (overwritten o.old span service attrs)) < 2 ^ 32 =
        rw o.result at small in
      let new_attrs = map-set (λ r. r.attributes) rows i (overwritten o.old span service attrs) in
      let p =
        set-Replaces t (attrs_of rows) i o.old.attributes attrs ref.csr
          (get_elem?-map (λ r. r.attributes) rows i o.here) (rw new_attrs small') in
      let looked_up : Map.get t.span_index span.span_id ≡ some i =
        ref.links.index span.span_id ∙ ap (position span.span_id) ids ∙ found in
      (
        overwritten_trace t i span service (set (attrs_of rows) i attrs),
        rw (found, outcome_of)
            (insert_interned_duplicate t span service attrs _ i looked_up
              (overwrite_at_lem t rows ref span service attrs i o.old o.here p)),
        record {
          refines =
              rw o.result (overwritten-Refines t rows ref span service attrs i o.old o.here small');
          trace_id = refl;
          generation = refl;
          last_activity = refl;
        },
      )

  insert_new : position span.span_id (ids_of rows) ≡ none → Returns t rows span service attrs
  unfolding push_span
  insert_new missing =
      let absent : position span.span_id t.span_ids ≡ none = rw ids missing in
      let grown = upsert-new rows span service attrs missing in
      let looked_up : Map.get t.span_index span.span_id ≡ none =
        ref.links.index span.span_id ∙ absent in
      let outcome : record { local_idx = length t.span_ids; is_duplicate = false }
          ≡ outcome_of rows span.span_id =
        rw (missing, outcome_of)
          (ap (λ n. record { local_idx = n; is_duplicate = false })
            (ap length ids ∙ length-map (λ r. r.span_id) rows)) in
      (
        linked_trace t rows ref span service attrs absent,
        insert_interned_new t span service attrs _ looked_up (
              patch-linked t (map (λ r. r.parent_span_id) rows) span service attrs ref.links absent)
            ∙ ap (λ o. ok (linked_trace t rows ref span service attrs absent, o)) outcome,
        record {
          refines =
              rw grown (linked-Refines t rows ref span service attrs absent (rw grown at small));
          trace_id = refl;
          generation = refl;
          last_activity = refl;
        },
      )

  insert_interned_lem : Returns t rows span service attrs
  insert_interned_lem = elim (Option-cases (position span.span_id (ids_of rows))) [
    | inl missing ↦ insert_new missing
    | inr (i, found) ↦ insert_duplicate i found
  ]

-- The generation and the clock of a trace leave its spans alone.
pub header-Refines :
    (t : Trace) (rows : List Row) (gen now : ℕ)
    → Refines t rows
    → Refines (record t { generation = gen; last_activity_unix_nano = now }) rows
header-Refines t rows gen now r = record {
  span_ids = r.span_ids;
  names = r.names;
  starts = r.starts;
  ends = r.ends;
  messages = r.messages;
  codes = r.codes;
  unknowns = r.unknowns;
  services = r.services;
  links = record {
    index = r.links.index;
    parent = r.links.parent;
    orphan = r.links.orphan;
    pending = r.links.pending;
    as_many = r.links.as_many;
  };
  csr = record {
    keys = r.csr.keys;
    values = r.csr.values;
    offsets = r.csr.offsets;
    small = r.csr.small;
  };
}

pub record Inserted (t : Trace) (rows : List Row) (span : NewSpan) (service : Option ℕ)
    (key_interner : Interner) (now : ℕ) : Type 0 where
  pub trace : Trace
  pub returned :
      insert t span service key_interner now
      ≡ ok (trace, outcome_of rows span.span_id, (intern_attrs key_interner span.attributes).0)
  pub refines :
      Refines trace (upsert rows span service (intern_attrs key_interner span.attributes).1)
  pub trace_id : trace.trace_id ≡ t.trace_id
  pub generation : trace.generation ≡ t.generation
  pub last_activity : trace.last_activity_unix_nano ≡ now

-- On a trace that stores `rows`, and while its attributes stay below 2^32, `insert` does not panic:
-- it answers with the position of the span's id and whether that id was there, and leaves a trace
-- that stores the upserted spans under the same id and generation, last active now.
pub insert-Inserted :
    (t : Trace) (rows : List Row) (span : NewSpan) (service : Option ℕ) (key_interner : Interner)
    (now : ℕ)
    → Refines t rows
    → attr_count (upsert rows span service (intern_attrs key_interner span.attributes).1) < 2 ^ 32
    → Inserted t rows span service key_interner now
unfolding insert
insert-Inserted t rows span service key_interner now ref small =
    let t1 : Trace = record t { last_activity_unix_nano = now } in
    let attrs = (intern_attrs key_interner span.attributes).1 in
    let (t', ret, i) =
      insert_interned_lem t1 rows (header-Refines t rows t.generation now ref) span service attrs
        small in
    record {
      trace = t';
      returned = rw ret;
      refines = i.refines;
      trace_id = i.trace_id;
      generation = i.generation;
      last_activity = i.last_activity;
    }

-- A new trace stores no spans.
pub new-Refines : (id : TraceId) (now : ℕ) → Refines (new id now) []
unfolding new position children_of
new-Refines id now = record {
  span_ids = refl;
  names = refl;
  starts = refl;
  ends = refl;
  messages = refl;
  codes = refl;
  unknowns = refl;
  services = refl;
  links = record {
    index = λ s. refl;
    parent = refl;
    orphan = refl;
    pending = λ s. refl;
    as_many = refl;
  };
  csr = record { keys = refl; values = refl; offsets = refl; small = omega arith };
}
