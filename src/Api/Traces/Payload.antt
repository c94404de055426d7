-- ===== src/Api/Traces/Payload.antt =====
-- What `get_trace` of src/api/traces.rs says of a trace: its columns, read through the table of
-- strings, are the trace's rows.
mod Filling
use spanfall.Prelude.{
  ℕ, suc, ◌+◌, ◌*◌, ◌^◌, ◌≤◌, ◌≡◌, refl, sym, ap₂, ◌∙◌, Option, none, some, List, [], ◌∷◌, ◌++◌,
  map, map-append, append-nil, length, length-append, append_assoc, ok, get_elem?, All,
  Option-cases, inl, inr, arith, list_eq, ℕ_eq, subst,
}
use spanfall.Prelude.Text.{Text}
use spanfall.Types.{TraceId, SpanId, to_hex, from_hex, trace_id_eq}
use spanfall.Interner.Bounds.{IsValid as Interner_IsValid}
use spanfall.Trace.{Trace}
use spanfall.Trace.Spec.{Row, Refines, parent_of, orphan_of}
use spanfall.Trace.Readers.{Reads, Refines-Reads, span_count_lem}
use spanfall.Trace.Upsert.{ids_of}
use spanfall.Store.{Store, trace}
use spanfall.Store.Valid.{RowWithin, key_count, service_count, row_service}
use spanfall.Store.Sizes.{get_elem?-middle}
use spanfall.Api.{json}
use spanfall.Api.Traces.Summaries.{service_of_span_lem}
use spanfall.Api.Traces.Table.{as_interner, resolve_service, intern_span-AddsSpan}
use spanfall.Api.Traces.{
  intern_span, Columns, no_columns, push_columns, columns_from, payload, get_trace,
}
pub use Filling.{Holds}
use Filling.{snoc, push_column, resolve_service-keeps}

module _ (s : Store) (t : Trace) (k : ℕ) (r : Row) (all : List Row) (reads : Reads t all k r)
    (within : RowWithin (key_count s) (service_count s) r) where
  abbrev ids : List SpanId
  ids = ids_of all

  push_columns-Holds :
      (c : Columns) (before : List Row)
      → Holds s ids c before
      → 3 * length before + 3 ≤ 2 ^ 32
      → (c' : Columns) × (push_columns s t k c ≡ ok c') × Holds s ids c' (before ++ r ∷ [])
  unfolding push_columns
  push_columns-Holds c before h room =
      let a =
        intern_span-AddsSpan c.table r.name r.status_message (row_service s r.service_name_id)
          h.table (omega (arith, h.small)) in
      let i = intern_span c.table r.name r.status_message (row_service s r.service_name_id) in
      (
        record {
          table = i.0;
          name_idx = c.name_idx ++ i.1 ∷ [];
          parent_idx = c.parent_idx ++ parent_of ids r.parent_span_id ∷ [];
          start_time_unix_nano = c.start_time_unix_nano ++ r.start_time_unix_nano ∷ [];
          end_time_unix_nano = c.end_time_unix_nano ++ r.end_time_unix_nano ∷ [];
          status_message_idx = c.status_message_idx ++ i.2 ∷ [];
          status_code = c.status_code ++ r.status_code ∷ [];
          orphan = c.orphan ++ orphan_of ids r.parent_span_id ∷ [];
          unknown_service = c.unknown_service ++ r.unknown_service ∷ [];
          service_idx = c.service_idx ++ i.3 ∷ [];
        },
        rw (
          reads.name,
          reads.parent,
          reads.start,
          reads.end,
          reads.message,
          reads.code,
          reads.orphan,
          reads.unknown,
          reads.service,
          service_of_span_lem s r.service_name_id within.service,
        ),
        record {
          table = a.valid;
          small = omega (arith, a.short, h.small, length-append before (r ∷ []));
          names =
              push_column (get_elem? c.table.strings) (get_elem? i.0.strings) (λ r. r.name) before
                c.name_idx i.1 r a.keeps h.names a.named;
          messages =
              push_column (get_elem? c.table.strings) (get_elem? i.0.strings)
                (λ r. r.status_message) before c.status_message_idx i.2 r a.keeps h.messages
                a.described;
          services =
              push_column (resolve_service c.table.strings) (resolve_service i.0.strings)
                (λ r. row_service s r.service_name_id) before c.service_idx i.3 r
                (resolve_service-keeps c.table.strings i.0.strings a.keeps) h.services a.served;
          parents = snoc (λ r. parent_of ids r.parent_span_id) _ before _ r h.parents refl;
          orphans = snoc (λ r. orphan_of ids r.parent_span_id) _ before _ r h.orphans refl;
          starts = snoc (λ r. r.start_time_unix_nano) _ before _ r h.starts refl;
          ends = snoc (λ r. r.end_time_unix_nano) _ before _ r h.ends refl;
          codes = snoc (λ r. r.status_code) _ before _ r h.codes refl;
          unknowns = snoc (λ r. r.unknown_service) _ before _ r h.unknowns refl;
        },
      )

columns_from-Holds :
    (s : Store) (t : Trace) (before after : List Row) (k : ℕ) (c : Columns)
    → Refines t (before ++ after)
    → All (RowWithin (key_count s) (service_count s)) after
    → length before ≡ k
    → 3 * length (before ++ after) ≤ 2 ^ 32
    → Holds s (ids_of (before ++ after)) c before
    → (c' : Columns) × (columns_from s t k (length after) c ≡ ok c')
      × Holds s (ids_of (before ++ after)) c' (before ++ after)
unfolding columns_from
columns_from-Holds s t before [] k c ref within l room h =
    (c, refl, subst (Holds s (ids_of (before ++ [])) c) (sym (append-nil before)) h)
columns_from-Holds s t before (r ∷ after) k c ref within l room h =
    let here : get_elem? (before ++ r ∷ after) k ≡ some r =
      rw (← l) (get_elem?-middle before r after) in
    let reads = Refines-Reads t (before ++ r ∷ after) k r ref here in
    let (c1, ret1, h1) =
      push_columns-Holds s t k r (before ++ r ∷ after) reads within.0 c before h
        (omega (arith, length-append before (r ∷ after))) in
    let shift : (before ++ r ∷ []) ++ after ≡ before ++ r ∷ after =
      append_assoc before (r ∷ []) after in
    let (c2, ret2, h2) =
      columns_from-Holds s t (before ++ r ∷ []) after (suc k) c1 (rw shift ref) within.1
        (omega (arith, length-append before (r ∷ []))) (rw shift room) (rw shift h1) in
    (c2, rw ret1 ret2, rw shift at h2)

Holds-none : (s : Store) (ids : List SpanId) → Holds s ids no_columns []
Holds-none s ids = record {
  table = record {
    capped = omega arith;
    small = omega arith;
    sound = λ u id e. ground arith;
    complete = λ u id e. ground arith;
  };
  small = omega arith;
  names = refl;
  messages = refl;
  services = refl;
  parents = refl;
  orphans = refl;
  starts = refl;
  ends = refl;
  codes = refl;
  unknowns = refl;
}

-- For a trace of the store that holds `rows`, whose ids are within the store's tables, and of
-- which three times the number is at most 2^32, `get_trace` does not panic. The answer has the
-- trace's id and generation, and its columns are the rows: names, messages and services read
-- through the table of strings, and parents and orphans as all the ids of the trace determine
-- them.
pub get_trace-Holds :
    (s : Store) (id : Text) (trace_id : TraceId) (t : Trace) (rows : List Row)
    → from_hex id ≡ some trace_id
    → trace s trace_id ≡ some t
    → Refines t rows
    → All (RowWithin (key_count s) (service_count s)) rows
    → 3 * length rows ≤ 2 ^ 32
    → (c : Columns) × (get_trace s id
        ≡ ok (
            json (record {
              trace_id = to_hex t.trace_id;
              generation = t.generation;
              string_table = c.table.strings;
              columns = c;
            })))
      × Holds s (ids_of rows) c rows
unfolding payload get_trace
get_trace-Holds s id trace_id t rows hex found ref within room =
    let (c, ret, h) =
      columns_from-Holds s t [] rows 0 no_columns ref within refl room
        (Holds-none s (ids_of rows)) in
    (c, rw (hex, get_trace, found, span_count_lem t rows ref, ret), h)
