-- ===== src/Api/Traces.antt =====
-- src/api/traces.rs: the list of traces, and one trace as columns with a table of strings.
pub mod Table
pub mod Payload
pub mod Summaries
pub mod Shown
use spanfall.Prelude.{
  ℕ, zero, suc, ◌%◌, ◌^◌, Bool, true, false, Option, none, some, List, [], ◌∷◌, ◌++◌, length,
  list_beq, list_eq, ℕ_eq, if◌then◌else◌, Exec, ok, ◌>>=◌,
}
use spanfall.Prelude.Map
use spanfall.Prelude.Map.{Map}
use spanfall.Prelude.Text.{Text}
use spanfall.Prelude.Strings.{text_lt}
use spanfall.Types.{TraceId, ℤ, to_hex, from_hex}
use spanfall.Trace.{
  Trace, span_count, name, parent_idx, start_time_unix_nano, end_time_unix_nano, status_message,
  status_code, is_orphan, unknown_service, service_name_id, duration_nanos,
}
use spanfall.Store.{Store, trace, service_name}
use spanfall.Api.{Answer, bad_request, not_found, json}

pub record TraceSummary : Type 0 where
  pub trace_id : Text
  pub span_count : ℕ
  pub duration_nanos : Option ℕ
  pub services : List Text

-- `BTreeSet::insert`, the set being its elements in order.
unfoldable pub set_insert : Text → List Text → List Text
set_insert x [] = x ∷ []
set_insert x (y ∷ ys) =
    let rest = set_insert x ys in
    if list_beq x y then y ∷ ys else if text_lt x y then x ∷ y ∷ ys else y ∷ rest

-- `trace.service_name_id(idx)` with the name that it stands for.
unfoldable pub service_of_span : Store → Option ℕ → Exec (Option Text)
service_of_span store none = ok none
service_of_span store (some id) = do got ← service_name store id; ok (some got)

abbrev pub add_service : Option Text → List Text → List Text
add_service none services = services
add_service (some s) services = set_insert s services

-- The loop over the spans, with `count` rounds left.
unfoldable pub services_from : Store → Trace → ℕ → ℕ → List Text → Exec (List Text)
services_from store t idx zero services = ok services
services_from store t idx (suc count) services = do
  id ← service_name_id t idx
  got ← service_of_span store id
  services_from store t (suc idx) count (add_service got services)

unfoldable pub summary : Store → TraceId → Trace → Exec TraceSummary
summary store id t = do
  services ← services_from store t 0 (span_count t) []
  ok (record {
    trace_id = to_hex id;
    span_count = span_count t;
    duration_nanos = duration_nanos t;
    services = services;
  })

unfoldable pub summaries : Store → Map TraceId Trace → Exec (List TraceSummary)
summaries store [] = ok []
summaries store ((id, t) ∷ m) = do s ← summary store id t; rest ← summaries store m; ok (s ∷ rest)

unfoldable pub list_traces : Store → Exec (List TraceSummary)
list_traces store = summaries store store.traces

pub record StringTable : Type 0 where
  pub strings : List Text
  pub index : Map Text ℕ

unfoldable pub table_intern : StringTable → Text → StringTable × ℕ
table_intern table s = elim (Map.get table.index s) [
  | some id ↦ (table, id)
  | none ↦
      let id = length table.strings % 2 ^ 32 in
      (record { strings = table.strings ++ s ∷ []; index = Map.insert table.index s id }, id)
]

-- The columns that the loop of `get_trace` fills, with its table.
pub record Columns : Type 0 where
  pub table : StringTable
  pub name_idx : List ℕ
  pub parent_idx : List (Option ℕ)
  pub start_time_unix_nano : List ℕ
  pub end_time_unix_nano : List ℕ
  pub status_message_idx : List ℕ
  pub status_code : List ℤ
  pub orphan : List Bool
  pub unknown_service : List Bool
  pub service_idx : List (Option ℕ)

abbrev pub no_columns : Columns
no_columns = record {
  table = record { strings = []; index = [] };
  name_idx = [];
  parent_idx = [];
  start_time_unix_nano = [];
  end_time_unix_nano = [];
  status_message_idx = [];
  status_code = [];
  orphan = [];
  unknown_service = [];
  service_idx = [];
}

unfoldable pub intern_service : StringTable → Option Text → StringTable × Option ℕ
intern_service table none = (table, none)
intern_service table (some s) = let (table', id) = table_intern table s in (table', some id)

-- One span's strings, interned in the order of the loop's body.
unfoldable pub intern_span :
    StringTable → Text → Text → Option Text → StringTable × ℕ × ℕ × Option ℕ
intern_span table span_name message service =
    let (table1, name_id) = table_intern table span_name in
    let (table2, message_id) = table_intern table1 message in
    let (table3, service_id) = intern_service table2 service in
    (table3, name_id, message_id, service_id)

-- The body of the loop.
unfoldable pub push_columns : Store → Trace → ℕ → Columns → Exec Columns
push_columns store t idx c = do
  span_name ← name t idx
  parent ← parent_idx t idx
  start ← start_time_unix_nano t idx
  end ← end_time_unix_nano t idx
  message ← status_message t idx
  code ← status_code t idx
  orphan ← is_orphan t idx
  unknown ← unknown_service t idx
  service_id ← service_name_id t idx
  service ← service_of_span store service_id
  let ids = intern_span c.table span_name message service
  ok (record {
    table = ids.0;
    name_idx = c.name_idx ++ ids.1 ∷ [];
    parent_idx = c.parent_idx ++ parent ∷ [];
    start_time_unix_nano = c.start_time_unix_nano ++ start ∷ [];
    end_time_unix_nano = c.end_time_unix_nano ++ end ∷ [];
    status_message_idx = c.status_message_idx ++ ids.2 ∷ [];
    status_code = c.status_code ++ code ∷ [];
    orphan = c.orphan ++ orphan ∷ [];
    unknown_service = c.unknown_service ++ unknown ∷ [];
    service_idx = c.service_idx ++ ids.3 ∷ [];
  })

unfoldable pub columns_from : Store → Trace → ℕ → ℕ → Columns → Exec Columns
columns_from store t idx zero c = ok c
columns_from store t idx (suc count) c = do
  c' ← push_columns store t idx c
  columns_from store t (suc idx) count c'

pub record TracePayload : Type 0 where
  pub trace_id : Text
  pub generation : ℕ
  pub string_table : List Text
  pub columns : Columns

unfoldable pub payload : Store → Trace → Exec TracePayload
payload store t = do
  c ← columns_from store t 0 (span_count t) no_columns
  ok (record {
    trace_id = to_hex t.trace_id;
    generation = t.generation;
    string_table = c.table.strings;
    columns = c;
  })

unfoldable pub get_trace : Store → Text → Exec (Answer TracePayload)
get_trace store id = elim (from_hex id) [
  | none ↦ ok bad_request
  | some trace_id ↦ elim (trace store trace_id) [
    | none ↦ ok not_found
    | some t ↦ do p ← payload store t; ok (json p)
  ]
]
