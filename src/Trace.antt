-- ===== src/Trace.antt =====
-- src/store/trace.rs: one trace's spans as a structure of arrays. A vector access that Rust checks
-- is an `Exec`, whose `panic` is the panic of an index out of range.
pub mod Insert
pub mod Spec
pub mod Csr
pub mod Links
pub mod Upsert
pub mod Overwrite
pub mod Refine
pub mod Readers
pub mod Attrs
pub mod Parents
pub mod Duration
use spanfall.Prelude.{
  ℕ, ◌+◌, ◌-◌, ◌%◌, ◌^◌, Bool, Option, none, some, List, [], ◌∷◌, map, leb, min, max, if◌then◌else◌,
  length, Exec, ok, panic, ◌>>=◌, at, slice,
}
use spanfall.Prelude.Map.{Map}
use spanfall.Prelude.Text.{Text}
use spanfall.Types.{TraceId, SpanId, AttrValue, ℤ}

pub record NewSpan : Type 0 where
  pub span_id : SpanId
  pub parent_span_id : Option SpanId
  pub name : Text
  pub start_time_unix_nano : ℕ
  pub end_time_unix_nano : ℕ
  pub status_message : Text
  pub status_code : ℤ
  pub unknown_service : Bool
  pub service_name : Option Text
  pub attributes : List (Text × AttrValue)

pub record InsertOutcome : Type 0 where
  pub local_idx : ℕ
  pub is_duplicate : Bool

pub record Trace : Type 0 where
  pub trace_id : TraceId
  pub generation : ℕ
  pub last_activity_unix_nano : ℕ
  pub span_ids : List SpanId
  pub names : List Text
  pub parent_idx : List (Option ℕ)
  pub start_time_unix_nano : List ℕ
  pub end_time_unix_nano : List ℕ
  pub status_message : List Text
  pub status_code : List ℤ
  pub orphan : List Bool
  pub unknown_service : List Bool
  pub service_name_id : List (Option ℕ)
  pub attr_keys : List ℕ
  pub attr_values : List AttrValue
  pub attr_offsets : List ℕ
  pub span_index : Map SpanId ℕ
  pub pending_children : Map SpanId (List ℕ)

unfoldable pub new : TraceId → ℕ → Trace
new trace_id now_unix_nano = record {
  trace_id = trace_id;
  generation = 0;
  last_activity_unix_nano = now_unix_nano;
  span_ids = [];
  names = [];
  parent_idx = [];
  start_time_unix_nano = [];
  end_time_unix_nano = [];
  status_message = [];
  status_code = [];
  orphan = [];
  unknown_service = [];
  service_name_id = [];
  attr_keys = [];
  attr_values = [];
  attr_offsets = 0 ∷ [];
  span_index = [];
  pending_children = [];
}

unfoldable pub span_count : Trace → ℕ
span_count t = length t.span_ids

-- `generation` is a `u32`.
unfoldable pub bump_generation : Trace → Trace
bump_generation t = record t { generation = (t.generation + 1) % 2 ^ 32 }

unfoldable pub is_orphan : Trace → ℕ → Exec Bool
is_orphan t idx = at t.orphan idx

unfoldable pub parent_idx : Trace → ℕ → Exec (Option ℕ)
parent_idx t idx = at t.parent_idx idx

unfoldable pub name : Trace → ℕ → Exec Text
name t idx = at t.names idx

unfoldable pub span_id : Trace → ℕ → Exec SpanId
span_id t idx = at t.span_ids idx

unfoldable pub service_name_id : Trace → ℕ → Exec (Option ℕ)
service_name_id t idx = at t.service_name_id idx

unfoldable pub start_time_unix_nano : Trace → ℕ → Exec ℕ
start_time_unix_nano t idx = at t.start_time_unix_nano idx

unfoldable pub end_time_unix_nano : Trace → ℕ → Exec ℕ
end_time_unix_nano t idx = at t.end_time_unix_nano idx

unfoldable pub status_message : Trace → ℕ → Exec Text
status_message t idx = at t.status_message idx

unfoldable pub status_code : Trace → ℕ → Exec ℤ
status_code t idx = at t.status_code idx

unfoldable pub unknown_service : Trace → ℕ → Exec Bool
unknown_service t idx = at t.unknown_service idx

-- `iter().min()` and `iter().max()`.
unfoldable pub minimum : List ℕ → Option ℕ
minimum [] = none
minimum (x ∷ xs) = elim (minimum xs) [ none ↦ some x | some m ↦ some (min x m) ]

unfoldable pub maximum : List ℕ → Option ℕ
maximum [] = none
maximum (x ∷ xs) = elim (maximum xs) [ none ↦ some x | some m ↦ some (max x m) ]

unfoldable pub checked_sub : ℕ → ℕ → Option ℕ
checked_sub a b = if leb b a then some (a - b) else none

unfoldable pub duration_nanos : Trace → Option ℕ
duration_nanos t = elim (minimum t.start_time_unix_nano) [
  | none ↦ none
  | some earliest_start ↦ elim (maximum t.end_time_unix_nano) [
    | none ↦ none
    | some latest_end ↦ checked_sub latest_end earliest_start
  ]
]

unfoldable pub attributes : Trace → ℕ → Exec (List AttrValue)
attributes t idx = do
  start ← at t.attr_offsets idx
  end ← at t.attr_offsets (idx + 1)
  slice t.attr_values start end

unfoldable pub attribute_keys : Trace → ℕ → Exec (List ℕ)
attribute_keys t idx = do
  start ← at t.attr_offsets idx
  end ← at t.attr_offsets (idx + 1)
  slice t.attr_keys start end
