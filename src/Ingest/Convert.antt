-- ===== src/Ingest/Convert.antt =====
-- src/ingest/convert.rs: from a decoded OTLP request to a batch of spans. The request's types are
-- those of the crate `opentelemetry_proto`, with the fields that the code reads. The panic of the
-- build feature `panic-injection` is not in a normal build and not in the model.
pub mod Laws
use spanfall.Prelude.{
  ℕ, suc, ◌+◌, ◌<◌, Bool, true, false, not, Option, none, some, List, [], ◌∷◌, ◌++◌, ltb, nat_eq,
  if◌then◌else◌, length, is_some, list_beq, ℕ_eq,
}
use spanfall.Prelude.Text.{Text, text}
use spanfall.Types.{TraceId, SpanId, AttrValue, ℤ, str, int, double, bool, pos}
use spanfall.Trace.{NewSpan}

-- The payloads of the last four kinds are not read.
pub data PbValue : Type 0 where
  string_value : Text → PbValue
  int_value : ℤ → PbValue
  double_value : ℕ → PbValue
  bool_value : Bool → PbValue
  array_value kvlist_value bytes_value string_value_strindex : PbValue

pub record AnyValue : Type 0 where
  pub value : Option PbValue

pub record KeyValue : Type 0 where
  pub key : Text
  pub value : Option AnyValue

pub record Status : Type 0 where
  pub message : Text
  pub code : ℤ

pub record Span : Type 0 where
  pub trace_id : List ℕ
  pub span_id : List ℕ
  pub parent_span_id : List ℕ
  pub name : Text
  pub start_time_unix_nano : ℕ
  pub end_time_unix_nano : ℕ
  pub attributes : List KeyValue
  pub status : Option Status

pub record ScopeSpans : Type 0 where
  pub spans : List Span

pub record Resource : Type 0 where
  pub attributes : List KeyValue

pub record ResourceSpans : Type 0 where
  pub resource : Option Resource
  pub scope_spans : List ScopeSpans

pub record ExportTraceServiceRequest : Type 0 where
  pub resource_spans : List ResourceSpans

pub data RejectReason : Type 0 where
  empty_payload : RejectReason
  decode_error : Text → RejectReason

pub data ContentType : Type 0 where
  protobuf json : ContentType

pub record SpanBatch : Type 0 where
  pub spans : List (TraceId × NewSpan)
  pub is_partial : Bool
  pub malformed_span_count : ℕ

-- `Result<T, E>`.
pub data Result {ℓ κ} (E : Type ℓ) (T : Type κ) : Type (ℓ ⊔ κ) where
  ok : T → Result E T
  err : E → Result E T

-- `decode`. The two decoders are those of the crates `prost` and `serde_json`, with their error as
-- text.
unfoldable pub decode :
    (prost_decode serde_json_from_slice : List ℕ → Result Text ExportTraceServiceRequest)
    → List ℕ
    → ContentType
    → Result RejectReason ExportTraceServiceRequest
decode prost_decode serde_json_from_slice bytes protobuf = elim (prost_decode bytes) [
  | ok r ↦ ok r
  | err e ↦ err (decode_error e)
]
decode prost_decode serde_json_from_slice bytes json = elim (serde_json_from_slice bytes) [
  | ok r ↦ ok r
  | err e ↦ err (decode_error e)
]

unfoldable pub trace_id_of : List ℕ → Option TraceId
trace_id_of bytes = if nat_eq (length bytes) 16 then some (record { bytes = bytes }) else none

unfoldable pub span_id_of : List ℕ → Option SpanId
span_id_of bytes = if nat_eq (length bytes) 8 then some (record { bytes = bytes }) else none

-- `kv.value.as_ref()?.value.as_ref()?`.
abbrev pub value_of_kv : KeyValue → Option PbValue
value_of_kv kv = elim kv.value [ none ↦ none | some a ↦ a.value ]

unfoldable pub attr_value_of : PbValue → Option AttrValue
attr_value_of (string_value s) = some (str s)
attr_value_of (int_value i) = some (int i)
attr_value_of (double_value d) = some (double d)
attr_value_of (bool_value b) = some (bool b)
attr_value_of array_value = none
attr_value_of kvlist_value = none
attr_value_of bytes_value = none
attr_value_of string_value_strindex = none

unfoldable pub attr_of : KeyValue → Option (Text × AttrValue)
unfolding attr_value_of
attr_of kv = elim (value_of_kv kv) [
  | none ↦ none
  | some v ↦ elim (attr_value_of v) [ none ↦ none | some a ↦ some (kv.key, a) ]
]

unfoldable pub attrs_of : List KeyValue → List (Text × AttrValue)
attrs_of [] = []
attrs_of (kv ∷ kvs) =
    let rest = attrs_of kvs in elim (attr_of kv) [ none ↦ rest | some a ↦ a ∷ rest ]

-- The closure of `find_map`.
unfoldable pub service_name_kv : KeyValue → Option Text
service_name_kv kv =
    if list_beq kv.key (text "service.name")
    then elim (value_of_kv kv) [
      | none ↦ none
      | some v ↦ elim v [ string_value s ↦ some s | _ ↦ none ]
    ]
    else none

unfoldable pub find_service_name : List KeyValue → Option Text
find_service_name [] = none
find_service_name (kv ∷ kvs) =
    let rest = find_service_name kvs in elim (service_name_kv kv) [ none ↦ rest | some s ↦ some s ]

unfoldable pub service_name_of : ResourceSpans → Option Text
service_name_of rs = elim rs.resource [ none ↦ none | some r ↦ find_service_name r.attributes ]

-- The `NewSpan` of a span whose own ids are well formed.
unfoldable pub new_span_of : Option Text → Span → SpanId → NewSpan
new_span_of service_name pb_span span_id = record {
  span_id = span_id;
  parent_span_id = span_id_of pb_span.parent_span_id;
  name = pb_span.name;
  start_time_unix_nano = pb_span.start_time_unix_nano;
  end_time_unix_nano = pb_span.end_time_unix_nano;
  status_message = elim pb_span.status [ none ↦ [] | some s ↦ s.message ];
  status_code = elim pb_span.status [ none ↦ pos 0 | some s ↦ s.code ];
  unknown_service = not (is_some service_name);
  service_name = service_name;
  attributes = attrs_of pb_span.attributes;
}

-- The variables of the loops.
pub record Converted : Type 0 where
  pub spans : List (TraceId × NewSpan)
  pub malformed_span_count : ℕ
  pub saw_any_span : Bool

-- The body of the innermost loop.
unfoldable pub convert_span : Option Text → Converted → Span → Converted
convert_span service_name c pb_span = elim (trace_id_of pb_span.trace_id) [
  | none ↦ record c { malformed_span_count = c.malformed_span_count + 1; saw_any_span = true }
  | some trace_id ↦ elim (span_id_of pb_span.span_id) [
    | none ↦ record c { malformed_span_count = c.malformed_span_count + 1; saw_any_span = true }
    | some span_id ↦ record c {
      spans = c.spans ++ (trace_id, new_span_of service_name pb_span span_id) ∷ [];
      saw_any_span = true;
    }
  ]
]

unfoldable pub convert_spans : Option Text → Converted → List Span → Converted
convert_spans service_name c [] = c
convert_spans service_name c (s ∷ ss) =
    convert_spans service_name (convert_span service_name c s) ss

unfoldable pub convert_scopes : Option Text → Converted → List ScopeSpans → Converted
convert_scopes service_name c [] = c
convert_scopes service_name c (s ∷ ss) =
    convert_scopes service_name (convert_spans service_name c s.spans) ss

unfoldable pub convert_resources : Converted → List ResourceSpans → Converted
convert_resources c [] = c
convert_resources c (r ∷ rs) =
    convert_resources (convert_scopes (service_name_of r) c r.scope_spans) rs

unfoldable pub convert : ExportTraceServiceRequest → Result RejectReason SpanBatch
convert request =
    let c =
      convert_resources (record { spans = []; malformed_span_count = 0; saw_any_span = false })
        request.resource_spans in
    if c.saw_any_span
    then ok (record {
      spans = c.spans;
      is_partial = ltb 0 c.malformed_span_count;
      malformed_span_count = c.malformed_span_count;
    })
    else err empty_payload
