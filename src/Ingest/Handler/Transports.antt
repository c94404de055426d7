-- ===== src/Ingest/Handler/Transports.antt =====
-- src/ingest/http.rs and src/ingest/grpc.rs: the answers of the two transports.
pub mod Answers
use spanfall.Prelude.{
  ℕ, Bool, true, false, Option, none, some, List, [], ◌∷◌, ◌&&◌, nat_eq, if◌then◌else◌,
}
use spanfall.Prelude.Text.{Text, text}
use spanfall.Prelude.Strings.{starts_with}
use spanfall.Ingest.Convert.{
  ExportTraceServiceRequest, RejectReason, empty_payload, decode_error, ContentType, protobuf, json,
  Result, ok, err, decode,
}
use spanfall.Ingest.Receiver.{Transport, grpc_v4317, http_protobuf_v4318, http_json_v4318}
use spanfall.Ingest.Handler.{
  IngestState, IngestError, reject, conversion_panicked, backpressure, writer_gone, SendOutcome,
  accept,
}

-- A response of the HTTP transport: its status, its body, and the header `Retry-After`.
pub record Response : Type 0 where
  pub status : ℕ
  pub body : Text
  pub retry_after : Option Text

abbrev status_only : ℕ → Response
status_only n = record { status = n; body = []; retry_after = none }

-- The content type, from the header's text when it has one that is text.
unfoldable pub content_type_of : Option Text → ContentType × Transport
content_type_of none = (protobuf, http_protobuf_v4318)
content_type_of (some ct) =
    if starts_with ct (text "application/json")
    then (json, http_json_v4318)
    else (protobuf, http_protobuf_v4318)

unfoldable pub http_response :
    (debug : RejectReason → Text) → Result {0, 0} IngestError Unit → Response
http_response debug (ok u) = status_only 200
http_response debug (err (reject empty_payload)) = status_only 200
http_response debug (err (reject (decode_error e))) = record {
  status = 400;
  body = debug (decode_error e);
  retry_after = none;
}
http_response debug (err conversion_panicked) = status_only 500
http_response debug (err backpressure) = record {
  status = 429;
  body = [];
  retry_after = some (text "1");
}
http_response debug (err writer_gone) = status_only 500

-- `export` of http.rs.
module _ (debug : RejectReason → Text)
    (prost_decode serde_json_from_slice : List ℕ → Result Text ExportTraceServiceRequest) where
  unfoldable pub http_export :
      IngestState → Option Text → List ℕ → SendOutcome → ℕ → IngestState × Response
  http_export s header body outcome now =
      let (content_type, transport) = content_type_of header in
      elim (decode prost_decode serde_json_from_slice body content_type) [
        | err reason ↦ (s, record { status = 400; body = debug reason; retry_after = none })
        | ok request ↦
            let (s', r) = accept debug s request transport outcome now in
            (s', http_response debug r)
      ]

-- The `tonic::Status` of an answer that is not the response.
pub data Status : Type 0 where
  invalid_argument internal resource_exhausted : Text → Status

unfoldable pub grpc_response :
    (debug : RejectReason → Text) → Result {0, 0} IngestError Unit → Result {0, 0} Status Unit
grpc_response debug (ok u) = ok tt
grpc_response debug (err (reject empty_payload)) = ok tt
grpc_response debug (err (reject (decode_error e))) =
    err (invalid_argument (debug (decode_error e)))
grpc_response debug (err conversion_panicked) = err (internal (text "conversion panicked"))
grpc_response debug (err backpressure) =
    err (resource_exhausted (text "store write backlog exceeded --ingest-timeout, retry"))
grpc_response debug (err writer_gone) = err (internal (text "writer task not running"))

-- `export` of grpc.rs.
unfoldable pub grpc_export :
    (debug : RejectReason → Text)
    → IngestState
    → ExportTraceServiceRequest
    → SendOutcome
    → ℕ
    → IngestState × Result {0, 0} Status Unit
grpc_export debug s request outcome now =
    let (s', r) = accept debug s request grpc_v4317 outcome now in (s', grpc_response debug r)
