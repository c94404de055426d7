-- ===== src/Ingest/Handler/Transports/Answers.antt =====
-- The answers of src/ingest/http.rs and src/ingest/grpc.rs to the same request.
use spanfall.Prelude.{ℕ, ◌≡◌, ◌≢◌, refl, ap, Option, List, arith, ◌∙◌, ok}
use spanfall.Prelude.Text.{Text}
use spanfall.Ingest.Convert.{
  ExportTraceServiceRequest, RejectReason, empty_payload, decode_error, SpanBatch, Result, ok, err,
  decode, convert,
}
use spanfall.Ingest.Receiver.{Transport, grpc_v4317}
use spanfall.Ingest.Handler.{
  IngestState, IngestError, reject, conversion_panicked, backpressure, writer_gone, SendOutcome,
  sent, closed, timed_out, accept, accept_conversion, catch_conversion_panic, send_batch,
}
use spanfall.Ingest.Handler.Transports.{
  Status, invalid_argument, internal, resource_exhausted, http_response, http_export, grpc_response,
  grpc_export, content_type_of,
}

-- The HTTP status that stands for a gRPC answer.
abbrev pub http_status_of : Result {0, 0} Status Unit → ℕ
http_status_of (ok u) = 200
http_status_of (err (invalid_argument m)) = 400
http_status_of (err (internal m)) = 500
http_status_of (err (resource_exhausted m)) = 429

-- `convert` rejects a request for being empty only.
convert-err :
    (request : ExportTraceServiceRequest) (r : RejectReason)
    → convert request ≡ err r
    → r ≡ empty_payload
unfolding convert
convert-err request r h = ground arith

module _ (debug : RejectReason → Text) where
  -- The two transports answer the same result alike.
  responses_agree :
      (r : Result {0, 0} IngestError Unit)
      → (http_response debug r).status ≡ http_status_of (grpc_response debug r)
  unfolding http_response grpc_response
  responses_agree (ok u) = refl
  responses_agree (err (reject empty_payload)) = refl
  responses_agree (err (reject (decode_error e))) = refl
  responses_agree (err conversion_panicked) = refl
  responses_agree (err backpressure) = refl
  responses_agree (err writer_gone) = refl

  module _ (s : IngestState) (outcome : SendOutcome) (now : ℕ) where
    same_result :
        (r : Result RejectReason SpanBatch) (tr tr' : Transport) (o : SendOutcome)
        → (accept_conversion debug s (ok r) tr o now).1
          ≡ (accept_conversion debug s (ok r) tr' o now).1
    unfolding accept_conversion catch_conversion_panic send_batch
    same_result (ok batch) tr tr' sent = refl
    same_result (ok batch) tr tr' closed = refl
    same_result (ok batch) tr tr' timed_out = refl
    same_result (err reason) tr tr' o = refl

    not_bad_request :
        (r : Result RejectReason SpanBatch) (tr : Transport) (o : SendOutcome)
        → ((reason : RejectReason) → r ≡ err reason → reason ≡ empty_payload)
        → (http_response debug (accept_conversion debug s (ok r) tr o now).1).status ≢ 400
    unfolding accept_conversion catch_conversion_panic send_batch http_response
    not_bad_request (ok batch) tr sent only = ground arith
    not_bad_request (ok batch) tr closed only = ground arith
    not_bad_request (ok batch) tr timed_out only = ground arith
    not_bad_request (err empty_payload) tr o only = ground arith
    not_bad_request (err (decode_error e)) tr o only =
        absurd (ground (arith, only (decode_error e) refl))

    module _ (prost_decode serde_json_from_slice : List ℕ → Result Text ExportTraceServiceRequest)
        (header : Option Text) (body : List ℕ) where
      abbrev decoded : Result RejectReason ExportTraceServiceRequest
      decoded = decode prost_decode serde_json_from_slice body (content_type_of header).0

      -- A body that the HTTP transport decodes to a request gets the status that stands for the answer
      -- of the gRPC transport to that request, in the same state, whatever the body's content type.
      pub transports_agree :
          (request : ExportTraceServiceRequest)
          → decode prost_decode serde_json_from_slice body (content_type_of header).0 ≡ ok request
          → (http_export debug prost_decode serde_json_from_slice s header body outcome
              now).1.status
            ≡ http_status_of (grpc_export debug s request outcome now).1
      unfolding http_export grpc_export accept
      transports_agree request h =
          rw (h, http_export)
            (responses_agree
                (accept_conversion debug s (ok (convert request)) (content_type_of header).1 outcome
                  now).1
              ∙ ap (λ r. http_status_of (grpc_response debug r))
                  (same_result (convert request) (content_type_of header).1 grpc_v4317 outcome))

      -- A request that the HTTP transport answers with 400 is one whose body it cannot decode, and
      -- leaves the state as it was: the reject is not recorded.
      pub http_export-bad_request :
          (http_export debug prost_decode serde_json_from_slice s header body outcome now).1.status
            ≡ 400
          → ((reason : RejectReason) × (decode prost_decode serde_json_from_slice body
                  (content_type_of header).0
                ≡ err reason))
            × ((http_export debug prost_decode serde_json_from_slice s header body outcome now).0
                ≡ s)
      unfolding http_export accept
      http_export-bad_request bad = go decoded refl
        where
          go :
              (d : Result RejectReason ExportTraceServiceRequest)
              → decoded ≡ d
              → ((reason : RejectReason) × (decoded ≡ err reason))
                × ((http_export debug prost_decode serde_json_from_slice s header body outcome
                      now).0
                    ≡ s)
          go (err reason) h = ((reason, h), rw (h, http_export))
          go (ok request) h = absurd (
              not_bad_request (convert request) (content_type_of header).1 outcome
                (convert-err request) (rw (h, http_export) at bad))
