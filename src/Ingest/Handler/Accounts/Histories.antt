-- ===== src/Ingest/Handler/Accounts/Histories.antt =====
-- Histories of requests for `accept` of src/ingest/handler.rs: what each one delivers and rejects.
use spanfall.Prelude.{
  ℕ, ◌+◌, ◌%◌, ◌^◌, ◌≡◌, Bool, true, false, List, [], ◌∷◌, ◌++◌, length, if◌then◌else◌, ok, arith,
}
use spanfall.Prelude.Text.{Text}
use spanfall.Ingest.Convert.{
  ExportTraceServiceRequest, RejectReason, SpanBatch, Result, ok, err, convert,
}
use spanfall.Ingest.Receiver.{
  RejectRecord, ArrivalCounts, Transport, grpc_v4317, http_protobuf_v4318, http_json_v4318,
  record_arrival,
}
use spanfall.Ingest.Receiver.Ring.{last_hundred}
use spanfall.Ingest.Handler.{IngestState, SendOutcome, sent, closed, timed_out, accept}

-- A request as it meets the handler.
pub record Arrival : Type 0 where
  pub request : ExportTraceServiceRequest
  pub transport : Transport
  pub outcome : SendOutcome
  pub now : ℕ

module _ (debug : RejectReason → Text) where
  unfoldable pub accept_all : IngestState → List Arrival → IngestState
  accept_all s [] = s
  accept_all s (a ∷ rest) = accept_all (accept debug s a.request a.transport a.outcome a.now).0 rest

  -- The record of one rejected request.
  abbrev pub rejection : Arrival → RejectReason → RejectRecord
  rejection a reason = record { reason = debug reason; at_unix_nano = a.now }

  abbrev pub rejected_if : Arrival → Result RejectReason SpanBatch → List RejectRecord
  rejected_if a (ok batch) = []
  rejected_if a (err reason) = rejection a reason ∷ []

  -- The records of the requests that the conversion rejects.
  abbrev pub rejections : List Arrival → List RejectRecord
  rejections [] = []
  rejections (a ∷ rest) = rejected_if a (convert a.request) ++ rejections rest

abbrev pub delivered_if : Result RejectReason SpanBatch → SendOutcome → List SpanBatch
delivered_if (ok batch) sent = batch ∷ []
delivered_if (ok batch) closed = []
delivered_if (ok batch) timed_out = []
delivered_if (err reason) outcome = []

-- The batches of the requests that are converted and sent.
abbrev pub delivered : List Arrival → List SpanBatch
delivered [] = []
delivered (a ∷ rest) = delivered_if (convert a.request) a.outcome ++ delivered rest

abbrev pub span_total : List SpanBatch → ℕ
span_total [] = 0
span_total (b ∷ bs) = length b.spans + span_total bs

abbrev pub same_transport : Transport → Transport → Bool
same_transport grpc_v4317 grpc_v4317 = true
same_transport grpc_v4317 http_protobuf_v4318 = false
same_transport grpc_v4317 http_json_v4318 = false
same_transport http_protobuf_v4318 grpc_v4317 = false
same_transport http_protobuf_v4318 http_protobuf_v4318 = true
same_transport http_protobuf_v4318 http_json_v4318 = false
same_transport http_json_v4318 grpc_v4317 = false
same_transport http_json_v4318 http_protobuf_v4318 = false
same_transport http_json_v4318 http_json_v4318 = true

abbrev pub over : Transport → List Arrival → List Arrival
over tr [] = []
over tr (a ∷ rest) = if same_transport tr a.transport then a ∷ over tr rest else over tr rest

abbrev pub count_of : ArrivalCounts → Transport → ℕ
count_of c grpc_v4317 = c.grpc
count_of c http_protobuf_v4318 = c.http_protobuf
count_of c http_json_v4318 = c.http_json

-- What one request does.
pub record Step (debug : RejectReason → Text) (s : IngestState) (a : Arrival) (s' : IngestState)
    : Type 0 where
  pub queue : s'.queue ≡ s.queue ++ delivered_if (convert a.request) a.outcome
  pub ring :
      (history : List RejectRecord)
      → s.receiver.rejects.ring ≡ last_hundred history
      → s'.receiver.rejects.ring ≡ last_hundred (history ++ rejected_if debug a (convert a.request))
  pub arrivals :
      (tr : Transport)
      → count_of s'.receiver.arrivals tr % 2 ^ 64
        ≡ (count_of s.receiver.arrivals tr
            + (if same_transport tr a.transport
                then span_total (delivered_if (convert a.request) a.outcome)
                else 0))
          % 2 ^ 64

pub recorded :
    (c : ArrivalCounts) (tr tr' : Transport) (n : ℕ)
    → count_of (record_arrival c tr' n) tr % 2 ^ 64
      ≡ (count_of c tr + (if same_transport tr tr' then n + 0 else 0)) % 2 ^ 64
unfolding record_arrival
recorded c grpc_v4317 grpc_v4317 n = omega arith
recorded c grpc_v4317 http_protobuf_v4318 n = omega arith
recorded c grpc_v4317 http_json_v4318 n = omega arith
recorded c http_protobuf_v4318 grpc_v4317 n = omega arith
recorded c http_protobuf_v4318 http_protobuf_v4318 n = omega arith
recorded c http_protobuf_v4318 http_json_v4318 n = omega arith
recorded c http_json_v4318 grpc_v4317 n = omega arith
recorded c http_json_v4318 http_protobuf_v4318 n = omega arith
recorded c http_json_v4318 http_json_v4318 n = omega arith

pub idle : (b : Bool) (n : ℕ) → n % 2 ^ 64 ≡ (n + (if b then 0 else 0)) % 2 ^ 64
idle true n = omega arith
idle false n = omega arith
