-- ===== src/Tests/Requests.antt =====
-- Requests and connections at concrete inputs.
use spanfall.Prelude.{ℕ, zero, suc, ◌≡◌, ◌↔◌, refl, true, none, some, List, [], ◌∷◌}
use spanfall.Prelude.Text.{Text, text}
use spanfall.Ingest.Convert.{
  ExportTraceServiceRequest, Span, RejectReason, empty_payload, decode_error, Result, ok, err,
  convert, decode, string_value,
}
use spanfall.Ingest.Convert.Laws.{convert_lem, all_spans, batch_of}
use spanfall.Ingest.Receiver.{default, grpc_v4317, http_json_v4318}
use spanfall.Ingest.Handler.{IngestState, sent, closed}
use spanfall.Ingest.Handler.Accounts.{Arrival, accept_all, accept_all-Remembers, Remembers}
use spanfall.Ingest.Handler.Transports.{http_export, grpc_export, content_type_of}
use spanfall.Ingest.Handler.Transports.Answers.{
  transports_agree, http_export-bad_request, http_status_of,
}
use spanfall.Ingest.Sniff.{Peek, read, looks_like_h2_preface}
use spanfall.Ingest.Sniff.Preface.{SeesPreface, looks_like_h2_preface_iff}
use spanfall.Tests.Data.{id1, sid}

abbrev pub good : Span
good = record {
  trace_id = id1.bytes;
  span_id = (sid 1).bytes;
  parent_span_id = [];
  name = text "op";
  start_time_unix_nano = 1;
  end_time_unix_nano = 2;
  attributes =
      (record { key = text "k"; value = some (record { value = some (string_value (text "v")) }) })
      ∷ [];
  status = none;
}

-- One span that converts, and one whose trace id is short.
abbrev pub request : ExportTraceServiceRequest
request = record {
  resource_spans =
      (record {
        resource = none;
        scope_spans = (record { spans = good ∷ record good { trace_id = 1 ∷ [] } ∷ [] }) ∷ [];
      })
      ∷ [];
}

abbrev empty : ExportTraceServiceRequest
empty = record { resource_spans = [] }

abbrev pub debug : RejectReason → Text
debug empty_payload = text "EmptyPayload"
debug (decode_error e) = text "DecodeError"

-- Decoders that take the empty body for the request, and refuse any other.
abbrev decoder : List ℕ → Result Text ExportTraceServiceRequest
decoder [] = ok request
decoder (b ∷ bs) = err (text "bad")

abbrev state0 : IngestState
state0 = record { queue = []; receiver = default }

convert_lem_example : convert request ≡ elim (all_spans request.resource_spans) [
  | [] ↦ err empty_payload
  | x ∷ xs ↦ ok (batch_of (x ∷ xs))
]
convert_lem_example = convert_lem request

abbrev history : List Arrival
history =
    record { request = request; transport = grpc_v4317; outcome = sent; now = 1 }
    ∷ record { request = empty; transport = grpc_v4317; outcome = sent; now = 2 }
    ∷ record { request = request; transport = http_json_v4318; outcome = closed; now = 3 }
    ∷ []

accept_all-Remembers_example : Remembers debug history (accept_all debug state0 history)
accept_all-Remembers_example = accept_all-Remembers debug history

transports_agree_example :
    (http_export debug decoder decoder state0 none [] sent 4).1.status
    ≡ http_status_of (grpc_export debug state0 request sent 4).1
unfolding decode content_type_of
transports_agree_example = transports_agree debug state0 sent 4 decoder decoder none [] request refl

http_export-bad_request_example :
    ((reason : RejectReason) × (decode decoder decoder (1 ∷ []) (content_type_of none).0
        ≡ err reason))
    × ((http_export debug decoder decoder state0 none (1 ∷ []) sent 4).0 ≡ state0)
unfolding http_export decode content_type_of
http_export-bad_request_example =
    http_export-bad_request debug state0 sent 4 decoder decoder none (1 ∷ []) refl

-- The preface comes in two pieces.
abbrev slow_peer : ℕ → Peek
slow_peer zero = read (text "PR")
slow_peer (suc n) = read (text "PRI ")

looks_like_h2_preface_iff_example :
    (looks_like_h2_preface slow_peer ≡ some true) ↔ SeesPreface slow_peer 0 5
looks_like_h2_preface_iff_example = looks_like_h2_preface_iff slow_peer
