-- ===== src/Dump/Routed.antt =====
-- `--dump` of src/dump.rs against the routes of src/api/mod.rs over a store.
use spanfall.Prelude.{
  ℕ, ◌/◌, ◌%◌, ◌*◌, ◌^◌, ◌<◌, ◌≤◌, ◌≡◌, ◌≢◌, ap, ◌∙◌, Option, List, [], ◌∷◌, map, All, Exec, ok,
  arith,
}
use spanfall.Prelude.MapLaws.{AllValues}
use spanfall.Prelude.Text.{Text}
use spanfall.Types.{TraceId, IsBytes, hex_digit, format_02x, hex_of, to_hex}
use spanfall.Trace.{span_count}
use spanfall.Store.Valid.{IsValid}
use spanfall.Ingest.Convert.{Result, ok}
use spanfall.Api.{ReceiverResponse, get_receiver, json}
use spanfall.Api.Traces.{TraceSummary, TracePayload}
use spanfall.Api.Traces.Summaries.{list_traces-Lists}
use spanfall.Api.Filter.{Numbers}
use spanfall.Api.Router.{ApiState, Handler, Reply, summaries, payload, receiver_page, respond}
use spanfall.Api.Router.Urls.{RoutesAsDocumented, traces, trace, receiver, IsSegment}
use spanfall.Api.Router.Responses.{respond-path_of}
use spanfall.Json.{Value, array, values}
use spanfall.Dump.{dump_value, fetch_dump}
use spanfall.Dump.Served.{Dumps, summary_value, fetch_dump-Dumps}

hex_digit-plain : (d : ℕ) → d < 16 → (hex_digit d ≢ b'/') × (hex_digit d ≢ b'%')
unfolding hex_digit
hex_digit-plain d h = (ground arith, ground arith)

hex_of-plain :
    (bs : List ℕ) → All (λ b. b < 256) bs → All (λ x. (x ≢ b'/') × (x ≢ b'%')) (hex_of bs)
unfolding hex_of format_02x
hex_of-plain [] h = tt
hex_of-plain (b ∷ bs) h = (
  hex_digit-plain (b / 16) (omega arith),
  (hex_digit-plain (b % 16) (omega arith), hex_of-plain bs h.1),
)

-- The hexadecimal form of an id is one segment of a path.
to_hex-IsSegment : (id : TraceId) → IsBytes 16 id.bytes → IsSegment (to_hex id)
unfolding to_hex
to_hex-IsSegment id h = go id.bytes h
  where
    go : (bs : List ℕ) → IsBytes 16 bs → IsSegment (hex_of bs)
    go [] h = absurd (omega (arith, h.0))
    go (b ∷ bs) h = unfold hex_of format_02x in hex_of-plain (b ∷ bs) h.1

-- What the JSON of an answer is to a client that reads it back.
pub record ReadsBack (fetch : Exec Reply → Result {0, 0} Text Value)
    (payload_value : TracePayload → Value) (receiver_value : ReceiverResponse → Value)
    : Type 0 where
  pub lists :
      (xs : List TraceSummary)
      → fetch (ok (summaries xs)) ≡ ok (array (values (map summary_value xs)))
  pub payloads : (p : TracePayload) → fetch (ok (payload (json p))) ≡ ok (payload_value p)
  pub pages : (r : ReceiverResponse) → fetch (ok (receiver_page r)) ≡ ok (receiver_value r)

-- Against the routed API over a valid store, where axum matches paths as it documents and the JSON of
-- an answer reads back, `fetch_dump` gives an object with the receiver's page and, for each trace of
-- the store, in order, the payload that `get_trace` answers: every id has sixteen bytes, and three
-- times the number of spans of each trace is at most 2^32.
pub fetch_dump-Routed :
    (route : List (Text × Handler) → Text → Option (Handler × List Text)) (n : Numbers)
    (state : ApiState) (fetch : Exec Reply → Result {0, 0} Text Value)
    (payload_value : TracePayload → Value) (receiver_value : ReceiverResponse → Value)
    → RoutesAsDocumented route
    → ReadsBack fetch payload_value receiver_value
    → IsValid state.store
    → All (λ kv. IsBytes 16 kv.0.bytes) state.store.traces
    → AllValues (λ t. 3 * span_count t ≤ 2 ^ 32) state.store.traces
    → (ps : List TracePayload) × (fetch_dump (λ path. fetch (respond route n state path []))
        ≡ ok (
            dump_value
              (map payload_value ps)
              (receiver_value (get_receiver state.store state.receiver))))
      × Dumps state.store state.store.traces ps
fetch_dump-Routed route n state fetch payload_value receiver_value documented reads v ids room =
    let (xs, listed, lists) = list_traces-Lists state.store v in
    fetch_dump-Dumps state.store (λ path. fetch (respond route n state path [])) payload_value xs
      (receiver_value (get_receiver state.store state.receiver)) v ids room listed
      (ap fetch (respond-path_of route n state traces [] documented tt ∙ rw listed)
        ∙ reads.lists xs)
      (λ id p sixteen ret.
        ap fetch (
          respond-path_of route n state (trace (to_hex id)) [] documented
            (to_hex-IsSegment id sixteen)
          ∙ rw ret)
        ∙ reads.payloads p)
      (ap fetch (respond-path_of route n state receiver [] documented tt)
        ∙ reads.pages (get_receiver state.store state.receiver))
