-- ===== src/Tests/Routes.antt =====
-- The routes of the read API, and a dump through them, at concrete inputs.
use spanfall.Prelude.{
  some, Option, none, ◌*◌, ◌^◌, ◌≤◌, ◌≡◌, refl, ap, true, List, [], ◌∷◌, map, All, Exec, ok, ℕ_eq,
  arith,
}
use spanfall.Prelude.Map
use spanfall.Prelude.MapLaws.{AllValues}
use spanfall.Prelude.Text.{Text, text}
use spanfall.Types.{IsBytes, trace_id_eq}
use spanfall.Trace.{span_count, new as new_trace}
use spanfall.Trace.Insert.{
  insert, insert_interned, patch_waiting, push_span, find_parent, push_pending,
}
use spanfall.Store.{new as new_store, entry, insert_span_no_evict}
use spanfall.Ingest.Convert.{Result, ok, err}
use spanfall.Api.{json}
use spanfall.Api.Traces.{TracePayload}
use spanfall.Json.{Value, null, string, array, values}
use spanfall.Dump.{fetch_dump, dump_value}
use spanfall.Dump.Served.{Dumps, summary_value}
use spanfall.Tests.Data.{store1, store1-IsValid}
use spanfall.Ingest.Receiver.{default}
use spanfall.Api.{ReceiverResponse, get_receiver}
use spanfall.Api.Traces.{TracePayload}
use spanfall.Api.Router.{ApiState, Handler, Reply, summaries, payload, receiver_page, respond}
use spanfall.Api.Router.Urls.{segments, fitting, RoutesAsDocumented, attributes, path_of, answer_at}
use spanfall.Api.Router.Responses.{respond-path_of}
use spanfall.Dump.Routed.{ReadsBack, fetch_dump-Routed}
use spanfall.Dump.Served.{Dumps, summary_value}
use spanfall.Dump.{fetch_dump, dump_value}
use spanfall.Startup.{bound, addr_in_use}
use spanfall.Startup.Listening.{Attempt, Starts, start_server-Starts}
use spanfall.Tests.Readers.{no_numbers}

-- The first route that a path fits.
abbrev first_route : List (Text × Handler) → Text → Option (Handler × List Text)
first_route table path = elim (fitting table (segments path)) [ [] ↦ none | x ∷ rest ↦ some x ]

first_route-documented : RoutesAsDocumented first_route
first_route-documented table path h parameters unescaped one =
    ap (λ xs. elim xs [ [] ↦ none | x ∷ rest ↦ some x ]) one

abbrev state : ApiState
state = record { store = store1; receiver = default; events_seq = 3 }

respond-path_of_example :
    respond first_route no_numbers state (path_of (attributes (text "0a") 12)) []
    ≡ answer_at no_numbers state [] (attributes (text "0a") 12)
respond-path_of_example =
    respond-path_of first_route no_numbers state (attributes (text "0a") 12) []
      first_route-documented (omega arith)

abbrev payload_value : TracePayload → Value
payload_value p = string p.trace_id

abbrev receiver_value : ReceiverResponse → Value
receiver_value r = null

abbrev fetch : Exec Reply → Result {0, 0} Text Value
fetch (ok (summaries xs)) = ok (array (values (map summary_value xs)))
fetch (ok (payload (json p))) = ok (payload_value p)
fetch (ok (receiver_page r)) = ok (receiver_value r)
fetch reply = err (text "no answer")

fetch-ReadsBack : ReadsBack fetch payload_value receiver_value
fetch-ReadsBack = record { lists = λ xs. refl; payloads = λ p. refl; pages = λ r. refl }

ids1 : All (λ kv. IsBytes 16 kv.0.bytes) store1.traces
unfolding insert_span_no_evict insert insert_interned entry new_store new_trace patch_waiting
    push_span find_parent push_pending Map.insert
ids1 = ((refl, omega arith), tt)

small1 : AllValues (λ t. 3 * span_count t ≤ 2 ^ 32) store1.traces
unfolding insert_span_no_evict insert insert_interned entry new_store new_trace patch_waiting
    push_span find_parent push_pending Map.insert span_count
small1 = (omega arith, tt)

fetch_dump-Routed_example :
    (ps : List TracePayload) × (fetch_dump
        (λ path. fetch (respond first_route no_numbers state path []))
      ≡ ok (
          dump_value
            (map payload_value ps)
            (receiver_value (get_receiver state.store state.receiver))))
    × Dumps store1 store1.traces ps
fetch_dump-Routed_example =
    fetch_dump-Routed first_route no_numbers state fetch payload_value receiver_value
      first_route-documented fetch-ReadsBack store1-IsValid ids1 small1

abbrev ports : List Attempt
ports =
    (bound, 4317, none) ∷ (addr_in_use, 4318, some (text "node (pid 7)")) ∷ (bound, 5317, none) ∷ []

start_server-Starts_example : Starts ports true
start_server-Starts_example = start_server-Starts ports true
