-- ===== src/Tests/Servers.antt =====
-- A server that meets one request, at concrete inputs.
use spanfall.Prelude.{◌<◌, ◌⊎◌, ◌+◌, ◌≡◌, refl, false, true, none, [], ◌∷◌, ◌++◌, ok, arith}
use spanfall.Store.{trace, Store, new as new_store}
use spanfall.Store.Valid.{IsValid, Room, store_new-IsValid}
use spanfall.Interner
use spanfall.Store.View.{View, Shows, Spare}
use spanfall.Store.View.Batches.{Sees}
use spanfall.Api.{get_receiver}
use spanfall.Server.Page.{Tells, get_receiver-Tells}
use spanfall.Server.Seen.{Reaches-Sees}
use spanfall.Server.Whole.{bytes_in, ServesAll, Reaches-ServesAll}
use spanfall.Store.Writer.{Writer, apply_batch}
use spanfall.Store.Writer.Runs.{apply_batch_lem, Room-le, attr_total}
use spanfall.Ingest.Convert.{
  SpanBatch, convert, convert_resources, convert_scopes, convert_spans, convert_span, trace_id_of,
  span_id_of, new_span_of, attrs_of, attr_of, attr_value_of, service_name_of, ok,
}
use spanfall.Ingest.Receiver.{http_json_v4318}
use spanfall.Ingest.Handler.{sent, accept, accept_conversion, catch_conversion_panic, send_batch}
use spanfall.Ingest.Handler.Accounts.{Arrival, delivered, span_total}
use spanfall.Store.Budget.{IsWithin}
use spanfall.Demo.{seed}
use spanfall.Demo.Seed.{ShowsDemo, demo_view, seed-ShowsDemo}
use spanfall.Server.{Server, Reaches, start, request, apply, arrive, spawn, first_store}
use spanfall.Server.Flow.{Flows, Reaches-Flows}
use spanfall.Server.Drain.{attrs_in, Drained, stamped, Reaches-drains}
use spanfall.Trace.{NewSpan}
use spanfall.Types.{pos, str}
use spanfall.Prelude.Text.{text, str_len}
use spanfall.Tests.Data.{store0, store0-Room, id1, sid}
use spanfall.Tests.Requests.{request as request0, debug}

abbrev pub arrival : Arrival
arrival = record { request = request0; transport = http_json_v4318; outcome = sent; now = 7 }

abbrev server1 : Server
server1 = (arrive debug (spawn store0) arrival).0

reached1 : Reaches debug store0 (arrival ∷ []) [] server1
unfolding spawn
reached1 = request arrival (omega arith) start

pub first_store-store0 : first_store 200 false ≡ ok store0
unfolding first_store
first_store-store0 = refl

Reaches-drains_example :
    (s' : Server) × Reaches debug store0
      (arrival ∷ [])
      ([] ++ stamped (λ i. i + 9) 0 server1.waiting)
      s'
    × Drained (arrival ∷ []) s'
unfolding convert convert_resources convert_scopes convert_spans convert_span trace_id_of span_id_of
    new_span_of attrs_of attr_of
Reaches-drains_example =
    Reaches-drains debug 200 false store0 (arrival ∷ []) [] server1 (λ i. i + 9) first_store-store0
      (omega arith) reached1

abbrev good_span : NewSpan
good_span = record {
  span_id = sid 1;
  parent_span_id = none;
  name = text "op";
  start_time_unix_nano = 1;
  end_time_unix_nano = 2;
  status_message = [];
  status_code = pos 0;
  unknown_service = true;
  service_name = none;
  attributes = (text "k", str (text "v")) ∷ [];
}

-- The batch of the request, and the writer after it.
abbrev batch : SpanBatch
batch = record { spans = (id1, good_span) ∷ []; is_partial = true; malformed_span_count = 1 }

waiting1 : server1.waiting ≡ batch ∷ []
unfolding arrive accept accept_conversion catch_conversion_panic send_batch spawn convert
    convert_resources convert_scopes convert_spans convert_span trace_id_of span_id_of new_span_of
    attrs_of attr_of attr_value_of service_name_of
waiting1 = refl

batch_Room : Room (attr_total batch.spans + 0) store0
batch_Room = Room-le 1 10 store0 (omega arith) store0-Room

abbrev applied1 : (w' : Writer) × (apply_batch (spawn store0).writer batch 9 ≡ ok w')
unfolding spawn
applied1 =
    let (w', ret, room, within, ran) =
      apply_batch_lem (spawn store0).writer batch 9 0 (store_new-IsValid 200) batch_Room in
    (w', ret)

abbrev server2 : Server
server2 = record server1 { waiting = []; writer = applied1.0 }

reached2 : Reaches debug store0 (arrival ∷ []) ((batch, 9) ∷ []) server2
unfolding arrive
reached2 = apply 9 waiting1 applied1.1 reached1

Reaches-Flows_example : Flows debug store0 (arrival ∷ []) ((batch, 9) ∷ []) server2
Reaches-Flows_example = Reaches-Flows debug store0 (arrival ∷ []) ((batch, 9) ∷ []) server2 reached2

seed-ShowsDemo_example :
    (s : Store) × (seed (new_store 1073741824) ≡ ok s)
    × IsValid s
    × IsWithin s
    × ShowsDemo s
    × ((1073741824 < 15375) ⊎ Shows s demo_view)
seed-ShowsDemo_example = seed-ShowsDemo 1073741824

-- The batches on the channel have one attribute.
attrs1 : attrs_in (delivered (arrival ∷ [])) ≡ 1
unfolding convert convert_resources convert_scopes convert_spans convert_span trace_id_of span_id_of
    new_span_of attrs_of attr_of
attrs1 = refl

spans1 : span_total (delivered (arrival ∷ [])) ≡ 1
unfolding convert convert_resources convert_scopes convert_spans convert_span trace_id_of span_id_of
    new_span_of attrs_of attr_of
spans1 = refl

room1 : Room (attrs_in (delivered (arrival ∷ []))) store0
room1 = Room-le (attrs_in (delivered (arrival ∷ []))) 10 store0 (omega (arith, attrs1)) store0-Room

spare1 : Spare store0 (attrs_in (delivered (arrival ∷ []))) (span_total (delivered (arrival ∷ [])))
unfolding new_store Interner.new
spare1 = record { keys = omega (arith, attrs1); services = omega (arith, spans1) }

get_receiver-Tells_example :
    Tells debug store0
      (arrival ∷ [])
      ((batch, 9) ∷ [])
      (get_receiver server2.writer.store server2.receiver)
get_receiver-Tells_example =
    get_receiver-Tells debug store0 (arrival ∷ []) ((batch, 9) ∷ []) server2 (store_new-IsValid 200)
      room1 reached2

store0-Empty : Shows store0 []
unfolding new_store trace
store0-Empty id = refl

Reaches-Sees_example : (m' : View) × Sees [] ((batch, 9) ∷ []) m' × Shows server2.writer.store m'
Reaches-Sees_example =
    Reaches-Sees debug store0 [] (arrival ∷ []) ((batch, 9) ∷ []) server2 (store_new-IsValid 200)
      room1 spare1 store0-Empty reached2

bytes1 : bytes_in (delivered (arrival ∷ [])) ≡ 90
unfolding convert convert_resources convert_scopes convert_spans convert_span trace_id_of span_id_of
    new_span_of attrs_of attr_of str_len
bytes1 = refl

Reaches-ServesAll_example :
    (s' : Server) × Reaches debug store0
      (arrival ∷ [])
      ([] ++ stamped (λ i. i + 9) 0 server1.waiting)
      s'
    × ServesAll s'.writer.store (delivered (arrival ∷ []))
Reaches-ServesAll_example =
    Reaches-ServesAll debug 200 (arrival ∷ []) [] server1 (λ i. i + 9) (omega (arith, attrs1))
      (omega (arith, spans1)) (omega (arith, bytes1)) reached1
