-- ===== src/Tests/Orders.antt =====
-- Two servers that meet the same two requests in either order.
use mathlib.Core.List.{Permᴰ}
use spanfall.Prelude.{refl, false, none, List, [], ◌∷◌, ◌++◌, arith}
use spanfall.Prelude.Text.{str_len}
use spanfall.Ingest.Convert.{
  convert, convert_resources, convert_scopes, convert_spans, convert_span, trace_id_of, span_id_of,
  new_span_of, attrs_of, attr_of,
}
use spanfall.Ingest.Receiver.{grpc_v4317}
use spanfall.Ingest.Handler.{accept, accept_conversion, catch_conversion_panic, send_batch}
use spanfall.Ingest.Handler.Accounts.{Arrival, delivered}
use spanfall.Server.{Server, Reaches, start, request, arrive, spawn}
use spanfall.Server.Drain.{Drained, stamped, Reaches-drains}
use spanfall.Server.Whole.{sent_spans}
use spanfall.Server.Order.{IsSmall, SameTrace, Reaches-SameTrace}
use spanfall.Store.View.Order.{AllApart}
use spanfall.Tests.Data.{store0, sid, id1}
use spanfall.Tests.Requests.{debug, good}
use spanfall.Tests.Servers.{arrival, first_store-store0}

-- The child of the other request's span, over the other transport.
abbrev child_arrival : Arrival
child_arrival = record arrival {
  request = record {
    resource_spans =
        (record {
          resource = none;
          scope_spans =
              (record {
                spans =
                    record good { span_id = (sid 2).bytes; parent_span_id = (sid 1).bytes } ∷ [];
              })
              ∷ [];
        })
        ∷ [];
  };
  transport = grpc_v4317;
}

abbrev forwards : List Arrival
forwards = arrival ∷ child_arrival ∷ []

abbrev backwards : List Arrival
backwards = child_arrival ∷ arrival ∷ []

-- The servers before the writer runs.
abbrev first : Server
first = (arrive debug (arrive debug (spawn store0) arrival).0 child_arrival).0

abbrev second : Server
second = (arrive debug (arrive debug (spawn store0) child_arrival).0 arrival).0

first-reached : Reaches debug store0 forwards [] first
unfolding spawn arrive accept accept_conversion catch_conversion_panic send_batch convert
    convert_resources convert_scopes convert_spans convert_span trace_id_of span_id_of new_span_of
    attrs_of attr_of
first-reached = request child_arrival (omega arith) (request arrival (omega arith) start)

second-reached : Reaches debug store0 backwards [] second
unfolding spawn arrive accept accept_conversion catch_conversion_panic send_batch convert
    convert_resources convert_scopes convert_spans convert_span trace_id_of span_id_of new_span_of
    attrs_of attr_of
second-reached = request arrival (omega arith) (request child_arrival (omega arith) start)

forwards-IsSmall : IsSmall 200 forwards
unfolding convert convert_resources convert_scopes convert_spans convert_span trace_id_of span_id_of
    new_span_of attrs_of attr_of str_len
forwards-IsSmall = record { attrs = omega arith; spans = omega arith; bytes = omega arith }

backwards-IsSmall : IsSmall 200 backwards
unfolding convert convert_resources convert_scopes convert_spans convert_span trace_id_of span_id_of
    new_span_of attrs_of attr_of str_len
backwards-IsSmall = record { attrs = omega arith; spans = omega arith; bytes = omega arith }

forwards-AllApart : AllApart (sent_spans (delivered forwards))
unfolding convert convert_resources convert_scopes convert_spans convert_span trace_id_of span_id_of
    new_span_of attrs_of attr_of
forwards-AllApart = ((refl, tt), (tt, tt))

swapped : Permᴰ (sent_spans (delivered forwards)) (sent_spans (delivered backwards))
unfolding convert convert_resources convert_scopes convert_spans convert_span trace_id_of span_id_of
    new_span_of attrs_of attr_of
swapped = Permᴰ.swap refl refl

abbrev first_drained :
    (s' : Server) × Reaches debug store0 forwards ([] ++ stamped (λ i. i) 0 first.waiting) s'
    × Drained forwards s'
first_drained =
    Reaches-drains debug 200 false store0 forwards [] first (λ i. i) first_store-store0
      (omega (arith, forwards-IsSmall.attrs)) first-reached

abbrev second_drained :
    (s' : Server) × Reaches debug store0 backwards ([] ++ stamped (λ i. i) 0 second.waiting) s'
    × Drained backwards s'
second_drained =
    Reaches-drains debug 200 false store0 backwards [] second (λ i. i) first_store-store0
      (omega (arith, backwards-IsSmall.attrs)) second-reached

Reaches-SameTrace_example : SameTrace first_drained.0.writer.store second_drained.0.writer.store id1
Reaches-SameTrace_example =
    Reaches-SameTrace debug 200 forwards backwards ([] ++ stamped (λ i. i) 0 first.waiting)
      ([] ++ stamped (λ i. i) 0 second.waiting) first_drained.0 second_drained.0 id1
      forwards-IsSmall backwards-IsSmall first_drained.2.waiting second_drained.2.waiting
      forwards-AllApart swapped (refl, omega arith) first_drained.1 second_drained.1
