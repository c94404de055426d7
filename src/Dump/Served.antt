-- ===== src/Dump/Served.antt =====
-- What `--dump` of src/dump.rs gives when it talks to the API of src/api over a store.
use spanfall.Prelude.{
  ◌*◌, ◌^◌, ◌≤◌, ◌≡◌, refl, sym, ap, ap₂, ◌∙◌, subst, none, some, List, [], ◌∷◌, ◌++◌, map, All, ok,
  ℕ_eq, eq_refl,
}
use spanfall.Prelude.Map
use spanfall.Prelude.Map.{Map}
use spanfall.Prelude.MapLaws.{AllValues, Distinct, get_later}
use spanfall.Prelude.Text.{Text, text}
use spanfall.Types.{TraceId, IsBytes, to_hex, trace_id_eq}
use spanfall.Types.Hex.{from_hex-to_hex}
use spanfall.Trace.{Trace, span_count}
use spanfall.Trace.Readers.{span_count_lem}
use spanfall.Store.{Store, trace}
use spanfall.Store.Valid.{IsValid, Stored, key_count, service_count}
use spanfall.Prelude.{of_ok}
use spanfall.Ingest.Convert.{Result, ok}
use spanfall.Api.{json}
use spanfall.Api.Traces.{TraceSummary, TracePayload, get_trace, list_traces}
use spanfall.Api.Traces.Summaries.{Lists, list_traces-Lists}
use spanfall.Api.Traces.Payload.{get_trace-Holds}
use spanfall.Json.{
  Value, null, unsigned, string, array, object, member, no_members, values, items, get_member,
  index, as_str, as_array,
}
use spanfall.Dump.{
  rows_of, full_trace, full_traces, push_trace, dump_value, with_receiver, dump_rows, traces,
  fetch_dump,
}

-- The JSON that `derive(Serialize)` gives a summary: an object of its fields.
abbrev pub summary_value : TraceSummary → Value
summary_value x = object (
    member (text "trace_id") (string x.trace_id) (
      member (text "span_count") (unsigned x.span_count) (
        member (text "duration_nanos") (elim x.duration_nanos [ none ↦ null | some d ↦ unsigned d ])
          (member (text "services") (array (values (map string x.services))) no_members))))

items-values : (vs : List Value) → items (values vs) ≡ vs
items-values [] = refl
items-values (v ∷ vs) = ap (◌∷◌ v) (items-values vs)

summary_value-trace_id :
    (x : TraceSummary) → as_str (index (summary_value x) (text "trace_id")) ≡ some x.trace_id
unfolding index get_member as_str
summary_value-trace_id x = refl

-- Each payload is what the API answers for its trace.
abbrev pub Dumps : Store → Map TraceId Trace → List TracePayload → Type 0
Dumps s [] [] = Unit
Dumps s [] (p ∷ ps) = ⊥
Dumps s ((id, t) ∷ m) [] = ⊥
Dumps s ((id, t) ∷ m) (p ∷ ps) = (get_trace s (to_hex id) ≡ ok (json p)) × Dumps s m ps

get_trace_ok :
    (s : Store) (id : TraceId) (t : Trace)
    → IsBytes 16 id.bytes
    → trace s id ≡ some t
    → Stored (key_count s) (service_count s) t
    → 3 * span_count t ≤ 2 ^ 32
    → (p : TracePayload) × (get_trace s (to_hex id) ≡ ok (json p))
get_trace_ok s id t bytes found (rows, ref, within) room =
    let (c, ret, h) =
      get_trace-Holds s (to_hex id) id t rows (from_hex-to_hex id bytes) found ref within
        (subst (λ n. 3 * n ≤ 2 ^ 32) (span_count_lem t rows ref) room) in
    (_, ret)

module _ (s : Store) (get_json : Text → Result {0, 0} Text Value)
    (payload_value : TracePayload → Value)
    (answers : (id : TraceId) (p : TracePayload)
      → IsBytes 16 id.bytes
      → get_trace s (to_hex id) ≡ ok (json p)
      → get_json (text "/api/traces/" ++ to_hex id) ≡ ok (payload_value p)) where
  full_traces-Dumps :
      (m : Map TraceId Trace) (xs : List TraceSummary)
      → Lists s m xs
      → Distinct m
      → AllValues (Stored (key_count s) (service_count s)) m
      → AllValues (λ t. 3 * span_count t ≤ 2 ^ 32) m
      → All (λ kv. IsBytes 16 kv.0.bytes) m
      → ((id : TraceId) (t : Trace) → Map.get m id ≡ some t → trace s id ≡ some t)
      → (ps : List TracePayload) × (full_traces get_json (map summary_value xs)
          ≡ ok (map payload_value ps))
        × Dumps s m ps
  unfolding full_traces push_trace full_trace
  full_traces-Dumps [] [] l d stored room ids find = ([], refl, tt)
  full_traces-Dumps [] (x ∷ xs) l d stored room ids find = absurd l
  full_traces-Dumps ((id, t) ∷ m) [] l d stored room ids find = absurd l
  full_traces-Dumps ((id, t) ∷ m) (x ∷ xs) l d stored room ids find =
      let here : trace s id ≡ some t = find id t (rw (eq_refl id) refl) in
      let (p, ret) = get_trace_ok s id t ids.0 here stored.0 room.0 in
      let (ps, rets, dumps) =
        full_traces-Dumps m xs l.1 d.1 stored.1 room.1 ids.1
          (λ j u found. find j u (get_later id t m j u d.0 found)) in
      let first : full_trace (as_str (index (summary_value x) (text "trace_id"))) get_json
          ≡ ok (payload_value p) =
        ap (λ o. full_trace o get_json) (summary_value-trace_id x ∙ ap some l.0.trace_id)
        ∙ answers id p ids.0 ret in
      (p ∷ ps, ap₂ push_trace first rets, (ret, dumps))

rows_of-array : (vs : List Value) → rows_of (ok (array (values vs))) ≡ ok vs
unfolding rows_of as_array
rows_of-array vs = ap ok (items-values vs)

-- A client whose requests are answered over a valid store, as `list_traces`, `get_trace` and the
-- receiver's page answer them: where all ids have sixteen bytes and three times the number of spans
-- of each trace is at most 2^32, `fetch_dump` gives an object with the receiver's page and, for each
-- trace of the store, in order, the payload that `get_trace` answers.
pub fetch_dump-Dumps :
    (s : Store) (get_json : Text → Result {0, 0} Text Value) (payload_value : TracePayload → Value)
    (xs : List TraceSummary) (receiver : Value)
    → IsValid s
    → All (λ kv. IsBytes 16 kv.0.bytes) s.traces
    → AllValues (λ t. 3 * span_count t ≤ 2 ^ 32) s.traces
    → list_traces s ≡ ok xs
    → get_json (text "/api/traces") ≡ ok (array (values (map summary_value xs)))
    → ((id : TraceId) (p : TracePayload)
        → IsBytes 16 id.bytes
        → get_trace s (to_hex id) ≡ ok (json p)
        → get_json (text "/api/traces/" ++ to_hex id) ≡ ok (payload_value p))
    → get_json (text "/api/receiver") ≡ ok receiver
    → (ps : List TracePayload) × (fetch_dump get_json
        ≡ ok (dump_value (map payload_value ps) receiver))
      × Dumps s s.traces ps
unfolding fetch_dump dump_rows traces with_receiver trace
fetch_dump-Dumps s get_json payload_value xs receiver v ids room listed answered answers page =
    let (xs', ret, lists) = list_traces-Lists s v in
    let same : xs' ≡ xs = of_ok (sym ret ∙ listed) in
    let (ps, rets, dumps) =
      full_traces-Dumps s get_json payload_value answers s.traces xs
        (subst (Lists s s.traces) same lists) v.distinct v.traces room ids (λ id t found. found) in
    (
      ps,
      ap (dump_rows get_json) (ap rows_of answered ∙ rows_of-array (map summary_value xs))
          ∙ ap₂ with_receiver rets page,
      dumps,
    )
