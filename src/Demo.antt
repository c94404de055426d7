-- ===== src/Demo.antt =====
-- src/demo.rs: the spans that `--demo` puts in the store before the listeners start.
pub mod Total
pub mod Seed
use spanfall.Prelude.{
  ℕ, zero, suc, ◌+◌, ◌/◌, ◌%◌, ◌^◌, true, false, Bool, not, is_some, Option, none, some, List, [],
  ◌∷◌, ◌++◌, map, Exec, ok, ◌>>=◌,
}
use spanfall.Prelude.Text.{Text, text}
use spanfall.Prelude.Strings.{to_string}
use spanfall.Types.{TraceId, SpanId, AttrValue, pos, str, int}
use spanfall.Trace.{NewSpan}
use spanfall.Store.{Store, insert_span_no_evict}
use spanfall.Store.Evict.{evict_over_budget}

unfoldable pub span : List ℕ → Option (List ℕ) → Text → ℕ → ℕ → Option Text → NewSpan
span span_id parent name start end service = record {
  span_id = record { bytes = span_id };
  parent_span_id = elim parent [ none ↦ none | some bytes ↦ some (record { bytes = bytes }) ];
  name = name;
  start_time_unix_nano = start;
  end_time_unix_nano = end;
  status_message = [];
  status_code = pos 0;
  unknown_service = not (is_some service);
  service_name = service;
  attributes = [];
}

-- The ids of the traces.
abbrev pub checkout : TraceId
checkout = record { bytes = text "checkout-flow-01" }

abbrev pub anon : TraceId
anon = record { bytes = text "missing-svc-name" }

abbrev pub broken : TraceId
broken = record { bytes = text "broken-propagatn" }

abbrev pub drift : TraceId
drift = record { bytes = text "attribute-drift1" }

abbrev pub slow : TraceId
slow = record { bytes = text "slow-leaf-span01" }

abbrev pub search : TraceId
search = record { bytes = text "high-cardinality" }

abbrev pub checkout_spans : List NewSpan
checkout_spans =
    span (text "root-001") none (text "POST /checkout") 0 300000000 (some (text "checkout"))
    ∷ span (text "charge01") (some (text "root-001")) (text "charge-card") 10000000 180000000
        (some (text "payments"))
    ∷ span (text "reserve1") (some (text "root-001")) (text "reserve-inventory") 10000000 90000000
        (some (text "inventory"))
    ∷ []

abbrev pub anon_spans : List NewSpan
anon_spans = span (text "anon0001") none (text "GET /health") 0 5000000 none ∷ []

abbrev pub broken_spans : List NewSpan
broken_spans =
    span (text "gateway1") none (text "gateway") 0 200000000 (some (text "gateway"))
    ∷ span (text "authchld") (some (text "neverprt")) (text "validate-token") 5000000 40000000
        (some (text "auth"))
    ∷ []

-- The two spans of the trace whose attribute changes its type.
abbrev pub drift_spans : List NewSpan
drift_spans =
    record (span (text "drift001") none (text "GET /orders") 0 50000000 (some (text "orders"))) {
      attributes = (text "http.status_code", int (pos 200)) ∷ [];
    }
    ∷ record (span (text "drift002") none (text "GET /invoice") 0 60000000
        (some (text "billing"))) { attributes = (text "http.status_code", str (text "200")) ∷ [] }
    ∷ []

abbrev pub slow_spans : List NewSpan
slow_spans =
    span (text "slowroot") none (text "batch-export") 0 3000000000 (some (text "reporting"))
    ∷ span (text "slowleaf") (some (text "slowroot")) (text "render-pdf") 0 2000000000
        (some (text "reporting"))
    ∷ []

-- `i.to_be_bytes()` of a `u32`.
unfoldable pub to_be_bytes : ℕ → List ℕ
to_be_bytes i = i / 2 ^ 24 % 256 ∷ i / 2 ^ 16 % 256 ∷ i / 2 ^ 8 % 256 ∷ i % 256 ∷ []

unfoldable pub search_span : ℕ → NewSpan
search_span i =
    span (text "srch" ++ to_be_bytes i) (some (text "searchrt")) (text "query:" ++ to_string i)
      1000000 2000000 (some (text "search"))

-- The loop `for i in i..i + count`.
unfoldable pub search_leaves : ℕ → ℕ → List NewSpan
search_leaves i zero = []
search_leaves i (suc count) = search_span i ∷ search_leaves (suc i) count

unfoldable pub search_spans : List NewSpan
search_spans =
    span (text "searchrt") none (text "search-request") 0 500000000 (some (text "search"))
    ∷ search_leaves 0 200

abbrev pub in_trace : TraceId → List NewSpan → List (TraceId × NewSpan)
in_trace id spans = map (λ s. (id, s)) spans

-- The calls of `insert`, in order.
unfoldable pub demo_spans : List (TraceId × NewSpan)
demo_spans =
    in_trace checkout checkout_spans
    ++ (in_trace anon anon_spans
        ++ (in_trace broken broken_spans
            ++ (in_trace drift drift_spans
                ++ (in_trace slow slow_spans ++ in_trace search search_spans))))

-- The closure `insert` on one span after another, the first one at `now`.
unfoldable pub insert_all : Store → List (TraceId × NewSpan) → ℕ → Exec Store
insert_all store [] now = ok store
insert_all store ((trace_id, s) ∷ spans) now = do
  (store', outcome) ← insert_span_no_evict store trace_id s now
  insert_all store' spans (now + 1)

unfoldable pub seed : Store → Exec Store
seed store = do store' ← insert_all store demo_spans 0; evict_over_budget store'
