-- ===== src/Store/Writer.antt =====
-- src/store/writer.rs: the task that applies the batches of a channel to the store, one after the
-- other. The channel's batches come in the order received, each with the clock's reading; an append
-- that panics ends the task.
pub mod Runs
use spanfall.Prelude.{ℕ, suc, ◌+◌, ◌%◌, ◌^◌, List, [], ◌∷◌, Exec, ok, ◌>>=◌}
use spanfall.Types.{TraceId}
use spanfall.Counters.{Counters, add_u64}
use spanfall.Trace.{NewSpan}
use spanfall.Store.{Store, insert_span_no_evict}
use spanfall.Store.Evict.{evict_over_budget}
use spanfall.Ingest.Convert.{SpanBatch}

-- The store, and the sequence number of the `watch` channel, a `u64`.
pub record Writer : Type 0 where
  pub store : Store
  pub seq : ℕ

-- The loop over the spans of a batch.
unfoldable pub append_spans : Store → List (TraceId × NewSpan) → ℕ → Exec Store
append_spans s [] now = ok s
append_spans s ((trace_id, span) ∷ spans) now = do
  (s', outcome) ← insert_span_no_evict s trace_id span now
  append_spans s' spans now

unfoldable pub count_malformed : Store → ℕ → Store
count_malformed s malformed = record s {
  counters = record s.counters { malformed_span = add_u64 s.counters.malformed_span malformed };
}

-- The body of the loop of `run`.
unfoldable pub apply_batch : Writer → SpanBatch → ℕ → Exec Writer
apply_batch w batch now = do
  appended ← append_spans w.store batch.spans now
  store ← evict_over_budget (count_malformed appended batch.malformed_span_count)
  ok (record { store = store; seq = add_u64 w.seq 1 })

unfoldable pub run : Writer → List (SpanBatch × ℕ) → Exec Writer
run w [] = ok w
run w ((batch, now) ∷ batches) = do w' ← apply_batch w batch now; run w' batches
