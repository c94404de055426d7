-- ===== src/Store/Evict.antt =====
-- The memory budget of src/store/mod.rs: approximate sizes and eviction. A size is the size of data
-- in memory, so a `usize` holds it and its sums do not wrap.
use spanfall.Prelude.{
  ℕ, zero, suc, ◌+◌, ◌*◌, Bool, ◌&&◌, Option, none, some, [], ◌∷◌, ltb, leb, if◌then◌else◌, length,
  Exec, ok, panic, ◌>>=◌,
}
use spanfall.Prelude.Map
use spanfall.Prelude.Map.{Map}
use spanfall.Prelude.Text.{str_len}
use spanfall.Types.{TraceId, trace_id_eq}
use spanfall.Counters.{add_u64}
use spanfall.Trace.{Trace, NewSpan, span_count, name, attributes}
use spanfall.Store.{Store, StoreInsertOutcome, insert_span_no_evict}

abbrev pub approx_span_fixed_bytes : ℕ
approx_span_fixed_bytes = 64

abbrev pub approx_attr_fixed_bytes : ℕ
approx_attr_fixed_bytes = 24

-- The loop `for idx in idx..span_count`, with `count` rounds left.
unfoldable pub approx_bytes_from : Trace → ℕ → ℕ → ℕ → Exec ℕ
approx_bytes_from t idx zero total = ok total
approx_bytes_from t idx (suc count) total = do
  n ← name t idx
  values ← attributes t idx
  approx_bytes_from t (suc idx) count
      (total + approx_span_fixed_bytes + str_len n + length values * approx_attr_fixed_bytes)

unfoldable pub approx_bytes : Trace → Exec ℕ
approx_bytes t = approx_bytes_from t 0 (span_count t) 0

unfoldable pub sum_approx_bytes : Map TraceId Trace → Exec ℕ
sum_approx_bytes [] = ok 0
sum_approx_bytes ((id, t) ∷ m) = do b ← approx_bytes t; rest ← sum_approx_bytes m; ok (b + rest)

unfoldable pub total_approx_bytes : Store → Exec ℕ
total_approx_bytes s = sum_approx_bytes s.traces

-- `iter().min_by_key(..)`: the first entry whose `last_activity` is the least.
unfoldable pub oldest_entry : Map TraceId Trace → Option (TraceId × Trace)
oldest_entry [] = none
oldest_entry ((id, t) ∷ m) = elim (oldest_entry m) [
  | none ↦ some (id, t)
  | some (id', t') ↦
      if leb t.last_activity_unix_nano t'.last_activity_unix_nano
      then some (id, t)
      else some (id', t')
]

unfoldable pub oldest : Map TraceId Trace → Option TraceId
oldest m = elim (oldest_entry m) [ none ↦ none | some (id, t) ↦ some id ]

-- The end of the loop's body: `if let Some(t) = self.traces.remove(&id)`.
unfoldable pub evict : Store → TraceId → Store
evict s id = elim (Map.get s.traces id) [
  | none ↦ s
  | some t ↦ record s {
    traces = Map.remove s.traces id;
    evicted_generations = Map.insert s.evicted_generations id t.generation;
    counters = record s.counters { evicted_traces = add_u64 s.counters.evicted_traces 1 };
  }
]

-- The loop's test.
unfoldable pub over_budget : Store → ℕ → Bool
over_budget s total = ltb s.max_memory_bytes total && ltb 1 (length s.traces)

-- The loop's body; without a trace it breaks. `again` is the loop.
unfoldable pub evict_oldest : Store → (Store → Exec Store) → Option TraceId → Exec Store
evict_oldest s again none = ok s
evict_oldest s again (some id) = again (evict s id)

-- The `while` loop. Each round removes a trace, so as many rounds as there are traces suffice.
unfoldable pub evict_loop : ℕ → Store → Exec Store
evict_loop zero s = panic
evict_loop (suc fuel) s = do
  total ← total_approx_bytes s
  let next = evict_oldest s (evict_loop fuel) (oldest s.traces)
  if over_budget s total then next else ok s

unfoldable pub evict_over_budget : Store → Exec Store
evict_over_budget s = evict_loop (suc (length s.traces)) s

unfoldable pub insert_span : Store → TraceId → NewSpan → ℕ → Exec (Store × StoreInsertOutcome)
insert_span s trace_id span now_unix_nano = do
  (s', outcome) ← insert_span_no_evict s trace_id span now_unix_nano
  s'' ← evict_over_budget s'
  ok (s'', outcome)
