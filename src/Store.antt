-- ===== src/Store.antt =====
-- src/store/mod.rs: the store of traces under a memory budget.
pub mod Evict
pub mod View
pub mod Writer
pub mod Valid
pub mod Insertion
pub mod Resurrection
pub mod Effects
pub mod Sizes
pub mod Eviction
pub mod Budget
use spanfall.Prelude.{
  ℕ, ◌+◌, ◌%◌, ◌^◌, Bool, true, false, not, ◌&&◌, Option, none, some, List, [], ◌∷◌, if◌then◌else◌,
  length, Exec, ok, ◌>>=◌,
}
use spanfall.Prelude.Map
use spanfall.Prelude.Map.{Map}
use spanfall.Prelude.Text.{Text}
use spanfall.Types.{TraceId, trace_id_eq}
use spanfall.Interner
use spanfall.Interner.{Interner}
use spanfall.Counters.{Counters, zeros, add_u64}
use spanfall.Trace.{Trace, NewSpan, InsertOutcome, new as new_trace}
use spanfall.Trace.Insert.{insert}

abbrev pub global_interner_cap : ℕ
global_interner_cap = 100000

pub record Store : Type 0 where
  pub traces : Map TraceId Trace
  pub key_interner : Interner
  pub service_interner : Interner
  pub max_memory_bytes : ℕ
  pub evicted_generations : Map TraceId ℕ
  pub counters : Counters

pub record StoreInsertOutcome : Type 0 where
  pub local_idx : ℕ
  pub is_duplicate : Bool
  pub resurrected : Bool

unfoldable pub new : ℕ → Store
new max_memory_bytes = record {
  traces = [];
  key_interner = Interner.new global_interner_cap;
  service_interner = Interner.new global_interner_cap;
  max_memory_bytes = max_memory_bytes;
  evicted_generations = [];
  counters = zeros;
}

unfoldable pub trace_count : Store → ℕ
trace_count s = length s.traces

unfoldable pub trace : Store → TraceId → Option Trace
trace s trace_id = Map.get s.traces trace_id

unfoldable pub traces : Store → Map TraceId Trace
traces s = s.traces

unfoldable pub intern_service_name : Store → Text → Store × Option ℕ
intern_service_name s name =
    let (service_interner, id) = Interner.intern s.service_interner name in
    (record s { service_interner = service_interner }, id)

unfoldable pub service_name : Store → ℕ → Exec Text
service_name s id = Interner.get s.service_interner id

unfoldable pub attribute_key : Store → ℕ → Exec Text
attribute_key s id = Interner.get s.key_interner id

unfoldable pub attribute_key_id : Store → Text → Option ℕ
attribute_key_id s key = Interner.lookup s.key_interner key

-- `span.service_name.take().and_then(|name| self.service_interner.intern(&name))`.
unfoldable pub intern_service : Interner → Option Text → Interner × Option ℕ
intern_service i none = (i, none)
intern_service i (some name) = Interner.intern i name

-- `entry(trace_id).or_insert_with(..)`: the trace, and the generations that are still remembered. A
-- trace that comes back goes on at the next generation, a `u32`.
unfoldable pub entry : Store → TraceId → ℕ → Trace × Map TraceId ℕ
entry s trace_id now_unix_nano = elim (Map.get s.traces trace_id) [
  | some t ↦ (t, s.evicted_generations)
  | none ↦ (
    record (new_trace trace_id now_unix_nano) {
      generation = elim (Map.get s.evicted_generations trace_id) [
        | none ↦ 0
        | some g ↦ (g + 1) % 2 ^ 32
      ];
    },
    Map.remove s.evicted_generations trace_id,
  )
]

unfoldable pub is_resurrected : Store → TraceId → Bool
is_resurrected s trace_id =
    not (Map.contains_key s.traces trace_id) && Map.contains_key s.evicted_generations trace_id

unfoldable pub count_insert : Counters → Bool → Bool → ℕ → Counters
count_insert c is_duplicate resurrected cap_hit_count = record c {
  duplicate_span = if is_duplicate then add_u64 c.duplicate_span 1 else c.duplicate_span;
  late_span_after_eviction =
      if resurrected then add_u64 c.late_span_after_eviction 1 else c.late_span_after_eviction;
  attribute_key_cap_hit = cap_hit_count;
}

unfoldable pub insert_span_no_evict :
    Store → TraceId → NewSpan → ℕ → Exec (Store × StoreInsertOutcome)
insert_span_no_evict s trace_id span now_unix_nano =
    let (service_interner, service_name_id) = intern_service s.service_interner span.service_name in
    let resurrected = is_resurrected s trace_id in
    let (t, generations) = entry s trace_id now_unix_nano in
    do
      (t', outcome, key_interner) ← insert t span service_name_id s.key_interner now_unix_nano
      ok (
        record s {
          traces = Map.insert s.traces trace_id t';
          key_interner = key_interner;
          service_interner = service_interner;
          evicted_generations = generations;
          counters =
              count_insert s.counters outcome.is_duplicate resurrected key_interner.cap_hit_count;
        },
        record {
          local_idx = outcome.local_idx;
          is_duplicate = outcome.is_duplicate;
          resurrected = resurrected;
        },
      )
