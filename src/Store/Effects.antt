-- ===== src/Store/Effects.antt =====
-- What `insert_span_no_evict` of src/store/mod.rs leaves, told from the maps of the store before:
-- the trace, its generation, the remembered generations and each counter.
mod Before
use spanfall.Prelude.{
  ℕ, zero, suc, ◌+◌, ◌%◌, ◌^◌, ◌≡◌, sym, Bool, true, false, Option, none, some, List, [], ◌∷◌,
  length, arith, map, is_some, list_eq, ℕ_eq, ◌⊎◌, leb, Bool-cases, Option-cases, inl, inr, ◌==◌,
  eq_refl,
}
use spanfall.Prelude.Map
use spanfall.Prelude.MapLaws.{none≢some}
use spanfall.Prelude.Text.{Text}
use spanfall.Types.{TraceId, AttrValue, trace_id_eq, trace_id_beq_iff}
use spanfall.Counters.{Counters}
use spanfall.Interner.{Interner, intern, intern_new}
use spanfall.Trace.{Trace, NewSpan, new as new_trace}
use spanfall.Trace.Insert.{intern_attrs}
use spanfall.Trace.Spec.{Row, upsert, Refines, position}
use spanfall.Trace.Upsert.{ids_of}
use spanfall.Store.{Store, StoreInsertOutcome, entry}
use spanfall.Store.Valid.{IsValid}
use spanfall.Store.Insertion.{Accepted, interned, service_of}
use Before.{Holds, generation_after, comes_back, bumped, place, Refusals}

pub record Effects (s : Store) (id : TraceId) (span : NewSpan) (now : ℕ) (r : Store)
    (o : StoreInsertOutcome) : Type 0 where
  pub before : List Row
  pub held : Holds (Map.get s.traces id) before
  pub after : Trace
  pub here : Map.get r.traces id ≡ some after
  pub upserted : Refines after (upsert before span (service_of s span).1 (interned s span).1)
  pub generation :
      after.generation ≡ generation_after (Map.get s.traces id) (Map.get s.evicted_generations id)
  pub last_activity : after.last_activity_unix_nano ≡ now
  pub others : (j : TraceId) → (id == j) ≡ false → Map.get r.traces j ≡ Map.get s.traces j
  pub forgotten : Map.get r.evicted_generations id ≡ none
  pub remembered :
      (j : TraceId)
      → (id == j) ≡ false
      → Map.get r.evicted_generations j ≡ Map.get s.evicted_generations j
  pub local_idx : o.local_idx ≡ place (position span.span_id (ids_of before)) (length before)
  pub is_duplicate : o.is_duplicate ≡ is_some (position span.span_id (ids_of before))
  pub resurrected :
      o.resurrected ≡ comes_back (Map.get s.traces id) (Map.get s.evicted_generations id)
  pub duplicate_span :
      r.counters.duplicate_span
      ≡ bumped (is_some (position span.span_id (ids_of before))) s.counters.duplicate_span
  pub late_span :
      r.counters.late_span_after_eviction
      ≡ bumped
          (comes_back (Map.get s.traces id) (Map.get s.evicted_generations id))
          s.counters.late_span_after_eviction
  pub refused : ℕ
  pub refusals : Refusals s.key_interner span.attributes refused
  pub cap_hit :
      r.counters.attribute_key_cap_hit % 2 ^ 64 ≡ (s.key_interner.cap_hit_count + refused) % 2 ^ 64
  pub evicted_traces : r.counters.evicted_traces ≡ s.counters.evicted_traces
  pub malformed_span : r.counters.malformed_span ≡ s.counters.malformed_span
  pub budget : r.max_memory_bytes ≡ s.max_memory_bytes
  pub valid : IsValid r
