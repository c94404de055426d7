-- ===== src/Store/Insertion.antt =====
-- `insert_span_no_evict` of src/store/mod.rs on a well-formed store: it returns, and which trace,
-- which generation and which counters it leaves.
mod Entries
use spanfall.Prelude.{
  ℕ, ◌+◌, ◌≤◌, ◌<◌, ◌^◌, ◌≡◌, refl, ap, ◌∙◌, Bool, true, false, Option, none, some, List, [],
  length, arith, All, Option-cases, inl, inr, ◌==◌, is_some, ok,
}
use spanfall.Prelude.Map
use spanfall.Prelude.Map.{Map}
use spanfall.Prelude.MapLaws.{AllValues-get, AllValues-insert, Distinct-insert}
use spanfall.Types.{TraceId, AttrValue, trace_id_eq, trace_id_beq_iff}
use spanfall.Interner.{Interner, intern}
use spanfall.Interner.Bounds.{intern-Interns, IsValid as Interner_IsValid}
use spanfall.Trace.{Trace, NewSpan, new as new_trace}
use spanfall.Trace.Insert.{intern_attrs}
use spanfall.Trace.Spec.{Row, upsert, Refines, attr_count, key_of}
use spanfall.Trace.Refine.{outcome_of, header-Refines, insert-Inserted, Inserted, new-Refines}
use spanfall.Trace.Attrs.{intern_attrs-InternsAttrs, grows, All-mono}
use spanfall.Prelude.{length-map, get_elem?, get_elem?_lt}
use spanfall.Trace.Insert.{insert}
use spanfall.Store.{
  Store, intern_service, entry, is_resurrected, count_insert, insert_span_no_evict,
}
use spanfall.Store.Valid.{
  IdWithin, Stored, RowWithin, IsValid, Room, key_count, service_count, Stored-mono, RowWithin-mono,
  upsert-RowWithin, attr_count-upsert,
}
pub use Entries.{IsEntry, entry-IsEntry}
use Entries.{intern_service_lem}

-- The key table, and the attributes of the span, after the insertion.
abbrev pub interned : Store → NewSpan → Interner × List (ℕ × AttrValue)
interned s span = intern_attrs s.key_interner span.attributes

abbrev pub service_of : Store → NewSpan → Interner × Option ℕ
service_of s span = intern_service s.service_interner span.service_name

-- The store after the insertion, whose trace `id` is `t`.
abbrev pub stored_at : Store → TraceId → NewSpan → ℕ → Trace → Bool → Store
stored_at s id span now t is_duplicate = record s {
  traces = Map.insert s.traces id t;
  key_interner = (interned s span).0;
  service_interner = (service_of s span).0;
  evicted_generations = (entry s id now).1;
  counters =
      count_insert s.counters is_duplicate (is_resurrected s id) (interned s span).0.cap_hit_count;
}

pub record Accepted (s : Store) (id : TraceId) (span : NewSpan) (now : ℕ) : Type 0 where
  -- The rows of the trace before, and the trace after.
  pub before : List Row
  pub stored : Refines (entry s id now).0 before
  pub after : Trace
  pub store : Store
  pub returned :
      insert_span_no_evict s id span now
      ≡ ok (
        store,
        record {
          local_idx = (outcome_of before span.span_id).local_idx;
          is_duplicate = (outcome_of before span.span_id).is_duplicate;
          resurrected = is_resurrected s id;
        },
      )
  pub inserted :
      insert (entry s id now).0 span (service_of s span).1 s.key_interner now
      ≡ ok (after, outcome_of before span.span_id, (interned s span).0)
  pub is_store : store ≡ stored_at s id span now after (outcome_of before span.span_id).is_duplicate
  pub valid : IsValid store
  pub upserted : Refines after (upsert before span (service_of s span).1 (interned s span).1)
  pub generation : after.generation ≡ (entry s id now).0.generation
  pub last_activity : after.last_activity_unix_nano ≡ now
  pub grown : length after.attr_keys ≤ length (entry s id now).0.attr_keys + length span.attributes

module _ (s : Store) (id : TraceId) (span : NewSpan) (now : ℕ) (v : IsValid s) (n : ℕ)
    (room : Room (length span.attributes + n) s) where
  abbrev start : Trace
  start = (entry s id now).0

  the_entry : IsEntry s id start (entry s id now).1
  the_entry = entry-IsEntry s id now v

  keys_of : {t : Trace} {rows : List Row} → Refines t rows → length t.attr_keys ≡ attr_count rows
  keys_of ref = ap length ref.csr.keys ∙ length-map key_of _

  abbrev rows0 : List Row
  rows0 = the_entry.stored.0

  abbrev rows1 : List Row
  rows1 = upsert rows0 span (service_of s span).1 (interned s span).1

  inserted : Inserted start rows0 span (service_of s span).1 s.key_interner now
  inserted =
      insert-Inserted start rows0 span (service_of s span).1 s.key_interner now the_entry.stored.1 (
        omega (
          arith,
          attr_count-upsert rows0 span (service_of s span).1 (interned s span).1,
          (intern_attrs-InternsAttrs s.key_interner span.attributes v.keys).short,
          keys_of the_entry.stored.1,
          the_entry.small (length span.attributes + n) room,
        ))

  abbrev new_store : Store
  new_store = stored_at s id span now inserted.trace (outcome_of rows0 span.span_id).is_duplicate

  new_store-apart :
      (j : TraceId)
      → is_some (Map.get new_store.evicted_generations j) ≡ true
      → Map.get new_store.traces j ≡ none
  new_store-apart j h =
      let f = the_entry.forgotten j h in rw (Map.get-insert s.traces id j inserted.trace, f.0) f.1

  rows1-within :
      All
        (RowWithin (length (interned s span).0.values) (length (service_of s span).0.values))
        rows1
  rows1-within =
      let keys = intern_attrs-InternsAttrs s.key_interner span.attributes v.keys in
      let services = intern_service_lem s.service_interner span.service_name v.services in
      upsert-RowWithin _ _ rows0 span (service_of s span).1 (interned s span).1
        (All-mono rows0
          (RowWithin-mono (key_count s) _ (service_count s) _
            (grows s.key_interner.values _ keys.keeps) services.more)
          the_entry.stored.2)
        services.within keys.within

  new_store-IsValid : IsValid new_store
  new_store-IsValid =
      let keys = intern_attrs-InternsAttrs s.key_interner span.attributes v.keys in
      let services = intern_service_lem s.service_interner span.service_name v.services in
      record {
        traces =
            AllValues-insert (Stored (key_count new_store) (service_count new_store)) s.traces id
              inserted.trace
              (Stored-mono (key_count s) _ (service_count s) _ s.traces
                (grows s.key_interner.values _ keys.keeps) services.more v.traces)
              (rows1, inserted.refines, rows1-within);
        distinct = Distinct-insert s.traces id inserted.trace v.distinct;
        keys = keys.valid;
        services = services.valid;
        apart = new_store-apart;
      }

  new_store-returned :
      insert_span_no_evict s id span now
      ≡ ok (
        new_store,
        record {
          local_idx = (outcome_of rows0 span.span_id).local_idx;
          is_duplicate = (outcome_of rows0 span.span_id).is_duplicate;
          resurrected = is_resurrected s id;
        },
      )
  unfolding insert_span_no_evict
  new_store-returned = rw inserted.returned

  -- On a valid store, while every trace has room for the span's attributes and `n` more,
  -- `insert_span_no_evict` does not panic and leaves a valid store. In it the trace of `entry`, the
  -- one that was there or a new one, holds the span upserted among its rows, at the same generation
  -- and active now; its outcome says where the span's id stood; the counters are those of
  -- `count_insert`, the tables have the span's strings interned, and no other trace changes.
  pub insert_span_no_evict-Accepted : Accepted s id span now
  insert_span_no_evict-Accepted = record {
    before = rows0;
    stored = the_entry.stored.1;
    after = inserted.trace;
    store = new_store;
    returned = new_store-returned;
    inserted = inserted.returned;
    is_store = refl;
    valid = new_store-IsValid;
    upserted = inserted.refines;
    generation = inserted.generation;
    last_activity = inserted.last_activity;
    grown = omega (
      arith,
      keys_of inserted.refines,
      keys_of the_entry.stored.1,
      attr_count-upsert rows0 span (service_of s span).1 (interned s span).1,
      (intern_attrs-InternsAttrs s.key_interner span.attributes v.keys).short,
    );
  }
