-- ===== src/Store/Resurrection.antt =====
-- A span for a trace that was evicted, in `insert_span_no_evict` of src/store/mod.rs.
use spanfall.Prelude.{ℕ, ◌+◌, ◌%◌, ◌^◌, ◌≡◌, ap, ◌∙◌, true, none, some, length, ◌==◌, ok, eq_refl}
use spanfall.Prelude.Map
use spanfall.Types.{TraceId, trace_id_eq}
use spanfall.Trace.{Trace, NewSpan}
use spanfall.Store.{Store, StoreInsertOutcome, trace, entry, is_resurrected, insert_span_no_evict}
use spanfall.Store.Valid.{IsValid, Room}
use spanfall.Store.Insertion.{insert_span_no_evict-Accepted}

module _ (s : Store) (id : TraceId) (g : ℕ) (v : IsValid s)
    (remembered : Map.get s.evicted_generations id ≡ some g) where
  gone : Map.get s.traces id ≡ none
  gone = v.apart id (rw remembered)

  next_generation : (now : ℕ) → (entry s id now).0.generation ≡ (g + 1) % 2 ^ 32
  unfolding entry
  next_generation now = rw (gone, entry, remembered)

  forgets : (now : ℕ) → Map.get (entry s id now).1 id ≡ none
  unfolding entry
  forgets now =
      let same : (id == id) ≡ true = eq_refl id in
      rw (gone, entry) (rw (Map.get-remove s.evicted_generations id id, same))

  resurrects : is_resurrected s id ≡ true
  unfolding is_resurrected
  resurrects = rw (gone, remembered)

-- What a span brings back.
pub record Returns (s : Store) (id : TraceId) (g : ℕ) (r : Store × StoreInsertOutcome)
    : Type 0 where
  pub resurrected : r.1.resurrected ≡ true
  pub back : Trace
  pub here : trace r.0 id ≡ some back
  pub generation : back.generation ≡ (g + 1) % 2 ^ 32
  pub forgotten : Map.get r.0.evicted_generations id ≡ none

-- On a valid store, while every trace has room for the span's attributes and `n` more, a span for
-- a trace whose generation is remembered as `g`, since it was evicted, is inserted without a panic
-- and brings the trace back at the next generation, a `u32`: the outcome says so, and `g` is no
-- longer remembered.
pub insert-Returns :
    (s : Store) (id : TraceId) (span : NewSpan) (now n g : ℕ)
    → IsValid s
    → Room (length span.attributes + n) s
    → Map.get s.evicted_generations id ≡ some g
    → (r : Store × StoreInsertOutcome) × (insert_span_no_evict s id span now ≡ ok r)
      × Returns s id g r
unfolding trace
insert-Returns s id span now n g v room remembered =
    let a = insert_span_no_evict-Accepted s id span now v n room in
    let same : (id == id) ≡ true = eq_refl id in
    (
      _,
      a.returned,
      record {
        resurrected = resurrects s id g v remembered;
        back = a.after;
        here =
            ap (λ x. Map.get x.traces id) a.is_store
            ∙ rw (Map.get-insert s.traces id id a.after, same);
        generation = a.generation ∙ next_generation s id g v remembered now;
        forgotten =
            ap (λ x. Map.get x.evicted_generations id) a.is_store ∙ forgets s id g v remembered now;
      },
    )
