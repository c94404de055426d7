-- ===== src/Tests/Stores.antt =====
-- Insertion, eviction and the writer at concrete inputs.
use spanfall.Prelude.{ℕ, ◌≡◌, true, false, List, [], ◌∷◌, ok, arith, refl, some}
use spanfall.Interner
use spanfall.Store.Resurrection.{Returns, insert-Returns}
use spanfall.Store.{Store, StoreInsertOutcome, insert_span_no_evict, trace, new as new_store}
use spanfall.Store.Evict.{evict_over_budget}
use spanfall.Store.Valid.{IsValid, Room, store_new-IsValid}
use spanfall.Store.Effects.{Effects}
use spanfall.Store.Budget.{Settles, evict_over_budget-Settles}
use spanfall.Store.Writer.{Writer, run}
use spanfall.Store.Writer.Runs.{batches_attr_total}
use spanfall.Store.View.{View, Shows, Spare}
use spanfall.Store.View.Batches.{Sees, run-Sees, batches_span_count}
use spanfall.Ingest.Convert.{SpanBatch}
use spanfall.Trace.Duration.{Lasts, duration_nanos-Lasts}
use spanfall.Trace.{duration_nanos}
use spanfall.Trace.Spec.{row_of, upsert, Refines}
use spanfall.Trace.Insert.{intern_attrs}
use spanfall.Tests.Data.{
  table, trace1, trace1-Refines, id1, id2, child, parent, store0, store0-Room, store1,
  store1-IsValid,
}

evict_over_budget-Settles_example : Settles (evict_over_budget store1) store1
evict_over_budget-Settles_example = evict_over_budget-Settles store1 store1-IsValid

-- Two batches, the first one over the budget with its two traces.
abbrev batches : List (SpanBatch × ℕ)
batches =
    (
      record {
        spans = (id1, child) ∷ (id2, parent) ∷ [];
        is_partial = true;
        malformed_span_count = 2;
      },
      5,
    )
    ∷ (record { spans = (id1, parent) ∷ []; is_partial = false; malformed_span_count = 0 }, 9)
    ∷ []

abbrev writer0 : Writer
writer0 = record { store = store0; seq = 0 }

batches-Room : Room (batches_attr_total batches) store0
unfolding new_store
batches-Room = (omega arith, tt)

batches-Spare : Spare store0 (batches_attr_total batches) (batches_span_count batches)
unfolding new_store Interner.new
batches-Spare = record { keys = omega arith; services = omega arith }

store0-Shows : Shows store0 []
unfolding new_store trace
store0-Shows id = refl

run-Sees_example :
    (w' : Writer) × (run writer0 batches ≡ ok w')
    × ((m' : View) × Sees [] batches m' × Shows w'.store m')
run-Sees_example =
    run-Sees writer0 batches [] (store_new-IsValid 200) batches-Room batches-Spare store0-Shows

-- The first trace was evicted at generation 3.
abbrev store_after : Store
store_after = record store0 { evicted_generations = (id1, 3) ∷ [] }

store_after-IsValid : IsValid store_after
unfolding new_store
store_after-IsValid = record {
  traces = tt;
  distinct = tt;
  keys = (store_new-IsValid 200).keys;
  services = (store_new-IsValid 200).services;
  apart = λ id h. refl;
}

insert-Returns_example :
    (r : Store × StoreInsertOutcome) × (insert_span_no_evict store_after id1 child 5 ≡ ok r)
    × Returns store_after id1 3 r
insert-Returns_example =
    insert-Returns store_after id1 child 5 8 3 store_after-IsValid store0-Room refl

trace1_row : Refines trace1 (row_of child (some 0) (intern_attrs table child.attributes).1 ∷ [])
unfolding upsert
trace1_row = trace1-Refines

duration_nanos-Lasts_example :
    Lasts
      (row_of child (some 0) (intern_attrs table child.attributes).1 ∷ [])
      (duration_nanos trace1)
duration_nanos-Lasts_example =
    duration_nanos-Lasts trace1 (row_of child (some 0) (intern_attrs table child.attributes).1) []
      trace1_row
