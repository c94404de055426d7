-- ===== src/Tests/Data.antt =====
-- Ids, spans, traces and stores for the tests.
use spanfall.Prelude.{
  ℕ, ◌<◌, ◌^◌, sym, subst, false, none, some, List, [], ◌∷◌, Exec, ok, panic, arith,
}
use spanfall.Prelude.Map
use spanfall.Prelude.Text.{text}
use spanfall.Types.{TraceId, SpanId, str, int, pos, negsuc}
use spanfall.Interner
use spanfall.Interner.{Interner}
use spanfall.Trace.{Trace, NewSpan, InsertOutcome, new as new_trace}
use spanfall.Trace.Insert.{insert, intern_attrs}
use spanfall.Trace.Spec.{Row, upsert, Refines, attr_count}
use spanfall.Trace.Refine.{insert-Inserted, new-Refines}
use spanfall.Store.{Store, StoreInsertOutcome, new as new_store, insert_span_no_evict}
use spanfall.Store.Valid.{IsValid, Room, store_new-IsValid}
use spanfall.Store.Insertion.{insert_span_no_evict-Accepted}

abbrev pub id1 : TraceId
id1 = record { bytes = 1 ∷ 2 ∷ 3 ∷ 4 ∷ 5 ∷ 6 ∷ 7 ∷ 8 ∷ 9 ∷ 10 ∷ 11 ∷ 12 ∷ 13 ∷ 14 ∷ 15 ∷ 0 ∷ [] }

abbrev pub id2 : TraceId
id2 = record {
  bytes = 255 ∷ 2 ∷ 3 ∷ 4 ∷ 5 ∷ 6 ∷ 7 ∷ 8 ∷ 9 ∷ 10 ∷ 11 ∷ 12 ∷ 13 ∷ 14 ∷ 15 ∷ 171 ∷ [];
}

abbrev pub sid : ℕ → SpanId
sid n = record { bytes = 0 ∷ 0 ∷ 0 ∷ 0 ∷ 0 ∷ 0 ∷ 0 ∷ n ∷ [] }

abbrev pub child : NewSpan
child = record {
  span_id = sid 2;
  parent_span_id = some (sid 1);
  name = text "GET /cart";
  start_time_unix_nano = 10;
  end_time_unix_nano = 30;
  status_message = text "";
  status_code = pos 0;
  unknown_service = false;
  service_name = some (text "cart");
  attributes = (text "http.method", str (text "GET")) ∷ (text "retries", int (negsuc 0)) ∷ [];
}

abbrev pub parent : NewSpan
parent = record child {
  span_id = sid 1;
  parent_span_id = none;
  name = text "checkout";
  attributes = (text "http.method", str (text "POST")) ∷ [];
}

abbrev pub table : Interner
table = Interner.new 3

-- What a run that does not panic leaves; without a result, a new trace and a new store.
abbrev pub trace_of : Exec (Trace × InsertOutcome × Interner) → Trace
trace_of (ok (t, outcome, i)) = t
trace_of panic = new_trace id1 0

abbrev pub store_of : Exec (Store × StoreInsertOutcome) → Store
store_of (ok (s, outcome)) = s
store_of panic = new_store 0

-- The trace that holds `child` alone, and its rows.
abbrev pub trace1 : Trace
trace1 = trace_of (insert (new_trace id1 0) child (some 0) table 5)

abbrev pub rows1 : List Row
rows1 = upsert [] child (some 0) (intern_attrs table child.attributes).1

pub rows1_small : attr_count rows1 < 2 ^ 32
unfolding upsert intern_attrs Interner.intern Interner.new Interner.intern_new Map.insert
rows1_small = omega arith

pub trace1-Refines : Refines trace1 rows1
trace1-Refines =
    let i =
      insert-Inserted (new_trace id1 0) [] child (some 0) table 5 (new-Refines id1 0) rows1_small in
    subst (λ r. Refines (trace_of r) rows1) (sym i.returned) i.refines

abbrev pub store0 : Store
store0 = new_store 200

-- The store that holds that trace.
abbrev pub store1 : Store
store1 = store_of (insert_span_no_evict store0 id1 child 5)

pub store0-Room : Room 10 store0
unfolding new_store
store0-Room = (omega arith, tt)

pub store1-IsValid : IsValid store1
store1-IsValid =
    let a =
      insert_span_no_evict-Accepted store0 id1 child 5 (store_new-IsValid 200) 8 store0-Room in
    subst (λ r. IsValid (store_of r)) (sym a.returned) a.valid
