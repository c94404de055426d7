-- ===== src/Store/View/Whole.antt =====
-- The writer of src/store/writer.rs while everything fits the budget: nothing is evicted, and the
-- store shows every span that was sent.
use spanfall.Prelude.{ℕ, ◌+◌, ◌≡◌, refl, sym, subst, List, [], ◌∷◌, ◌++◌, length, arith, ok, of_ok}
use spanfall.Types.{TraceId, trace_id_eq, span_id_eq}
use spanfall.Counters.{add_u64}
use spanfall.Trace.{NewSpan}
use spanfall.Store.{Store}
use spanfall.Store.Valid.{IsValid, Room}
use spanfall.Store.Insertion.{insert_span_no_evict-Accepted}
use spanfall.Store.Budget.{evict_within_budget}
use spanfall.Store.Evict.{total_approx_bytes}
use spanfall.Store.Sizes.Growth.{Fits, span_bytes, accepted-Fits}
use spanfall.Store.Writer.{Writer, append_spans, count_malformed, apply_batch, run}
use spanfall.Store.Writer.Runs.{
  attr_total, batches_attr_total, accepted-Appended, IsValid-count_malformed,
}
use spanfall.Ingest.Convert.{SpanBatch}
use spanfall.Store.View.{View, absorb_span, absorb_spans, Shows, Spare}
use spanfall.Store.View.Growth.{Spare-same}
use spanfall.Store.View.Batches.{
  first_Room, append_spans-Shows, batches_span_count, count_malformed-Shows,
}

-- The bytes of some spans.
abbrev pub spans_bytes : List (TraceId × NewSpan) → ℕ
spans_bytes [] = 0
spans_bytes ((id, span) ∷ spans) = span_bytes span + spans_bytes spans

abbrev pub batches_bytes : List (SpanBatch × ℕ) → ℕ
batches_bytes [] = 0
batches_bytes ((b, now) ∷ batches) = spans_bytes b.spans + batches_bytes batches

-- The spans of some batches, in order.
abbrev pub all_spans : List (SpanBatch × ℕ) → List (TraceId × NewSpan)
all_spans [] = []
all_spans ((b, now) ∷ batches) = b.spans ++ all_spans batches

pub absorb_spans-append :
    (m : View) (xs ys : List (TraceId × NewSpan))
    → absorb_spans m (xs ++ ys) ≡ absorb_spans (absorb_spans m xs) ys
unfolding absorb_spans
absorb_spans-append m [] ys = refl
absorb_spans-append m ((id, span) ∷ xs) ys = absorb_spans-append (absorb_span m id span) xs ys

append_spans-Fits :
    (s : Store) (spans : List (TraceId × NewSpan)) (now n k : ℕ)
    → IsValid s
    → Room (attr_total spans + n) s
    → Fits s (spans_bytes spans + k)
    → (s' : Store) → append_spans s spans now ≡ ok s'
    → Fits s' k
unfolding append_spans
append_spans-Fits s [] now n k v room (b, total, le) s' ret =
    subst (λ x. Fits x k) (of_ok ret) (b, total, omega arith)
append_spans-Fits s ((id, span) ∷ spans) now n k v room (b, total, le) s' ret =
    let room1 = first_Room s id span spans n room in
    let a = insert_span_no_evict-Accepted s id span now v (attr_total spans + n) room1 in
    let one = accepted-Appended s id span now (attr_total spans + n) v room1 in
    append_spans-Fits a.store spans now n k one.valid one.room
      (accepted-Fits s id span now v (attr_total spans + n) room1 (spans_bytes spans + k)
        (b, total, omega arith))
      s' (rw a.returned at ret)

-- A batch that fits the budget.
apply_batch-Whole :
    (w : Writer) (b : SpanBatch) (now n k l bytes : ℕ) (m : View)
    → IsValid w.store
    → Room (attr_total b.spans + n) w.store
    → Spare w.store (attr_total b.spans + k) (length b.spans + l)
    → Shows w.store m
    → Fits w.store (spans_bytes b.spans + bytes)
    → (w' : Writer) × (apply_batch w b now ≡ ok w')
      × IsValid w'.store
      × Room n w'.store
      × Shows w'.store (absorb_spans m b.spans)
      × Spare w'.store k l
      × Fits w'.store bytes
unfolding apply_batch count_malformed total_approx_bytes
apply_batch-Whole w b now n k l bytes m v room spare sh fits =
    let (s1, ret1, a, sh1, left) = append_spans-Shows w.store b.spans now n k l m v room spare sh in
    let s2 = count_malformed s1 b.malformed_span_count in
    let (total, sum, le) = append_spans-Fits w.store b.spans now n bytes v room fits s1 ret1 in
    (
      record { store = s2; seq = add_u64 w.seq 1 },
      rw (ret1, evict_within_budget s2 total sum (omega arith)),
      IsValid-count_malformed s1 b.malformed_span_count a.valid,
      a.room,
      count_malformed-Shows s1 b.malformed_span_count _ sh1,
      Spare-same s1 s2 k l refl refl left,
      (total, sum, le),
    )

-- A valid store shows a view, with room for the attributes of some batches in every trace and for
-- their strings in both tables, and the bytes of their spans fit the budget beside what is stored.
-- Then the writer applies the batches without a panic, and the store it leaves shows the view that
-- has absorbed all their spans, in order: no trace is evicted.
pub run-Whole :
    (w : Writer) (batches : List (SpanBatch × ℕ)) (m : View)
    → IsValid w.store
    → Room (batches_attr_total batches) w.store
    → Spare w.store (batches_attr_total batches) (batches_span_count batches)
    → Shows w.store m
    → Fits w.store (batches_bytes batches)
    → (w' : Writer) × (run w batches ≡ ok w') × Shows w'.store (absorb_spans m (all_spans batches))
unfolding run absorb_spans
run-Whole w [] m v room spare sh fits = (w, refl, sh)
run-Whole w ((b, now) ∷ batches) m v room spare sh fits =
    let (w1, ret1, v1, room1, sh1, left, fits1) =
      apply_batch-Whole w b now (batches_attr_total batches) (batches_attr_total batches)
        (batches_span_count batches) (batches_bytes batches) m v room spare sh fits in
    let (w2, ret2, sh2) = run-Whole w1 batches (absorb_spans m b.spans) v1 room1 left sh1 fits1 in
    (
      w2,
      rw ret1 ret2,
      subst (Shows w2.store) (sym (absorb_spans-append m b.spans (all_spans batches))) sh2,
    )
