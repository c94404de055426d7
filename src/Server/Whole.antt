-- ===== src/Server/Whole.antt =====
-- What the API serves of a running server (src/main.rs) whose budget holds all that was sent.
use spanfall.Prelude.{
  ℕ, ◌+◌, ◌≤◌, ◌≡◌, refl, sym, ap, ◌∙◌, subst, some, List, [], ◌∷◌, ◌++◌, append-nil, length,
  length-append, arith, Bool-cases, inl, inr, of_ok, false, ◌==◌,
}
use spanfall.Prelude.Map
use spanfall.Prelude.Text.{Text}
use spanfall.Types.{TraceId, IsBytes, trace_id_eq, trace_id_beq_iff, span_id_eq}
use spanfall.Interner
use spanfall.Trace.{NewSpan}
use spanfall.Store.{Store, trace, new as new_store}
use spanfall.Store.Valid.{IsValid, store_new-IsValid}
use spanfall.Store.Evict.{total_approx_bytes, sum_approx_bytes}
use spanfall.Store.Writer.Runs.{batches_attr_total}
use spanfall.Store.View.{View, absorb, absorb_span, absorb_spans, spans_of, Shows}
use spanfall.Store.View.Batches.{batches_span_count}
use spanfall.Store.View.Whole.{spans_bytes, batches_bytes, all_spans, run-Whole}
use spanfall.Ingest.Convert.{RejectReason, SpanBatch}
use spanfall.Ingest.Handler.Accounts.{Arrival, delivered, span_total}
use spanfall.Api.Attributes.Shown.{AnswersSpan, span_at, get_attributes-AnswersSpan}
use spanfall.Api.Filter.{Numbers}
use spanfall.Api.Filter.Matches.Shown.{Selects, get_filter-Selects}
use spanfall.Api.Traces.Shown.{Served, get_trace-Served}
use spanfall.Server.{Server, Reaches, spawn, first_store}
use spanfall.Server.Flow.{batches_of, Reaches-Flows}
use spanfall.Server.Drain.{attrs_in, stamped, Reaches-drains}

-- The spans of some batches, in order, and their bytes.
abbrev pub sent_spans : List SpanBatch → List (TraceId × NewSpan)
sent_spans [] = []
sent_spans (b ∷ bs) = b.spans ++ sent_spans bs

abbrev pub bytes_in : List SpanBatch → ℕ
bytes_in [] = 0
bytes_in (b ∷ bs) = spans_bytes b.spans + bytes_in bs

sent_spans-batches_of :
    (applied : List (SpanBatch × ℕ)) → sent_spans (batches_of applied) ≡ all_spans applied
sent_spans-batches_of [] = refl
sent_spans-batches_of (b ∷ applied) = ap (◌++◌ b.0.spans) (sent_spans-batches_of applied)

-- The four sums of a list of batches, with and without the clock's readings.
totals-batches_of :
    (applied : List (SpanBatch × ℕ))
    → (attrs_in (batches_of applied) ≡ batches_attr_total applied)
      × (span_total (batches_of applied) ≡ batches_span_count applied)
      × (bytes_in (batches_of applied) ≡ batches_bytes applied)
totals-batches_of [] = (refl, refl, refl)
totals-batches_of (b ∷ applied) =
    let rest = totals-batches_of applied in (omega arith, omega arith, omega arith)

length-sent_spans : (bs : List SpanBatch) → length (sent_spans bs) ≡ span_total bs
length-sent_spans [] = refl
length-sent_spans (b ∷ bs) =
    omega (arith, length-append b.spans (sent_spans bs), length-sent_spans bs)

length-absorb : (xs : List NewSpan) (span : NewSpan) → length (absorb xs span) ≤ length xs + 1
unfolding absorb
length-absorb [] span = omega arith
length-absorb (x ∷ xs) span = elim (Bool-cases (x.span_id == span.span_id)) [
  | inl eq ↦ rw eq (omega arith)
  | inr ne ↦ rw ne (omega (arith, length-absorb xs span))
]

-- A trace holds at most the spans that were sent.
length-absorb_spans :
    (m : View) (spans : List (TraceId × NewSpan)) (id : TraceId)
    → length (spans_of (Map.get (absorb_spans m spans) id))
      ≤ length (spans_of (Map.get m id)) + length spans
unfolding absorb_spans absorb_span
length-absorb_spans m [] id = omega arith
length-absorb_spans m ((j, span) ∷ spans) id =
    let here = absorb (spans_of (Map.get m j)) span in
    let rest = length-absorb_spans (absorb_span m j span) spans id in
    elim (Bool-cases (trace_id_eq.beq j id)) [
      | inl eq ↦
          let found : Map.get (absorb_span m j span) id ≡ some here =
            Map.get-insert m j id here ∙ rw eq in
          let same : Map.get m j ≡ Map.get m id = ap (Map.get m) ((trace_id_beq_iff j id).0 eq) in
          omega (
            arith,
            rest,
            ap (λ o. length (spans_of o)) found,
            ap (λ o. length (spans_of o)) same,
            length-absorb (spans_of (Map.get m j)) span,
          )
      | inr ne ↦
          let there : Map.get (absorb_span m j span) id ≡ Map.get m id =
            Map.get-insert m j id here ∙ rw ne in
          omega (arith, rest, ap (λ o. length (spans_of o)) there)
    ]

-- What the API serves of a store that holds all the batches: their traces, the attributes of each
-- span, and the spans that a query selects.
pub record ServesAll (store : Store) (bs : List SpanBatch) : Type 0 where
  pub payloads :
      (id : TraceId)
      → IsBytes 16 id.bytes
      → Served store id (Map.get (absorb_spans [] (sent_spans bs)) id)
  pub attributes :
      (id : TraceId) (idx : ℕ)
      → IsBytes 16 id.bytes
      → AnswersSpan store id idx (span_at (Map.get (absorb_spans [] (sent_spans bs)) id) idx)
  pub filters :
      (n : Numbers) (id : TraceId) (query : Text)
      → IsBytes 16 id.bytes
      → Selects n store id query (Map.get (absorb_spans [] (sent_spans bs)) id)

pub drained-ServesAll :
    (debug : RejectReason → Text) (max_memory_bytes : ℕ) (history : List Arrival)
    (applied : List (SpanBatch × ℕ)) (s : Server)
    → attrs_in (delivered history) ≤ 100000
    → span_total (delivered history) ≤ 100000
    → bytes_in (delivered history) ≤ max_memory_bytes
    → s.waiting ≡ []
    → IsValid s.writer.store
    → Reaches debug (new_store max_memory_bytes) history applied s
    → ServesAll s.writer.store (delivered history)
unfolding spawn new_store Interner.new trace total_approx_bytes sum_approx_bytes absorb_spans
drained-ServesAll debug max_memory_bytes history applied s attrs spans bytes empty v reached =
    let f = Reaches-Flows debug (new_store max_memory_bytes) history applied s reached in
    let all : delivered history ≡ batches_of applied =
      f.conserved ∙ ap (◌++◌ (batches_of applied)) empty ∙ append-nil (batches_of applied) in
    let (a, n, b) = totals-batches_of applied in
    let view : absorb_spans [] (all_spans applied)
        ≡ absorb_spans [] (sent_spans (delivered history)) =
      ap (absorb_spans []) (sym (ap sent_spans all ∙ sent_spans-batches_of applied)) in
    let (w, ret, sh) =
      run-Whole (spawn (new_store max_memory_bytes)).writer applied []
        (store_new-IsValid max_memory_bytes) (omega (arith, a, ap attrs_in all), tt)
        (record {
          keys = omega (arith, a, ap attrs_in all);
          services = omega (arith, n, ap span_total all);
        })
        (λ id. refl) (0, refl, omega (arith, b, ap bytes_in all)) in
    let shows : Shows s.writer.store (absorb_spans [] (sent_spans (delivered history))) =
      subst (Shows s.writer.store) view (
        subst (λ w. Shows w.store (absorb_spans [] (all_spans applied)))
          (of_ok (sym ret ∙ f.stored)) sh) in
    record {
      payloads = λ id sixteen.
          get_trace-Served s.writer.store (absorb_spans [] (sent_spans (delivered history))) id
            shows sixteen
            (omega (
              arith,
              length-absorb_spans [] (sent_spans (delivered history)) id,
              length-sent_spans (delivered history),
            ));
      attributes = λ id idx sixteen.
          get_attributes-AnswersSpan s.writer.store
            (absorb_spans [] (sent_spans (delivered history))) id idx shows sixteen;
      filters = λ n id query sixteen.
          get_filter-Selects n s.writer.store (absorb_spans [] (sent_spans (delivered history))) id
            query v shows sixteen;
    }

-- A server starts with an empty store, without demo data. The batches that its channel took hold at
-- most 100000 attributes and as many spans, and the bytes of their spans, 64 for each, those of its
-- name and 24 for each attribute, fit the budget. From every state that it comes to, whatever the
-- clock then reads, the writer's steps alone lead to a state that serves all that was sent: for the
-- hexadecimal form of any id of sixteen bytes, `get_trace` answers 404 if no span of that trace was
-- sent, and otherwise gives exactly the spans that were sent, in order of first arrival, each with
-- its first parent and as its last arrival has it; `get_attributes` gives each of them its
-- attributes, and `get_filter` the indices of those that match all terms of the query.
pub Reaches-ServesAll :
    (debug : RejectReason → Text) (max_memory_bytes : ℕ) (history : List Arrival)
    (applied : List (SpanBatch × ℕ)) (s : Server) (clock : ℕ → ℕ)
    → attrs_in (delivered history) ≤ 100000
    → span_total (delivered history) ≤ 100000
    → bytes_in (delivered history) ≤ max_memory_bytes
    → Reaches debug (new_store max_memory_bytes) history applied s
    → (s' : Server) × Reaches debug
        (new_store max_memory_bytes)
        history
        (applied ++ stamped clock 0 s.waiting)
        s'
      × ServesAll s'.writer.store (delivered history)
unfolding first_store
Reaches-ServesAll debug max_memory_bytes history applied s clock attrs spans bytes reached =
    let (s', reached', rest) =
      Reaches-drains debug max_memory_bytes false (new_store max_memory_bytes) history applied s
        clock refl (omega arith) reached in
    (
      s',
      reached',
      drained-ServesAll debug max_memory_bytes history (applied ++ stamped clock 0 s.waiting) s'
          attrs spans bytes rest.waiting rest.valid reached',
    )
