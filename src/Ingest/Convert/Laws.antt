-- ===== src/Ingest/Convert/Laws.antt =====
-- The three nested loops of `convert` (src/ingest/convert.rs) against one pass over the spans.
mod Flat
use spanfall.Prelude.{
  ℕ, suc, ◌+◌, ◌≡◌, ◌⊎◌, refl, sym, ap, ◌∙◌, Bool, true, false, ◌||◌, Option, none, some, List, [],
  ◌∷◌, ◌++◌, ltb, if◌then◌else◌, length, arith, append_assoc, append-nil, Option-cases, inl, inr,
  map,
}
use spanfall.Prelude.Text.{Text}
use spanfall.Types.{TraceId}
use spanfall.Trace.{NewSpan}
use spanfall.Ingest.Convert.{
  Span, ScopeSpans, ResourceSpans, ExportTraceServiceRequest, RejectReason, empty_payload,
  SpanBatch, Result, ok, err, trace_id_of, span_id_of, new_span_of, service_name_of, Converted,
  convert_span, convert_spans, convert_scopes, convert_resources, convert,
}
unfoldable pub use Flat.{spans_of, all_spans, accepted, accepted_spans, rejected_count}
use Flat.{after, same_variables, after_nil, after_append}

-- What one round does, by whether the span is accepted.
abbrev Round : Option Text → Converted → Span → Type 0
Round service c p =
    ((accepted (service, p) ≡ none)
      × (convert_span service c p
          ≡ record c { malformed_span_count = c.malformed_span_count + 1; saw_any_span = true }))
    ⊎ ((y : TraceId × NewSpan) × (accepted (service, p) ≡ some y)
        × (convert_span service c p ≡ record c { spans = c.spans ++ y ∷ []; saw_any_span = true }))

convert_span-Round : (service : Option Text) (c : Converted) (p : Span) → Round service c p
unfolding convert_span accepted
convert_span-Round service c p = elim (Option-cases (trace_id_of p.trace_id)) [
  | inl e ↦ inl (rw (e, accepted), rw (e, convert_span))
  | inr (t, e) ↦ elim (Option-cases (span_id_of p.span_id)) [
    | inl e' ↦ inl (rw (e, accepted, e'), rw (e, convert_span, e'))
    | inr (s, e') ↦
        inr ((t, new_span_of service p s), rw (e, accepted, e'), rw (e, convert_span, e'))
  ]
]

convert_span_lem :
    (service : Option Text) (c : Converted) (p : Span)
    → convert_span service c p ≡ after c ((service, p) ∷ [])
unfolding accepted_spans rejected_count
convert_span_lem service c p = elim (convert_span-Round service c p) [
  | inl (no_ids, round) ↦
      round
      ∙ rw (no_ids, accepted_spans, rejected_count)
          (same_variables _ (c.spans ++ []) _ _ true (c.saw_any_span || true)
            (sym (append-nil c.spans)) refl (ground arith))
  | inr (y, ids, round) ↦
      round
      ∙ rw (ids, accepted_spans, rejected_count)
          (same_variables _ _ _ (c.malformed_span_count + 0) true (c.saw_any_span || true) refl
            (omega arith) (ground arith))
]

convert_spans_lem :
    (service : Option Text) (c : Converted) (ps : List Span)
    → convert_spans service c ps ≡ after c (map (λ p. (service, p)) ps)
unfolding convert_spans
convert_spans_lem service c [] = sym (after_nil c)
convert_spans_lem service c (p ∷ ps) =
    convert_spans_lem service (convert_span service c p) ps
    ∙ ap (λ d. after d (map (λ p. (service, p)) ps)) (convert_span_lem service c p)
    ∙ after_append c ((service, p) ∷ []) (map (λ p. (service, p)) ps)

convert_scopes_lem :
    (service : Option Text) (c : Converted) (ss : List ScopeSpans)
    → convert_scopes service c ss ≡ after c (spans_of service ss)
unfolding convert_scopes spans_of
convert_scopes_lem service c [] = sym (after_nil c)
convert_scopes_lem service c (s ∷ ss) =
    convert_scopes_lem service (convert_spans service c s.spans) ss
    ∙ ap (λ d. after d (spans_of service ss)) (convert_spans_lem service c s.spans)
    ∙ after_append c (map (λ p. (service, p)) s.spans) (spans_of service ss)

convert_resources_lem :
    (c : Converted) (rs : List ResourceSpans) → convert_resources c rs ≡ after c (all_spans rs)
unfolding convert_resources all_spans
convert_resources_lem c [] = sym (after_nil c)
convert_resources_lem c (r ∷ rs) =
    convert_resources_lem (convert_scopes (service_name_of r) c r.scope_spans) rs
    ∙ ap (λ d. after d (all_spans rs)) (convert_scopes_lem (service_name_of r) c r.scope_spans)
    ∙ after_append c (spans_of (service_name_of r) r.scope_spans) (all_spans rs)

-- The batch of a list of spans.
unfoldable pub batch_of : List (Option Text × Span) → SpanBatch
batch_of xs = record {
  spans = accepted_spans xs;
  is_partial = ltb 0 (rejected_count xs);
  malformed_span_count = rejected_count xs;
}

batch_of-counts :
    (xs : List (Option Text × Span))
    → length (batch_of xs).spans + (batch_of xs).malformed_span_count ≡ length xs
unfolding batch_of accepted_spans rejected_count
batch_of-counts [] = omega arith
batch_of-counts (x ∷ xs) = elim (Option-cases (accepted x)) [
  | inl e ↦ rw (e, accepted_spans, rejected_count) (omega (arith, batch_of-counts xs))
  | inr (y, e) ↦ rw (e, accepted_spans, rejected_count) (omega (arith, batch_of-counts xs))
]

-- A request with no span at all is rejected as empty; any other gives the batch of its spans in
-- order, each with its resource's service name, those with an id of the wrong length dropped and
-- counted, and partial exactly if one was dropped.
pub convert_lem :
    (request : ExportTraceServiceRequest)
    → convert request ≡ elim (all_spans request.resource_spans) [
      | [] ↦ err empty_payload
      | x ∷ xs ↦ ok (batch_of (x ∷ xs))
    ]
unfolding convert batch_of
convert_lem request =
    rw
      (convert_resources_lem (record { spans = []; malformed_span_count = 0; saw_any_span = false })
        request.resource_spans)
      (go (all_spans request.resource_spans))
  where
    start : Converted
    start = record { spans = []; malformed_span_count = 0; saw_any_span = false }

    go :
        (xs : List (Option Text × Span))
        → ◌≡◌ {A = Result RejectReason SpanBatch}
            (if (after start xs).saw_any_span
              then ok (record {
                spans = (after start xs).spans;
                is_partial = ltb 0 (after start xs).malformed_span_count;
                malformed_span_count = (after start xs).malformed_span_count;
              })
              else err empty_payload)
            (elim xs [ [] ↦ err empty_payload | x ∷ xs ↦ ok (batch_of (x ∷ xs)) ])
    go [] = refl
    go (x ∷ xs) =
        let e : 0 + rejected_count (x ∷ xs) ≡ rejected_count (x ∷ xs) = omega arith in rw e

-- If `convert` gives a batch, every span of the request is either in it or counted as malformed.
pub convert-counts :
    (request : ExportTraceServiceRequest) (batch : SpanBatch)
    → convert request ≡ ok batch
    → length batch.spans + batch.malformed_span_count ≡ length (all_spans request.resource_spans)
convert-counts request batch h =
    go (all_spans request.resource_spans) (sym (convert_lem request) ∙ h)
  where
    go :
        (xs : List (Option Text × Span))
        → ◌≡◌ {A = Result RejectReason SpanBatch}
            (elim xs [ [] ↦ err empty_payload | x ∷ xs ↦ ok (batch_of (x ∷ xs)) ])
            (ok batch)
        → length batch.spans + batch.malformed_span_count ≡ length xs
    go [] e = absurd (ground arith)
    go (x ∷ xs) e =
        let same : batch_of (x ∷ xs) ≡ batch = ground arith in
        rw (← same) (batch_of-counts (x ∷ xs))
