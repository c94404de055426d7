-- ===== src/Ingest/Convert/Laws/Flat.antt =====
-- The spans of a request in one list, and what src/ingest/convert.rs keeps of them.
use spanfall.Prelude.{
  ℕ, suc, ◌+◌, ◌≡◌, refl, sym, ap, ◌∙◌, Bool, true, false, ◌||◌, Option, none, some, List, [], ◌∷◌,
  ◌++◌, arith, append_assoc, append-nil, Option-cases, inl, inr, map,
}
use spanfall.Prelude.Text.{Text}
use spanfall.Types.{TraceId}
use spanfall.Trace.{NewSpan}
use spanfall.Ingest.Convert.{
  Span, ScopeSpans, ResourceSpans, trace_id_of, span_id_of, new_span_of, service_name_of, Converted,
}

-- Every span of a request in order, with the service name of its resource.
unfoldable pub spans_of : Option Text → List ScopeSpans → List (Option Text × Span)
spans_of service [] = []
spans_of service (s ∷ ss) = map (λ p. (service, p)) s.spans ++ spans_of service ss

unfoldable pub all_spans : List ResourceSpans → List (Option Text × Span)
all_spans [] = []
all_spans (r ∷ rs) = spans_of (service_name_of r) r.scope_spans ++ all_spans rs

-- What becomes of one span: nothing, unless both of its ids have the right length.
unfoldable pub accepted : Option Text × Span → Option (TraceId × NewSpan)
accepted (service, p) = elim (trace_id_of p.trace_id) [
  | none ↦ none
  | some t ↦ elim (span_id_of p.span_id) [
    | none ↦ none
    | some s ↦ some (t, new_span_of service p s)
  ]
]

unfoldable pub accepted_spans : List (Option Text × Span) → List (TraceId × NewSpan)
accepted_spans [] = []
accepted_spans (x ∷ xs) = elim (accepted x) [
  | none ↦ accepted_spans xs
  | some y ↦ y ∷ accepted_spans xs
]

unfoldable pub rejected_count : List (Option Text × Span) → ℕ
rejected_count [] = 0
rejected_count (x ∷ xs) = elim (accepted x) [
  | none ↦ suc (rejected_count xs)
  | some y ↦ rejected_count xs
]

abbrev nonempty : List (Option Text × Span) → Bool
nonempty [] = false
nonempty (x ∷ xs) = true

-- The loops' variables after some more spans.
abbrev pub after : Converted → List (Option Text × Span) → Converted
after c xs = record {
  spans = c.spans ++ accepted_spans xs;
  malformed_span_count = c.malformed_span_count + rejected_count xs;
  saw_any_span = c.saw_any_span || nonempty xs;
}

pub same_variables :
    (xs ys : List (TraceId × NewSpan)) (n m : ℕ) (a b : Bool)
    → xs ≡ ys
    → n ≡ m
    → a ≡ b
    → ◌≡◌ {A = Converted}
        (record { spans = xs; malformed_span_count = n; saw_any_span = a })
        (record { spans = ys; malformed_span_count = m; saw_any_span = b })
same_variables xs ys n m a b p q r =
    λ i. record { spans = p i; malformed_span_count = q i; saw_any_span = r i }

accepted_spans-append :
    (xs ys : List (Option Text × Span))
    → accepted_spans (xs ++ ys) ≡ accepted_spans xs ++ accepted_spans ys
unfolding accepted_spans
accepted_spans-append [] ys = refl
accepted_spans-append (x ∷ xs) ys = elim (Option-cases (accepted x)) [
  | inl e ↦ rw (e, accepted_spans) (accepted_spans-append xs ys)
  | inr (y, e) ↦ rw (e, accepted_spans) (ap (◌∷◌ y) (accepted_spans-append xs ys))
]

rejected_count-append :
    (xs ys : List (Option Text × Span))
    → rejected_count (xs ++ ys) ≡ rejected_count xs + rejected_count ys
unfolding rejected_count
rejected_count-append [] ys = omega arith
rejected_count-append (x ∷ xs) ys = elim (Option-cases (accepted x)) [
  | inl e ↦ rw (e, rejected_count) (omega (arith, rejected_count-append xs ys))
  | inr (y, e) ↦ rw (e, rejected_count) (rejected_count-append xs ys)
]

nonempty-append :
    (b : Bool) (xs ys : List (Option Text × Span))
    → ((b || nonempty xs) || nonempty ys) ≡ (b || nonempty (xs ++ ys))
nonempty-append b [] ys = ground arith
nonempty-append b (x ∷ xs) ys = ground arith

pub after_nil : (c : Converted) → after c [] ≡ c
unfolding accepted_spans rejected_count
after_nil c =
    same_variables (c.spans ++ []) c.spans (c.malformed_span_count + 0) c.malformed_span_count
      (c.saw_any_span || false) c.saw_any_span (append-nil c.spans) (omega arith) (ground arith)

pub after_append :
    (c : Converted) (xs ys : List (Option Text × Span)) → after (after c xs) ys ≡ after c (xs ++ ys)
after_append c xs ys =
    same_variables _ _ _ _ _ _
      (append_assoc c.spans (accepted_spans xs) (accepted_spans ys)
        ∙ ap (◌++◌ c.spans) (sym (accepted_spans-append xs ys)))
      (omega (arith, rejected_count-append xs ys)) (nonempty-append c.saw_any_span xs ys)
