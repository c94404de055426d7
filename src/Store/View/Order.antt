-- ===== src/Store/View/Order.antt =====
-- The order in which the spans of src/store/mod.rs arrive: what the store shows of spans that are
-- all different, and of the same spans in another order.
use spanfall.Prelude.{
  ◌≡◌, refl, sym, ap, ap₂, ◌∙◌, false, ◌&&◌, Option, none, some, List, [], ◌∷◌, ◌++◌, append_assoc,
  append-nil, All, beq_comm, Bool-cases, Option-cases, inl, inr, ◌==◌, if◌then◌else◌,
}
use spanfall.Prelude.Map
use spanfall.Prelude.Pairwise.{Pairwise}
use spanfall.Types.{TraceId, trace_id_eq, span_id_eq, trace_id_beq_iff}
use spanfall.Trace.{NewSpan}
use spanfall.Store.View.{View, absorb, absorb_span, absorb_spans, spans_of}

-- The spans of one trace.
unfoldable pub of_trace : TraceId → List (TraceId × NewSpan) → List NewSpan
of_trace id [] = []
of_trace id ((j, x) ∷ xs) =
    let rest = of_trace id xs in if trace_id_eq.beq j id then x ∷ rest else rest

-- Two spans of different ids.
abbrev pub IdsDiffer : NewSpan → NewSpan → Type 0
IdsDiffer x y = (y.span_id == x.span_id) ≡ false

abbrev pub Apart : List NewSpan → Type 0
Apart = Pairwise IdsDiffer

-- Two spans that differ in the trace or in the id.
abbrev pub SpansDiffer : TraceId × NewSpan → TraceId × NewSpan → Type 0
SpansDiffer x y = trace_id_eq.beq y.0 x.0 && (y.1.span_id == x.1.span_id) ≡ false

abbrev pub AllApart : List (TraceId × NewSpan) → Type 0
AllApart = Pairwise SpansDiffer

of_trace-Differs :
    (id : TraceId) (x : NewSpan) (xs : List (TraceId × NewSpan))
    → All (SpansDiffer (id, x)) xs
    → All (IdsDiffer x) (of_trace id xs)
unfolding of_trace
of_trace-Differs id x [] h = tt
of_trace-Differs id x ((j, y) ∷ xs) h = elim (Bool-cases (trace_id_eq.beq j id)) [
  | inl here ↦
      let other : (y.span_id == x.span_id) ≡ false = rw here at h.0 in
      rw here (other, of_trace-Differs id x xs h.1)
  | inr there ↦ rw there (of_trace-Differs id x xs h.1)
]

pub of_trace-Apart :
    (id : TraceId) (xs : List (TraceId × NewSpan)) → AllApart xs → Apart (of_trace id xs)
unfolding of_trace
of_trace-Apart id [] h = tt
of_trace-Apart id ((j, x) ∷ xs) h = elim (Bool-cases (trace_id_eq.beq j id)) [
  | inl here ↦ rw here (
    rw ((trace_id_beq_iff j id).0 here) at (of_trace-Differs j x xs h.0),
    of_trace-Apart id xs h.1,
  )
  | inr there ↦ rw there (of_trace-Apart id xs h.1)
]

-- A span of a new id goes to the end.
absorb-Differs :
    (xs : List NewSpan) (x : NewSpan) → All (IdsDiffer x) xs → absorb xs x ≡ xs ++ x ∷ []
unfolding absorb
absorb-Differs [] x h = refl
absorb-Differs (y ∷ xs) x h = rw (h.0, absorb-Differs xs x h.1)

-- Spans behind those that are there.
abbrev pub joined : Option (List NewSpan) → List NewSpan → Option (List NewSpan)
joined none [] = none
joined none (x ∷ xs) = some (x ∷ xs)
joined (some old) xs = some (old ++ xs)

pub IdsDiffer-flip : (x y : NewSpan) → IdsDiffer x y → IdsDiffer y x
IdsDiffer-flip x y h = beq_comm ⦃e = span_id_eq⦄ x.span_id y.span_id ∙ h

pub SpansDiffer-flip : (x y : TraceId × NewSpan) → SpansDiffer x y → SpansDiffer y x
SpansDiffer-flip x y h =
    ap₂ (λ a b. a && b) (beq_comm ⦃e = trace_id_eq⦄ x.0 y.0)
      (beq_comm ⦃e = span_id_eq⦄ x.1.span_id y.1.span_id)
    ∙ h

last-Differs :
    (old : List NewSpan) (x : NewSpan) (rest : List NewSpan)
    → Apart (old ++ x ∷ rest)
    → All (IdsDiffer x) old
last-Differs [] x rest h = tt
last-Differs (y ∷ old) x rest h = (IdsDiffer-flip y x (middle old h.0), last-Differs old x rest h.1)
  where
    middle :
        (old : List NewSpan)
        → All (IdsDiffer y) (old ++ x ∷ rest)
        → (x.span_id == y.span_id) ≡ false
    middle [] h = h.0
    middle (z ∷ old) h = middle old h.1

joined-step :
    (o : Option (List NewSpan)) (x : NewSpan) (xs : List NewSpan)
    → joined (some (spans_of o ++ x ∷ [])) xs ≡ joined o (x ∷ xs)
joined-step none x xs = refl
joined-step (some old) x xs = ap some (append_assoc old (x ∷ []) xs)

-- What is shown of spans that differ from one another and from those that are there.
pub get-absorb_spans :
    (m : View) (id : TraceId) (xs : List (TraceId × NewSpan))
    → Apart (spans_of (Map.get m id) ++ of_trace id xs)
    → Map.get (absorb_spans m xs) id ≡ joined (Map.get m id) (of_trace id xs)
unfolding absorb_spans absorb_span of_trace
get-absorb_spans m id [] h = elim (Option-cases (Map.get m id)) [
  | inl gone ↦ rw gone
  | inr (old, here) ↦ rw here (ap some (sym (append-nil old)))
]
get-absorb_spans m id ((j, x) ∷ xs) h = elim (Bool-cases (trace_id_eq.beq j id)) [
  | inl here ↦
      let old = spans_of (Map.get m id) in
      let h1 : Apart (old ++ x ∷ of_trace id xs) = rw here at h in
      let same : j ≡ id = (trace_id_beq_iff j id).0 here in
      let put : absorb (spans_of (Map.get m j)) x ≡ old ++ x ∷ [] =
        ap (λ k. absorb (spans_of (Map.get m k)) x) same
        ∙ absorb-Differs old x (last-Differs old x (of_trace id xs) h1) in
      let found : Map.get (absorb_span m j x) id ≡ some (old ++ x ∷ []) =
        Map.get-insert m j id (absorb (spans_of (Map.get m j)) x) ∙ rw here (ap some put) in
      let rest = get-absorb_spans (absorb_span m j x) id xs (rw found (rw append_assoc h1)) in
      rw here (
        rest
        ∙ ap (λ o. joined o (of_trace id xs)) found
        ∙ joined-step (Map.get m id) x (of_trace id xs))
  | inr there ↦
      let kept : Map.get (absorb_span m j x) id ≡ Map.get m id =
        Map.get-insert m j id (absorb (spans_of (Map.get m j)) x) ∙ rw there in
      let rest = get-absorb_spans (absorb_span m j x) id xs (rw kept (rw there at h)) in
      rw there (rest ∙ ap (λ o. joined o (of_trace id xs)) kept)
]
