-- ===== src/Store/View/Permuted.antt =====
-- The same spans in another order: the spans of each trace, and what their parents are.
use mathlib.Core.List.{Permᴰ}
use mathlib.Core.List.Permᴰ
use spanfall.Prelude.{
  ℕ, suc, ◌≡◌, refl, sym, ap, ap₂, ◌∙◌, subst, Bool, true, false, not, Option, none, some, List, [],
  ◌∷◌, map, Bool-cases, inl, inr, ◌==◌, is_some, if◌then◌else◌, get_elem?,
}
use spanfall.Prelude.Pairwise.{Pairwise-Permᴰ}
use spanfall.Types.{TraceId, SpanId, trace_id_eq, span_id_eq, span_id_beq_iff}
use spanfall.Trace.{NewSpan}
use spanfall.Trace.Spec.{position, parent_of, orphan_of}
use spanfall.Store.View.Order.{of_trace, IdsDiffer, Apart, IdsDiffer-flip}

of_trace-swap :
    (id : TraceId) (a b : TraceId × NewSpan) (l : List (TraceId × NewSpan))
    → Permᴰ (of_trace id (a ∷ b ∷ l)) (of_trace id (b ∷ a ∷ l))
unfolding of_trace
of_trace-swap id a b l = elim (Bool-cases (trace_id_eq.beq a.0 id)) [
  | inl here ↦ elim (Bool-cases (trace_id_eq.beq b.0 id)) [
    | inl too ↦ rw (here, too) (Permᴰ.swap refl refl)
    | inr there ↦ rw (here, there) (Permᴰ.refl (a.1 ∷ of_trace id l))
  ]
  | inr elsewhere ↦ elim (Bool-cases (trace_id_eq.beq b.0 id)) [
    | inl too ↦ rw (elsewhere, too) (Permᴰ.refl (b.1 ∷ of_trace id l))
    | inr there ↦ rw (elsewhere, there) (Permᴰ.refl (of_trace id l))
  ]
]

-- The spans of a trace, when all spans come in another order.
pub of_trace-Permᴰ :
    (id : TraceId) {xs ys : List (TraceId × NewSpan)}
    → Permᴰ xs ys
    → Permᴰ (of_trace id xs) (of_trace id ys)
unfolding of_trace
of_trace-Permᴰ id Permᴰ.nil = Permᴰ.nil
of_trace-Permᴰ id (Permᴰ.cons {a} {b} {l₁} {l₂} e p) = elim (Bool-cases (trace_id_eq.beq a.0 id)) [
  | inl here ↦
      let here' : trace_id_eq.beq b.0 id ≡ true = rw (← e) here in
      rw (here, here') (Permᴰ.cons (ap (λ x. x.1) e) (of_trace-Permᴰ id p))
  | inr there ↦
      let there' : trace_id_eq.beq b.0 id ≡ false = rw (← e) there in
      rw (there, there') (of_trace-Permᴰ id p)
]
of_trace-Permᴰ id (Permᴰ.swap {a} {b} {a'} {b'} {l} e f) =
    subst (λ zs. Permᴰ (of_trace id (a ∷ b ∷ l)) (of_trace id zs)) (ap₂ (λ x y. x ∷ y ∷ l) f e)
      (of_trace-swap id a b l)
of_trace-Permᴰ id (Permᴰ.trans p q) = Permᴰ.trans (of_trace-Permᴰ id p) (of_trace-Permᴰ id q)

Apart-Permᴰ : {xs ys : List NewSpan} → Permᴰ xs ys → Apart xs → Apart ys
Apart-Permᴰ = Pairwise-Permᴰ IdsDiffer IdsDiffer-flip

-- The span with an id.
unfoldable pub span_with : SpanId → List NewSpan → Option NewSpan
span_with s [] = none
span_with s (x ∷ xs) = let rest = span_with s xs in if x.span_id == s then some x else rest

span_with-swap :
    (s : SpanId) (a b : NewSpan) (l : List NewSpan)
    → Apart (a ∷ b ∷ l)
    → span_with s (a ∷ b ∷ l) ≡ span_with s (b ∷ a ∷ l)
unfolding span_with
span_with-swap s a b l h = elim (Bool-cases (a.span_id == s)) [
  | inl here ↦
      let other : (b.span_id == s) ≡ false =
        subst (λ i. (b.span_id == i) ≡ false) ((span_id_beq_iff a.span_id s).0 here) h.0.0 in
      rw (here, other)
  | inr there ↦ rw there
]

pub span_with-Permᴰ :
    (s : SpanId) {xs ys : List NewSpan} → Permᴰ xs ys → Apart xs → span_with s xs ≡ span_with s ys
unfolding span_with
span_with-Permᴰ s Permᴰ.nil h = refl
span_with-Permᴰ s (Permᴰ.cons {l₁} {l₂} e p) h = rw e (rw (span_with-Permᴰ s p h.1))
span_with-Permᴰ s (Permᴰ.swap {a} {b} {a'} {b'} {l} e f) h =
    span_with-swap s a b l h ∙ ap₂ (λ x y. span_with s (x ∷ y ∷ l)) f e
span_with-Permᴰ s (Permᴰ.trans p q) h =
    span_with-Permᴰ s p h ∙ span_with-Permᴰ s q (Apart-Permᴰ p h)

-- The span at an index, if there is one.
abbrev pub at_index : List NewSpan → Option ℕ → Option NewSpan
at_index xs none = none
at_index xs (some i) = get_elem? xs i

at_later :
    (x : NewSpan) (xs : List NewSpan) (o : Option ℕ)
    → at_index (x ∷ xs) (elim o [ none ↦ none | some i ↦ some (suc i) ]) ≡ at_index xs o
at_later x xs none = refl
at_later x xs (some i) = refl

pub at_position :
    (s : SpanId) (xs : List NewSpan)
    → at_index xs (position s (map (λ y. y.span_id) xs)) ≡ span_with s xs
unfolding position span_with
at_position s [] = refl
at_position s (x ∷ xs) = elim (Bool-cases (x.span_id == s)) [
  | inl here ↦ rw here
  | inr there ↦ rw there (at_later x xs (position s (map (λ y. y.span_id) xs)) ∙ at_position s xs)
]

-- A parent is found exactly if the span is there.
found-position :
    (s : SpanId) (xs : List NewSpan)
    → is_some (position s (map (λ y. y.span_id) xs)) ≡ is_some (span_with s xs)
unfolding position span_with
found-position s [] = refl
found-position s (x ∷ xs) = elim (Bool-cases (x.span_id == s)) [
  | inl here ↦ rw here
  | inr there ↦ rw there (later (position s (map (λ y. y.span_id) xs)) ∙ found-position s xs)
]
  where
    later : (o : Option ℕ) → is_some (elim o [ none ↦ none | some i ↦ some (suc i) ]) ≡ is_some o
    later none = refl
    later (some i) = refl

-- The parent that a span of a trace is shown with.
abbrev pub parent_in : List NewSpan → NewSpan → Option NewSpan
parent_in xs x = at_index xs (parent_of (map (λ y. y.span_id) xs) x.parent_span_id)

abbrev pub orphan_in : List NewSpan → NewSpan → Bool
orphan_in xs x = orphan_of (map (λ y. y.span_id) xs) x.parent_span_id

module _ {xs ys : List NewSpan} (p : Permᴰ xs ys) (apart : Apart xs) where
  parent-Permᴰ :
      (o : Option SpanId)
      → at_index xs (parent_of (map (λ y. y.span_id) xs) o)
        ≡ at_index ys (parent_of (map (λ y. y.span_id) ys) o)
  parent-Permᴰ none = refl
  parent-Permᴰ (some s) = at_position s xs ∙ span_with-Permᴰ s p apart ∙ sym (at_position s ys)

  orphan-Permᴰ :
      (o : Option SpanId)
      → orphan_of (map (λ y. y.span_id) xs) o ≡ orphan_of (map (λ y. y.span_id) ys) o
  orphan-Permᴰ none = refl
  orphan-Permᴰ (some s) =
      ap not
        (found-position s xs ∙ ap is_some (span_with-Permᴰ s p apart) ∙ sym (found-position s ys))

  -- Each span has the same parent, or is an orphan, in either order.
  pub parent_in-Permᴰ : (x : NewSpan) → parent_in xs x ≡ parent_in ys x
  parent_in-Permᴰ x = parent-Permᴰ x.parent_span_id

  pub orphan_in-Permᴰ : (x : NewSpan) → orphan_in xs x ≡ orphan_in ys x
  orphan_in-Permᴰ x = orphan-Permᴰ x.parent_span_id
