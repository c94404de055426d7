-- ===== src/Api/Attributes/Shown.antt =====
-- What `get_attributes` of src/api/attributes.rs answers for the spans that the store shows.
use spanfall.Prelude.{
  ℕ, suc, ◌≤◌, ◌≡◌, refl, ap, ap₂, ◌∙◌, zero, true, Option, none, some, List, [], ◌∷◌, map, length,
  ok, arith, leb, get_elem?, All, Option-cases, inl, inr, of_some,
}
use spanfall.Prelude.Map
use spanfall.Prelude.Text.{Text}
use spanfall.Types.{TraceId, AttrValue, IsBytes, to_hex, trace_id_eq}
use spanfall.Types.Hex.{from_hex-to_hex}
use spanfall.Trace.{NewSpan, span_count}
use spanfall.Trace.Spec.{Row}
use spanfall.Trace.Readers.{span_count_lem}
use spanfall.Trace.Attrs.{all_kept}
use spanfall.Store.{Store}
use spanfall.Store.Valid.{RowWithin, key_count, service_count}
use spanfall.Store.View.{View, RowShows, AllShow, ShowsAt, Shows}
use spanfall.Api.{not_found, json}
use spanfall.Api.Traces.Shown.{length-shown}
use spanfall.Api.Attributes.{AttributeEntry, span_entries, get_attributes}
use spanfall.Api.Attributes.Entries.{pair_of_entry, get_attributes-row_pairs}

-- An attribute as it is answered.
abbrev pub entry_of : Text × AttrValue → AttributeEntry
entry_of kv = record { key = kv.0; value = kv.1 }

-- What the API answers for one span of a trace that a view has, or has not.
abbrev pub AnswersSpan : Store → TraceId → ℕ → Option NewSpan → Type 0
AnswersSpan s id idx none = get_attributes s (to_hex id) idx ≡ ok not_found
AnswersSpan s id idx (some x) =
    get_attributes s (to_hex id) idx ≡ ok (json (map entry_of x.attributes))

abbrev pub span_at : Option (List NewSpan) → ℕ → Option NewSpan
span_at none idx = none
span_at (some xs) idx = get_elem? xs idx

entries-kept :
    (es : List AttributeEntry) (kvs : List (Text × AttrValue))
    → map pair_of_entry es ≡ all_kept kvs
    → es ≡ map entry_of kvs
entries-kept [] [] h = refl
entries-kept [] (kv ∷ kvs) h = absurd (cc)
entries-kept (e ∷ es) [] h = absurd (cc)
entries-kept (e ∷ es) ((k, v) ∷ kvs) h =
    let key : e.key ≡ k = of_some (cc) in
    let value : e.value ≡ v = cc in
    ap₂ (λ x xs. x ∷ xs) (ap₂ (λ k v. record { key = k; value = v }) key value)
      (entries-kept es kvs (cc))

-- The row behind a span.
row_at :
    (s : Store) (rows : List Row) (spans : List NewSpan) (idx : ℕ) (x : NewSpan)
    → AllShow s rows spans
    → All (RowWithin (key_count s) (service_count s)) rows
    → get_elem? spans idx ≡ some x
    → (r : Row) × (get_elem? rows idx ≡ some r)
      × RowShows s r x
      × RowWithin (key_count s) (service_count s) r
row_at s [] [] idx x all within h = absurd (ground arith)
row_at s [] (y ∷ spans) idx x all within h = absurd all
row_at s (r ∷ rows) [] idx x all within h = absurd all
row_at s (r ∷ rows) (y ∷ spans) zero x all within h =
    let same : y ≡ x = of_some h in (r, refl, rw (← same) all.0, within.0)
row_at s (r ∷ rows) (y ∷ spans) (suc idx) x all within h =
    row_at s rows spans idx x all.1 within.1 h

none-beyond : (spans : List NewSpan) (idx : ℕ) → get_elem? spans idx ≡ none → length spans ≤ idx
none-beyond [] idx h = omega arith
none-beyond (x ∷ spans) zero h = absurd (ground arith)
none-beyond (x ∷ spans) (suc idx) h = omega (arith, none-beyond spans idx h)

answers_span :
    (s : Store) (id : TraceId) (idx : ℕ) (o : Option (List NewSpan))
    → IsBytes 16 id.bytes
    → ShowsAt s id o
    → AnswersSpan s id idx (span_at o idx)
unfolding get_attributes span_entries
answers_span s id idx none bytes gone = rw (from_hex-to_hex id bytes, get_attributes, gone)
answers_span s id idx (some spans) bytes (t, here, (rows, ref, within, all)) =
    elim (Option-cases (get_elem? spans idx)) [
      | inl beyond ↦
          let outside : leb (span_count t) idx ≡ true = ground (
            arith,
            span_count_lem t rows ref,
            length-shown s rows spans all,
            none-beyond spans idx beyond,
          ) in
          rw beyond (rw (from_hex-to_hex id bytes, get_attributes, here, outside))
      | inr (x, found) ↦
          let (r, row, shows, inside) = row_at s rows spans idx x all within found in
          let (es, ret, same) =
            get_attributes-row_pairs s (to_hex id) idx id t rows r (from_hex-to_hex id bytes) here
              ref row inside in
          rw found
            (ret ∙ ap (λ xs. ok (json xs)) (entries-kept es x.attributes (same ∙ shows.attributes)))
    ]

-- On a store that shows a view, `get_attributes` for the hexadecimal form of an id of sixteen bytes
-- and an index answers 404 if the view has no such trace or the trace no span at the index, and
-- otherwise the attributes that the span was sent with, keys and values, in order.
pub get_attributes-AnswersSpan :
    (s : Store) (m : View) (id : TraceId) (idx : ℕ)
    → Shows s m
    → IsBytes 16 id.bytes
    → AnswersSpan s id idx (span_at (Map.get m id) idx)
get_attributes-AnswersSpan s m id idx shows bytes =
    answers_span s id idx (Map.get m id) bytes (shows id)
