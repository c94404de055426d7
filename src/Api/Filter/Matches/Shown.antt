-- ===== src/Api/Filter/Matches/Shown.antt =====
-- The filter of src/api/filter.rs on the spans that the store shows.
use spanfall.Prelude.{
  ℕ, suc, ◌≡◌, refl, ap, ap₂, ◌∙◌, Bool, true, false, ◌&&◌, ◌||◌, Option, none, some, List, [], ◌∷◌,
  map, if◌then◌else◌, ok, get_elem?, ℕ_eq, list_eq,
}
use spanfall.Prelude.Map
use spanfall.Prelude.Text.{Text}
use spanfall.Prelude.Strings.{contains}
use spanfall.Types.{TraceId, IsBytes, to_hex, trace_id_eq}
use spanfall.Types.Hex.{from_hex-to_hex}
use spanfall.Trace.{NewSpan}
use spanfall.Trace.Spec.{Row}
use spanfall.Store.{Store}
use spanfall.Store.Valid.{IsValid}
use spanfall.Store.View.{View, RowShows, AllShow, ShowsAt, Shows}
use spanfall.Api.{not_found, json}
use spanfall.Api.Filter.{
  Term, Numbers, service, status, duration, attr, substring, service_matches, status_matches,
  duration_matches, values_match, any, attr_contains,
}
use spanfall.Api.Filter.Query.{parse_query}
use spanfall.Api.Filter.Matches.{get_filter}
use spanfall.Api.Filter.Matches.Rows.{row_matches, row_matches_all, matching, get_filter-matching}
use spanfall.Api.Filter.Matches.Values.{values_under, values_of-resolved, values-shown}

module _ (n : Numbers) (s : Store) where
  -- Whether a span, as it was sent, matches a term.
  unfoldable pub span_matches : Term → NewSpan → Bool
  span_matches (service op want) x = service_matches n op want x.service_name
  span_matches (status op want) x = status_matches n op want x.status_code
  span_matches (duration op want) x =
      duration_matches n op want x.start_time_unix_nano x.end_time_unix_nano
  span_matches (attr op (some key) raw) x =
      values_match n op raw (values_under (get_elem? s.key_interner.values key) x.attributes)
  span_matches (attr op none raw) x = false
  span_matches (substring needle) x =
      contains x.name needle
      || any n (λ v. attr_contains n v needle) (map (λ kv. kv.1) x.attributes)

  abbrev pub span_matches_all : List Term → NewSpan → Bool
  span_matches_all [] x = true
  span_matches_all (term ∷ terms) x = span_matches term x && span_matches_all terms x

  -- The indices, from `k` on, of the spans that match all terms.
  unfoldable pub selected : List Term → ℕ → List NewSpan → List ℕ
  selected terms k [] = []
  selected terms k (x ∷ xs) =
      let rest = selected terms (suc k) xs in if span_matches_all terms x then k ∷ rest else rest

  module _ (v : IsValid s) where
    row_matches-shown :
        (term : Term) (r : Row) (x : NewSpan)
        → RowShows s r x
        → row_matches n s term r ≡ span_matches term x
    unfolding row_matches span_matches
    row_matches-shown (service op want) r x e = ap (service_matches n op want) e.service
    row_matches-shown (status op want) r x e = ap (status_matches n op want) e.code
    row_matches-shown (duration op want) r x e = ap₂ (duration_matches n op want) e.start e.end
    row_matches-shown (attr op (some key) raw) r x e =
        ap (values_match n op raw)
          (values_of-resolved n s.key_interner v.keys key r.attributes x.attributes e.attributes)
    row_matches-shown (attr op none raw) r x e = refl
    row_matches-shown (substring needle) r x e =
        rw (e.name, values-shown s.key_interner r.attributes x.attributes e.attributes)

    row_matches_all-shown :
        (terms : List Term) (r : Row) (x : NewSpan)
        → RowShows s r x
        → row_matches_all n s terms r ≡ span_matches_all terms x
    row_matches_all-shown [] r x e = refl
    row_matches_all-shown (term ∷ terms) r x e =
        ap₂ (λ a b. a && b) (row_matches-shown term r x e) (row_matches_all-shown terms r x e)

    matching-shown :
        (terms : List Term) (k : ℕ) (rows : List Row) (spans : List NewSpan)
        → AllShow s rows spans
        → matching n s terms k rows ≡ selected terms k spans
    unfolding matching selected
    matching-shown terms k [] [] all = refl
    matching-shown terms k [] (x ∷ spans) all = absurd all
    matching-shown terms k (r ∷ rows) [] all = absurd all
    matching-shown terms k (r ∷ rows) (x ∷ spans) all =
        rw (row_matches_all-shown terms r x all.0, matching-shown terms (suc k) rows spans all.1)

  -- What `get_filter` answers for a trace that a view has, or has not.
  abbrev pub Selects : TraceId → Text → Option (List NewSpan) → Type 0
  Selects id query none = get_filter n s (to_hex id) query ≡ ok not_found
  Selects id query (some spans) =
      get_filter n s (to_hex id) query
      ≡ ok (
          json (record {
            indices = selected (parse_query query s).0 0 spans;
            dropped_terms = (parse_query query s).1;
          }))

  selects :
      (id : TraceId) (query : Text) (o : Option (List NewSpan))
      → IsValid s
      → IsBytes 16 id.bytes
      → ShowsAt s id o
      → Selects id query o
  unfolding get_filter
  selects id query none v bytes gone = rw (from_hex-to_hex id bytes, get_filter, gone)
  selects id query (some spans) v bytes (t, here, (rows, ref, within, all)) =
      get_filter-matching n s (to_hex id) query id t rows (from_hex-to_hex id bytes) here ref within
      ∙ ap (λ xs. ok (json (record { indices = xs; dropped_terms = (parse_query query s).1 })))
          (matching-shown v (parse_query query s).0 0 rows spans all)

-- On a valid store that shows a view, `get_filter` for the hexadecimal form of an id of sixteen
-- bytes answers 404 if the view has no such trace, and otherwise the indices, in order, of exactly
-- the spans that match every term of the query under their own strings and attributes, as they were
-- sent, and the query's dropped tokens.
pub get_filter-Selects :
    (n : Numbers) (s : Store) (m : View) (id : TraceId) (query : Text)
    → IsValid s
    → Shows s m
    → IsBytes 16 id.bytes
    → Selects n s id query (Map.get m id)
get_filter-Selects n s m id query v shows bytes =
    selects n s id query (Map.get m id) v bytes (shows id)
