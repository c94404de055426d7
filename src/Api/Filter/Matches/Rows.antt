-- ===== src/Api/Filter/Matches/Rows.antt =====
-- The filter of src/api/filter.rs on the rows that a trace stores.
use spanfall.Prelude.{
  ℕ, suc, ◌≡◌, refl, Bool, true, false, ◌&&◌, ◌||◌, Option, none, some, List, [], ◌∷◌, ◌++◌, map,
  length, if◌then◌else◌, Exec, ok, ◌>>=◌, arith, All, get_elem?, get_elem?_of_lt, Bool-cases,
  Option-cases, inl, inr, append_assoc, length-append,
}
use spanfall.Prelude.MapLaws.{AllValues-get}
use spanfall.Prelude.Text.{Text}
use spanfall.Prelude.Strings.{contains}
use spanfall.Types.{TraceId, from_hex, trace_id_eq}
use spanfall.Interner
use spanfall.Trace.{Trace}
use spanfall.Trace.Spec.{Row, Refines, key_of, value_of}
use spanfall.Trace.Readers.{Reads, Refines-Reads, span_count_lem}
use spanfall.Store.{Store, trace, service_name as store_service_name}
use spanfall.Store.Valid.{
  IsValid, RowWithin, IdWithin, Stored, key_count, service_count, row_service,
}
use spanfall.Store.Sizes.{get_elem?-middle}
use spanfall.Api.{Answer, bad_request, not_found, json}
use spanfall.Api.Filter.{
  Term, Numbers, matches, service_at, service, status, duration, attr, substring, service_matches,
  status_matches, duration_matches, values_match, values_of, any, attr_contains,
}
use spanfall.Api.Filter.Query.{parse_query}
use spanfall.Api.Filter.Matches.{FilterResponse, all_match, filter_from, filter_trace, get_filter}

module _ (n : Numbers) (s : Store) where
  -- Whether a row matches a term.
  unfoldable pub row_matches : Term → Row → Bool
  row_matches (service op want) r = service_matches n op want (row_service s r.service_name_id)
  row_matches (status op want) r = status_matches n op want r.status_code
  row_matches (duration op want) r =
      duration_matches n op want r.start_time_unix_nano r.end_time_unix_nano
  row_matches (attr op (some key) raw) r =
      values_match n op raw (values_of n key (map key_of r.attributes) (map value_of r.attributes))
  row_matches (attr op none raw) r = false
  row_matches (substring needle) r =
      contains r.name needle || any n (λ v. attr_contains n v needle) (map value_of r.attributes)

  abbrev pub row_matches_all : List Term → Row → Bool
  row_matches_all [] r = true
  row_matches_all (term ∷ terms) r = row_matches term r && row_matches_all terms r

  -- The indices, from `k` on, of the rows that match all terms.
  unfoldable pub matching : List Term → ℕ → List Row → List ℕ
  matching terms k [] = []
  matching terms k (r ∷ rows) =
      let rest = matching terms (suc k) rows in if row_matches_all terms r then k ∷ rest else rest

  module _ (t : Trace) (i : ℕ) (r : Row) (rows : List Row) (reads : Reads t rows i r)
      (within : RowWithin (key_count s) (service_count s) r) where
    service_name_lem :
        (o : Option ℕ)
        → IdWithin (service_count s) o
        → (elim o as (λ x. Exec (Option Text)) [
          | none ↦ ok none
          | some id ↦ do got ← store_service_name s id; ok (some got)
        ])
          ≡ ok (row_service s o)
    unfolding store_service_name Interner.get
    service_name_lem none w = refl
    service_name_lem (some id) w =
        let (v, e) = get_elem?_of_lt s.service_interner.values id w in rw e

    service_at_lem : service_at n t s i ≡ ok (row_service s r.service_name_id)
    unfolding service_at
    service_at_lem = rw reads.service (service_name_lem r.service_name_id within.service)

    matches_lem : (term : Term) → matches n term t s i ≡ ok (row_matches term r)
    unfolding matches row_matches
    matches_lem (service op want) = rw service_at_lem
    matches_lem (status op want) = rw reads.code
    matches_lem (duration op want) = rw (reads.end, reads.start)
    matches_lem (attr op (some key) raw) = rw (reads.keys, reads.values)
    matches_lem (attr op none raw) = refl
    matches_lem (substring needle) = elim (Bool-cases (contains r.name needle)) [
      | inl fits ↦ rw (reads.name, fits)
      | inr fails ↦ rw (reads.name, fails, reads.values)
    ]

    all_match_lem : (terms : List Term) → all_match n terms t s i ≡ ok (row_matches_all terms r)
    unfolding all_match
    all_match_lem [] = refl
    all_match_lem (term ∷ terms) = elim (Bool-cases (row_matches term r)) [
      | inl fits ↦ rw (matches_lem term, fits) (all_match_lem terms)
      | inr fails ↦ rw (matches_lem term, fails)
    ]

  module _ (t : Trace) (terms : List Term) where
    filter_from_lem :
        (before after : List Row) (k : ℕ)
        → Refines t (before ++ after)
        → All (RowWithin (key_count s) (service_count s)) after
        → length before ≡ k
        → filter_from n terms t s k (length after) ≡ ok (matching terms k after)
    unfolding filter_from matching
    filter_from_lem before [] k ref within l = refl
    filter_from_lem before (r ∷ after) k ref within l =
        let here : get_elem? (before ++ r ∷ after) k ≡ some r =
          rw (← l) (get_elem?-middle before r after) in
        let reads = Refines-Reads t (before ++ r ∷ after) k r ref here in
        rw (
          all_match_lem t k r (before ++ r ∷ after) reads within.0 terms,
          filter_from_lem (before ++ r ∷ []) after (suc k) (rw append_assoc ref) within.1
              (omega (arith, length-append before (r ∷ []))),
        )

-- For a trace of the store that holds `rows`, whose ids are within the store's tables, `get_filter`
-- does not panic, and answers with the indices, in order, of exactly the rows that match every term
-- of the query, and with the query's dropped tokens.
pub get_filter-matching :
    (n : Numbers) (s : Store) (id query : Text) (trace_id : TraceId) (t : Trace) (rows : List Row)
    → from_hex id ≡ some trace_id
    → trace s trace_id ≡ some t
    → Refines t rows
    → All (RowWithin (key_count s) (service_count s)) rows
    → get_filter n s id query
      ≡ ok (
          json (record {
            indices = matching n s (parse_query query s).0 0 rows;
            dropped_terms = (parse_query query s).1;
          }))
unfolding get_filter filter_trace
get_filter-matching n s id query trace_id t rows hex found ref within = rw (
  hex,
  get_filter,
  found,
  span_count_lem t rows ref,
  filter_from_lem n s t (parse_query query s).0 [] rows 0 ref within refl,
)

-- On a valid store no request for a filter panics.
pub get_filter_ok :
    (n : Numbers) (s : Store) (id query : Text)
    → IsValid s
    → (a : Answer FilterResponse) × (get_filter n s id query ≡ ok a)
get_filter_ok n s id query v = elim (Option-cases (from_hex id)) [
  | inl none_read ↦ (bad_request, unfold get_filter in rw (none_read, get_filter))
  | inr (trace_id, hex) ↦ elim (Option-cases (trace s trace_id)) [
    | inl missing ↦ (not_found, unfold get_filter in rw (hex, get_filter, missing))
    | inr (t, found) ↦
        let (rows, ref, within) =
          AllValues-get (Stored (key_count s) (service_count s)) s.traces trace_id {v = t} v.traces
            (unfold trace in found) in
        (
          json (record {
            indices = matching n s (parse_query query s).0 0 rows;
            dropped_terms = (parse_query query s).1;
          }),
          get_filter-matching n s id query trace_id t rows hex found ref within,
        )
  ]
]
