-- ===== src/Api/Filter/Matches/Found.antt =====
-- `get_filter` of src/api/filter.rs on a query as a user writes it, against what the query asks of the
-- spans that the store shows.
use spanfall.Prelude.{
  ℕ, suc, ◌*◌, ◌≡◌, refl, ap, ◌∙◌, Option, none, some, List, [], ◌∷◌, map, All, Bool-cases, inl,
  inr, ok, list_beq_iff, ℕ_eq, list_eq, arith,
}
use spanfall.Prelude.Map
use spanfall.Prelude.MapLaws.{none≢some}
use spanfall.Prelude.Text.{Text}
use spanfall.Types.{TraceId, IsBytes, to_hex, trace_id_eq, pos, ℤ}
use spanfall.Interner.{lookup}
use spanfall.Trace.{NewSpan}
use spanfall.Store.{Store, attribute_key_id}
use spanfall.Store.Valid.{IsValid}
use spanfall.Store.View.{View, Shows}
use spanfall.Api.{not_found, json}
use spanfall.Api.Filter.{
  Op, eq, ne, gt, gte, lt, lte, Numbers, attr, service_matches, status_matches, attr_contains,
}
use spanfall.Api.Filter.Query.Durations.{nanos_of}
use spanfall.Api.Filter.Query.Wanted.{
  Wanted, by_service, by_status, by_duration, by_attr, phrase, term_of, print_query, IsPrintable,
}
use spanfall.Api.Filter.Query.RoundTrip.{parse_query-print_query}
use spanfall.Api.Filter.Matches.{get_filter}
use spanfall.Api.Filter.Matches.Shown.{
  span_matches, span_matches_all, selected, get_filter-Selects, Selects,
}
use spanfall.Api.Filter.Matches.Meaning.{Same, IsKnown, HasWanted, Meets, MeetsAll, Chosen}
use spanfall.Api.Filter.Matches.Decided.{
  Decides, decides-not, decides-or, decides-and, decides_as, int_eq_iff, contains-Occurs,
  duration_matches-Lasted,
}
use spanfall.Api.Filter.Matches.Wants.{attr_contains-Mentions, any-Any, values_match-HasWanted}

service_matches-Same :
    (n : Numbers) (op : Op) (want : Text) (got : Option Text)
    → Decides (service_matches n op want got) (Same op got (some want))
unfolding service_matches
service_matches-Same n eq want none = ((λ h. absurd (ground arith)), λ h. absurd (cc))
service_matches-Same n eq want (some got) = decides_as _ (list_beq_iff got want) (ap some) (λ h. cc)
service_matches-Same n ne want none = ((λ h e. cc), λ h. refl)
service_matches-Same n ne want (some got) =
    decides-not _ (decides_as _ (list_beq_iff got want) (ap some) (λ h. cc))
service_matches-Same n gt want got = ((λ h. absurd (ground arith)), λ h. absurd h)
service_matches-Same n gte want got = ((λ h. absurd (ground arith)), λ h. absurd h)
service_matches-Same n lt want got = ((λ h. absurd (ground arith)), λ h. absurd h)
service_matches-Same n lte want got = ((λ h. absurd (ground arith)), λ h. absurd h)

status_matches-Same :
    (n : Numbers) (op : Op) (want code : ℤ)
    → Decides (status_matches n op want code) (Same op code want)
unfolding status_matches
status_matches-Same n eq want code = int_eq_iff code want
status_matches-Same n ne want code = decides-not _ (int_eq_iff code want)
status_matches-Same n gt want code = ((λ h. absurd (ground arith)), λ h. absurd h)
status_matches-Same n gte want code = ((λ h. absurd (ground arith)), λ h. absurd h)
status_matches-Same n lt want code = ((λ h. absurd (ground arith)), λ h. absurd h)
status_matches-Same n lte want code = ((λ h. absurd (ground arith)), λ h. absurd h)

module _ (n : Numbers) (s : Store) (v : IsValid s) (x : NewSpan) where
  attr-Meets :
      (key : Text) (op : Op) (raw : Text) (o : Option ℕ)
      → attribute_key_id s key ≡ o
      → Decides
          (span_matches n s (attr op o raw) x)
          (IsKnown n s key × HasWanted n key op raw x.attributes)
  unfolding span_matches attribute_key_id lookup
  attr-Meets key op raw none h = (
    (λ e. absurd (ground arith)),
    λ ((id, there), wanted). absurd (none≢some h (v.keys.complete key id there)),
  )
  attr-Meets key op raw (some id) h =
      let there = v.keys.sound key id h in
      rw there (
        decides_as _ (values_match-HasWanted n key raw x.attributes op)
          (λ wanted. ((id, there), wanted)) (λ h. h.1))

  span_matches-Meets : (w : Wanted) → Decides (span_matches n s (term_of s w) x) (Meets n s w x)
  unfolding span_matches
  span_matches-Meets (by_service op name) = service_matches-Same n op name x.service_name
  span_matches-Meets (by_status op code) = status_matches-Same n op (pos code) x.status_code
  span_matches-Meets (by_duration op k u) =
      duration_matches-Lasted n op (k * nanos_of u) x.start_time_unix_nano x.end_time_unix_nano
  span_matches-Meets (by_attr key op raw) = attr-Meets key op raw _ refl
  span_matches-Meets (phrase needle) = decides-or _ _ (contains-Occurs x.name needle) (
      any-Any n (λ a. attr_contains n a needle) _ (λ a. attr_contains-Mentions n a needle)
        x.attributes)

  span_matches_all-MeetsAll :
      (ws : List Wanted) → Decides (span_matches_all n s (map (term_of s) ws) x) (MeetsAll n s ws x)
  span_matches_all-MeetsAll [] = ((λ h. tt), λ h. refl)
  span_matches_all-MeetsAll (w ∷ ws) =
      decides-and _ _ (span_matches-Meets w) (span_matches_all-MeetsAll ws)

selected-Chosen :
    (n : Numbers) (s : Store) (v : IsValid s) (ws : List Wanted) (k : ℕ) (spans : List NewSpan)
    → Chosen n s ws k spans (selected n s (map (term_of s) ws) k spans)
unfolding selected
selected-Chosen n s v ws k [] = refl
selected-Chosen n s v ws k (x ∷ spans) =
    let d = span_matches_all-MeetsAll n s v x ws in
    let rest = selected-Chosen n s v ws (suc k) spans in
    elim (Bool-cases (span_matches_all n s (map (term_of s) ws) x)) [
      | inl meets ↦ rw meets (inl (d.0 meets, _, refl, rest))
      | inr misses ↦ rw misses (inr ((λ h. let e = d.1 h in ground arith), rest))
    ]

-- What a query finds in a trace that a view has, or has not.
abbrev pub Finds : Numbers → Store → TraceId → List Wanted → Option (List NewSpan) → Type 0
Finds n s id ws none = get_filter n s (to_hex id) (print_query ws) ≡ ok not_found
Finds n s id ws (some spans) =
    (indices : List ℕ) × (get_filter n s (to_hex id) (print_query ws)
      ≡ ok (json (record { indices = indices; dropped_terms = [] })))
    × Chosen n s ws 0 spans indices

finds :
    (n : Numbers) (s : Store) (id : TraceId) (ws : List Wanted) (o : Option (List NewSpan))
    → IsValid s
    → All IsPrintable ws
    → Selects n s id (print_query ws) o
    → Finds n s id ws o
finds n s id ws none v printable h = h
finds n s id ws (some spans) v printable h =
    let read = parse_query-print_query s ws printable in
    (
      selected n s (map (term_of s) ws) 0 spans,
      h
          ∙ ap (λ q. ok (json (record { indices = selected n s q.0 0 spans; dropped_terms = q.1 })))
              read,
      selected-Chosen n s v ws 0 spans,
    )

-- On a valid store that shows a view, `get_filter` for the hexadecimal form of an id of sixteen
-- bytes and for the text of a query, whose parts can be printed, answers 404 if the view has no such
-- trace. Otherwise nothing is dropped, and it answers with the indices, in order, of exactly the
-- spans that, as they were sent, meet all that the query asks: the service or status is the one
-- named, or not; the end is not before the start and the duration compares; the key is known to the
-- store and some value under it is equal to the text, or not, or in that order to its number, where
-- `!=` also takes a span without the key; the phrase occurs in the name or in some value's text.
pub get_filter-Finds :
    (n : Numbers) (s : Store) (m : View) (id : TraceId) (ws : List Wanted)
    → IsValid s
    → Shows s m
    → IsBytes 16 id.bytes
    → All IsPrintable ws
    → Finds n s id ws (Map.get m id)
get_filter-Finds n s m id ws v shows bytes printable =
    finds n s id ws (Map.get m id) v printable
      (get_filter-Selects n s m id (print_query ws) v shows bytes)
