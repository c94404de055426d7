-- ===== src/Api/Traces/Summaries.antt =====
-- What `list_traces` of src/api/traces.rs says of each trace.
mod Ordered
use spanfall.Prelude.{
  ℕ, suc, ◌≡◌, refl, ◌∙◌, Bool, true, false, ◌||◌, Option, none, some, List, [], ◌∷◌, ◌++◌,
  append_assoc, length, length-append, arith, All, ok, get_elem?, get_elem?_of_lt, list_beq,
  list_beq_iff, list_eq, ℕ_eq, Bool-cases, inl, inr,
}
use spanfall.Prelude.Map.{Map}
use spanfall.Prelude.MapLaws.{AllValues}
use spanfall.Prelude.Text.{Text}
use spanfall.Prelude.Strings.{text_lt}
use spanfall.Interner
use spanfall.Types.{TraceId, to_hex}
use spanfall.Trace.{Trace, span_count, duration_nanos}
use spanfall.Trace.Spec.{Row, Refines}
use spanfall.Trace.Readers.{Refines-Reads, span_count_lem}
use spanfall.Store.{Store, service_name}
use spanfall.Store.Sizes.{get_elem?-middle}
use spanfall.Store.Valid.{
  IsValid, IdWithin, RowWithin, Stored, key_count, service_count, row_service,
}
use spanfall.Api.Traces.{
  TraceSummary, set_insert, service_of_span, add_service, services_from, summary, summaries,
  list_traces,
}
pub use Ordered.{service_of_span_lem, Ascends, IsAscending, elem}
use Ordered.{set_insert-IsAscending, elem-set_insert}

-- The service names of some rows, one after the other.
abbrev pub names_of : Store → List Row → List Text
names_of s [] = []
names_of s (r ∷ rows) = elim (row_service s r.service_name_id) [
  | none ↦ names_of s rows
  | some x ↦ x ∷ names_of s rows
]

-- The names that a set holds after those of some rows.
record Gathers (s : Store) (rows : List Row) (before after : List Text) : Type 0 where
  ascending : IsAscending after
  members : (z : Text) → elem z after ≡ (elem z before || elem z (names_of s rows))

add_service-Gathers :
    (s : Store) (r : Row) (rows : List Row) (before after : List Text)
    → Gathers s rows (add_service (row_service s r.service_name_id) before) after
    → Gathers s (r ∷ rows) before after
add_service-Gathers s r rows before after g = record {
  ascending = g.ascending;
  members = λ z. g.members z ∙ one (row_service s r.service_name_id) z;
}
  where
    one :
        (o : Option Text) (z : Text)
        → (elem z (add_service o before) || elem z (names_of s rows)) ≡ (
            elem z before
            || elem z (elim o [ none ↦ names_of s rows | some x ↦ x ∷ names_of s rows ]))
    one none z = refl
    one (some x) z = rw (elem-set_insert z x before) (swap (list_beq x z) (elem z before))
      where
        swap :
            (a b : Bool)
            → ((a || b) || elem z (names_of s rows)) ≡ (b || (a || elem z (names_of s rows)))
        swap true true = refl
        swap true false = refl
        swap false b = refl

add_service-IsAscending :
    (o : Option Text) (xs : List Text) → IsAscending xs → IsAscending (add_service o xs)
add_service-IsAscending none xs a = a
add_service-IsAscending (some x) xs a = set_insert-IsAscending x xs a

services_from-Gathers :
    (s : Store) (t : Trace) (before after : List Row) (k : ℕ) (services : List Text)
    → Refines t (before ++ after)
    → All (RowWithin (key_count s) (service_count s)) after
    → length before ≡ k
    → IsAscending services
    → (services' : List Text) × (services_from s t k (length after) services ≡ ok services')
      × Gathers s after services services'
unfolding services_from
services_from-Gathers s t before [] k services ref within l a =
    (services, refl, record { ascending = a; members = λ z. or_false (elem z services) })
  where
    or_false : (b : Bool) → b ≡ (b || false)
    or_false true = refl
    or_false false = refl
services_from-Gathers s t before (r ∷ after) k services ref within l a =
    let here : get_elem? (before ++ r ∷ after) k ≡ some r =
      rw (← l) (get_elem?-middle before r after) in
    let reads = Refines-Reads t (before ++ r ∷ after) k r ref here in
    let shift : (before ++ r ∷ []) ++ after ≡ before ++ r ∷ after =
      append_assoc before (r ∷ []) after in
    let next = add_service (row_service s r.service_name_id) services in
    let (services', ret, g) =
      services_from-Gathers s t (before ++ r ∷ []) after (suc k) next (rw shift ref) within.1
        (omega (arith, length-append before (r ∷ [])))
        (add_service-IsAscending (row_service s r.service_name_id) services a) in
    (
      services',
      rw (reads.service, service_of_span_lem s r.service_name_id within.0.service) ret,
      add_service-Gathers s r after services services' g,
    )

-- What a summary says of a trace.
pub record Summarises (s : Store) (id : TraceId) (t : Trace) (x : TraceSummary) : Type 0 where
  pub rows : List Row
  pub stored : Refines t rows
  pub trace_id : x.trace_id ≡ to_hex id
  pub span_count : x.span_count ≡ length rows
  pub duration : x.duration_nanos ≡ duration_nanos t
  pub ascending : IsAscending x.services
  pub services : (z : Text) → elem z x.services ≡ elem z (names_of s rows)

summary-Summarises :
    (s : Store) (id : TraceId) (t : Trace)
    → Stored (key_count s) (service_count s) t
    → (x : TraceSummary) × (summary s id t ≡ ok x) × Summarises s id t x
unfolding summary
summary-Summarises s id t (rows, ref, within) =
    let (services, ret, g) = services_from-Gathers s t [] rows 0 [] ref within refl tt in
    (
      record {
        trace_id = to_hex id;
        span_count = span_count t;
        duration_nanos = duration_nanos t;
        services = services;
      },
      rw (span_count_lem t rows ref, ret) refl,
      record {
        rows = rows;
        stored = ref;
        trace_id = refl;
        span_count = span_count_lem t rows ref;
        duration = refl;
        ascending = g.ascending;
        services = g.members;
      },
    )

-- One summary for each trace, in order.
abbrev pub Lists : Store → Map TraceId Trace → List TraceSummary → Type 0
Lists s [] [] = Unit
Lists s [] (x ∷ xs) = ⊥
Lists s ((id, t) ∷ m) [] = ⊥
Lists s ((id, t) ∷ m) (x ∷ xs) = Summarises s id t x × Lists s m xs

summaries-Lists :
    (s : Store) (m : Map TraceId Trace)
    → AllValues (Stored (key_count s) (service_count s)) m
    → (xs : List TraceSummary) × (summaries s m ≡ ok xs) × Lists s m xs
unfolding summaries
summaries-Lists s [] a = ([], refl, tt)
summaries-Lists s ((id, t) ∷ m) a =
    let (x, ret, is) = summary-Summarises s id t a.0 in
    let (xs, rets, are) = summaries-Lists s m a.1 in (x ∷ xs, rw (ret, rets), (is, are))

-- On a valid store `list_traces` does not panic. It answers with one summary for each trace, in the
-- order of the map: the trace's id in hexadecimal, the number of its rows, its duration, and the
-- names of the services of its rows, each once and in ascending order.
pub list_traces-Lists :
    (s : Store)
    → IsValid s
    → (xs : List TraceSummary) × (list_traces s ≡ ok xs) × Lists s s.traces xs
unfolding list_traces
list_traces-Lists s v = summaries-Lists s s.traces v.traces
