-- ===== src/Tests/Pages.antt =====
-- What the API serves of a store that shows one span, at concrete inputs.
use spanfall.Prelude.{List, All, some, length, ◌≡◌, refl, ap, [], ◌∷◌, arith}
use spanfall.Prelude.Map
use spanfall.Prelude.Text.{text}
use spanfall.Types.{trace_id_eq}
use spanfall.Interner
use spanfall.Store.{trace, new as new_store}
use spanfall.Store.Valid.{store_new-IsValid}
use spanfall.Store.View.{Spare, absorb, absorb_span, spans_of}
use spanfall.Store.View.Batches.{Shown, insert_span-Shown}
use spanfall.Api.Traces.Shown.{Served, get_trace-Served}
use spanfall.Prelude.Strings.{is_ascii_alphabetic, is_ascii_alphanumeric}
use spanfall.Api.Filter.{eq, ne, lte}
use spanfall.Api.Filter.Query.{is_key_start, is_key_char}
use spanfall.Api.Filter.Query.Durations.{nanoseconds}
use spanfall.Api.Filter.Query.Wanted.{
  Wanted, by_service, by_status, by_duration, by_attr, phrase, IsPrintable,
}
use spanfall.Api.Filter.Matches.Found.{Finds, get_filter-Finds}
use spanfall.Api.Attributes.Shown.{AnswersSpan, span_at, get_attributes-AnswersSpan}
use spanfall.Tests.Data.{id1, child, store0, store0-Room}
use spanfall.Tests.Readers.{no_numbers}

-- A store that shows one span.
child_Spare : Spare store0 2 1
unfolding new_store Interner.new
child_Spare = record { keys = omega arith; services = omega arith }

abbrev shown1 : Shown store0 id1 child 5 8 0 0 []
unfolding new_store trace
shown1 =
    insert_span-Shown store0 id1 child 5 8 0 0 [] (store_new-IsValid 200) store0-Room child_Spare
      (λ id. refl)

view1 : Map.get (absorb_span [] id1 child) id1 ≡ some (child ∷ [])
unfolding absorb_span absorb Map.insert
view1 = refl

get_trace-Served_example : Served shown1.store id1 (Map.get (absorb_span [] id1 child) id1)
get_trace-Served_example =
    get_trace-Served shown1.store (absorb_span [] id1 child) id1 shown1.shows (refl, omega arith)
      (omega (arith, ap (λ o. length (spans_of o)) view1))

-- One span meets all of these parts.
abbrev asked : List Wanted
asked =
    by_service eq (text "cart")
    ∷ by_status ne 2
    ∷ by_duration lte 20 nanoseconds
    ∷ by_attr (text "http.method") ne (text "POST")
    ∷ phrase (text "GET")
    ∷ []

asked-IsPrintable : All IsPrintable asked
unfolding is_key_start is_key_char is_ascii_alphanumeric is_ascii_alphabetic
asked-IsPrintable = (
  (refl, omega arith),
  (
    (refl, omega arith),
    (
      omega arith,
      (
        (
          (
            refl,
            (
              refl,
              (refl, (refl, (refl, (refl, (refl, (refl, (refl, (refl, (refl, (refl, tt)))))))))),
            ),
          ),
          refl,
          tt,
          omega arith,
        ),
        ((refl, omega arith), tt),
      ),
    ),
  ),
)

get_filter-Finds_example :
    Finds no_numbers shown1.store id1 asked (Map.get (absorb_span [] id1 child) id1)
get_filter-Finds_example =
    get_filter-Finds no_numbers shown1.store (absorb_span [] id1 child) id1 asked
      shown1.appended.valid shown1.shows (refl, omega arith) asked-IsPrintable

get_attributes-AnswersSpan_example :
    AnswersSpan shown1.store id1 0 (span_at (Map.get (absorb_span [] id1 child) id1) 0)
get_attributes-AnswersSpan_example =
    get_attributes-AnswersSpan shown1.store (absorb_span [] id1 child) id1 0 shown1.shows
      (refl, omega arith)
