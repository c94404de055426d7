-- ===== src/Tests/Queries.antt =====
-- A printed query, and a store with nothing in it.
use spanfall.Prelude.{◌≡◌, refl, List, [], ◌∷◌, ◌++◌, map, All, arith}
use spanfall.Prelude.Text.{text}
use spanfall.Prelude.Strings.{is_ascii_alphabetic, is_ascii_alphanumeric}
use spanfall.Api.Filter.{eq, ne, gt, gte}
use spanfall.Api.Filter.Query.{is_key_start, is_key_char, parse_query}
use spanfall.Api.Filter.Query.Durations.{milliseconds}
use spanfall.Api.Filter.Query.Wanted.{
  Wanted, by_service, by_status, by_duration, by_attr, phrase, print_query, term_of, IsPrintable,
}
use spanfall.Api.Filter.Query.RoundTrip.{parse_query-print_query}
use spanfall.Api.Filter.Query.Unclosed.{unclosed, dropped_text, parse_query-unclosed}
use spanfall.Tests.Data.{store0}

abbrev wanted : List Wanted
wanted =
    by_service ne (text "cart \"two\"")
    ∷ by_status eq 2
    ∷ by_duration gte 250 milliseconds
    ∷ by_attr (text "k.v") gt (text "\\x")
    ∷ phrase (text "db query")
    ∷ []

wanted-IsPrintable : All IsPrintable wanted
unfolding is_key_start is_key_char is_ascii_alphanumeric is_ascii_alphabetic
wanted-IsPrintable = (
  (refl, omega arith),
  (
    (refl, omega arith),
    (
      omega arith,
      (
        ((refl, (refl, (refl, (refl, tt)))), refl, omega arith, omega arith),
        ((refl, omega arith), tt),
      ),
    ),
  ),
)

parse_query-print_query_example :
    parse_query (print_query wanted) store0 ≡ (map (term_of store0) wanted, [])
parse_query-print_query_example = parse_query-print_query store0 wanted wanted-IsPrintable

parse_query-unclosed_example :
    parse_query (print_query wanted ++ b' ' ∷ unclosed (text "a \"b")) store0
    ≡ (map (term_of store0) wanted, dropped_text (text "a \"b"))
parse_query-unclosed_example = parse_query-unclosed store0 wanted (text "a \"b") wanted-IsPrintable
