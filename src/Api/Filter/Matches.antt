-- ===== src/Api/Filter/Matches.antt =====
-- src/api/filter.rs: `get_filter`, and which spans it answers with.
pub mod Rows
pub mod Values
pub mod Shown
pub mod Meaning
pub mod Decided
pub mod Wants
pub mod Found
use spanfall.Prelude.{
  ℕ, zero, suc, ◌+◌, Bool, true, false, Option, none, some, List, [], ◌∷◌, if◌then◌else◌, Exec, ok,
  ◌>>=◌,
}
use spanfall.Prelude.Text.{Text}
use spanfall.Types.{from_hex}
use spanfall.Trace.{Trace, span_count}
use spanfall.Store.{Store, trace}
use spanfall.Api.{Answer, bad_request, not_found, json}
use spanfall.Api.Filter.{Term, Numbers, matches}
use spanfall.Api.Filter.Query.{parse_query}

pub record FilterResponse : Type 0 where
  pub indices : List ℕ
  pub dropped_terms : List Text

-- `terms.iter().all(..)`.
unfoldable pub all_match : Numbers → List Term → Trace → Store → ℕ → Exec Bool
all_match n [] t store idx = ok true
all_match n (term ∷ terms) t store idx = do
  b ← matches n term t store idx
  let rest = all_match n terms t store idx in if b then rest else ok false

-- `(idx..span_count).filter(..)`, with `count` indices left.
unfoldable pub filter_from : Numbers → List Term → Trace → Store → ℕ → ℕ → Exec (List ℕ)
filter_from n terms t store idx zero = ok []
filter_from n terms t store idx (suc count) = do
  b ← all_match n terms t store idx
  rest ← filter_from n terms t store (suc idx) count
  ok (if b then idx ∷ rest else rest)

-- From a trace that was found.
unfoldable pub filter_trace : Numbers → Store → Trace → Text → Exec FilterResponse
filter_trace n store t query =
    let (terms, dropped) = parse_query query store in
    do
      indices ← filter_from n terms t store 0 (span_count t)
      ok (record { indices = indices; dropped_terms = dropped })

-- `get_filter`, on the parameter `q` with its default.
unfoldable pub get_filter : Numbers → Store → Text → Text → Exec (Answer FilterResponse)
get_filter n store id query = elim (from_hex id) [
  | none ↦ ok bad_request
  | some trace_id ↦ elim (trace store trace_id) [
    | none ↦ ok not_found
    | some t ↦ do r ← filter_trace n store t query; ok (json r)
  ]
]
