-- ===== src/Api/Attributes.antt =====
-- src/api/attributes.rs: the attributes of one span.
pub mod Entries
pub mod Shown
use spanfall.Prelude.{ℕ, Option, none, some, List, [], ◌∷◌, leb, if◌then◌else◌, Exec, ok, ◌>>=◌}
use spanfall.Prelude.Text.{Text}
use spanfall.Types.{AttrValue, from_hex}
use spanfall.Trace.{Trace, span_count, attributes, attribute_keys}
use spanfall.Store.{Store, trace, attribute_key}
use spanfall.Api.{Answer, bad_request, not_found, json}

pub record AttributeEntry : Type 0 where
  pub key : Text
  pub value : AttrValue

-- `zip` and `map` over the two columns.
unfoldable pub entries : Store → List ℕ → List AttrValue → Exec (List AttributeEntry)
entries store [] values = ok []
entries store (key_id ∷ keys) [] = ok []
entries store (key_id ∷ keys) (value ∷ values) = do
  key ← attribute_key store key_id
  rest ← entries store keys values
  ok (record { key = key; value = value } ∷ rest)

-- From a trace that was found.
unfoldable pub span_entries : Store → Trace → ℕ → Exec (Answer (List AttributeEntry))
span_entries store t idx =
    let found = (do
      keys ← attribute_keys t idx
      values ← attributes t idx
      es ← entries store keys values
      ok (json es)) in
    if leb (span_count t) idx then ok not_found else found

unfoldable pub get_attributes : Store → Text → ℕ → Exec (Answer (List AttributeEntry))
get_attributes store id idx = elim (from_hex id) [
  | none ↦ ok bad_request
  | some trace_id ↦ elim (trace store trace_id) [
    | none ↦ ok not_found
    | some t ↦ span_entries store t idx
  ]
]
