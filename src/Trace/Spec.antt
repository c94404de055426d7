-- ===== src/Trace/Spec.antt =====
-- What a trace is for its readers: a sequence of spans, each with its own attributes and the id of
-- its parent. src/store/trace.rs stores it as columns, compressed rows and resolved indices.
use spanfall.Prelude.{
  ℕ, zero, suc, ◌+◌, ◌<◌, ◌^◌, ◌≡◌, Bool, false, not, Option, none, some, List, [], ◌∷◌, ◌++◌, map,
  if◌then◌else◌, length, is_some, ◌==◌,
}
use spanfall.Prelude.Map
use spanfall.Prelude.Map.{Map}
use spanfall.Prelude.Text.{Text}
use spanfall.Types.{SpanId, AttrValue, ℤ, span_id_eq}
use spanfall.Trace.{NewSpan, Trace}

-- `parent_span_id` is the parent of the span's first arrival.
pub record Row : Type 0 where
  pub span_id : SpanId
  pub parent_span_id : Option SpanId
  pub name : Text
  pub start_time_unix_nano : ℕ
  pub end_time_unix_nano : ℕ
  pub status_message : Text
  pub status_code : ℤ
  pub unknown_service : Bool
  pub service_name_id : Option ℕ
  pub attributes : List (ℕ × AttrValue)

abbrev pub overwritten : Row → NewSpan → Option ℕ → List (ℕ × AttrValue) → Row
overwritten r span service attrs = record r {
  name = span.name;
  start_time_unix_nano = span.start_time_unix_nano;
  end_time_unix_nano = span.end_time_unix_nano;
  status_message = span.status_message;
  status_code = span.status_code;
  unknown_service = span.unknown_service;
  service_name_id = service;
  attributes = attrs;
}

abbrev pub row_of : NewSpan → Option ℕ → List (ℕ × AttrValue) → Row
row_of span service attrs = record {
  span_id = span.span_id;
  parent_span_id = span.parent_span_id;
  name = span.name;
  start_time_unix_nano = span.start_time_unix_nano;
  end_time_unix_nano = span.end_time_unix_nano;
  status_message = span.status_message;
  status_code = span.status_code;
  unknown_service = span.unknown_service;
  service_name_id = service;
  attributes = attrs;
}

-- A span whose id is there replaces all but the id and the parent; any other goes to the end.
unfoldable pub upsert : List Row → NewSpan → Option ℕ → List (ℕ × AttrValue) → List Row
upsert [] span service attrs = row_of span service attrs ∷ []
upsert (r ∷ rows) span service attrs =
    if r.span_id == span.span_id
    then overwritten r span service attrs ∷ rows
    else r ∷ upsert rows span service attrs

unfoldable pub position : SpanId → List SpanId → Option ℕ
position s [] = none
position s (x ∷ xs) =
    if x == s then some zero else elim (position s xs) [ none ↦ none | some i ↦ some (suc i) ]

-- The index of a parent among all the spans of the trace, whenever it arrived.
abbrev pub parent_of : List SpanId → Option SpanId → Option ℕ
parent_of ids none = none
parent_of ids (some pid) = position pid ids

-- A span is an orphan while it names a parent that is not in the trace.
abbrev pub orphan_of : List SpanId → Option SpanId → Bool
orphan_of ids none = false
orphan_of ids (some pid) = not (is_some (position pid ids))

abbrev pub names_parent : SpanId → Option SpanId → Bool
names_parent s none = false
names_parent s (some pid) = pid == s

-- The indices, from `k` on, of the spans that name `s` as their parent.
unfoldable pub children_of : SpanId → ℕ → List (Option SpanId) → List ℕ
children_of s k [] = []
children_of s k (p ∷ ps) =
    let rest = children_of s (suc k) ps in if names_parent s p then k ∷ rest else rest

abbrev pub waiting_for : Map SpanId (List ℕ) → SpanId → List ℕ
waiting_for m s = elim (Map.get m s) [ none ↦ [] | some children ↦ children ]

-- The resolved links: every parent that is present is found, and a span waits exactly for a parent
-- that is absent.
pub record Links (t : Trace) (parents : List (Option SpanId)) : Type 0 where
  pub index : (s : SpanId) → Map.get t.span_index s ≡ position s t.span_ids
  pub parent : t.parent_idx ≡ map (parent_of t.span_ids) parents
  pub orphan : t.orphan ≡ map (orphan_of t.span_ids) parents
  pub pending :
      (s : SpanId)
      → waiting_for t.pending_children s
        ≡ (if is_some (position s t.span_ids) then [] else children_of s zero parents)
  pub as_many : length t.span_ids ≡ length parents

abbrev pub flatten : List (List (ℕ × AttrValue)) → List (ℕ × AttrValue)
flatten [] = []
flatten (r ∷ rs) = r ++ flatten rs

abbrev pub offsets_from : ℕ → List (List (ℕ × AttrValue)) → List ℕ
offsets_from k [] = k ∷ []
offsets_from k (r ∷ rs) = k ∷ offsets_from (k + length r) rs

abbrev pub key_of : ℕ × AttrValue → ℕ
key_of kv = kv.0

abbrev pub value_of : ℕ × AttrValue → AttrValue
value_of kv = kv.1

-- The compressed rows; fewer than 2^32 attributes, since an offset is a `u32`.
pub record Csr (t : Trace) (rows : List (List (ℕ × AttrValue))) : Type 0 where
  pub keys : t.attr_keys ≡ map key_of (flatten rows)
  pub values : t.attr_values ≡ map value_of (flatten rows)
  pub offsets : t.attr_offsets ≡ offsets_from zero rows
  pub small : length (flatten rows) < 2 ^ 32

-- The columns hold exactly these spans.
pub record Refines (t : Trace) (rows : List Row) : Type 0 where
  pub span_ids : t.span_ids ≡ map (λ r. r.span_id) rows
  pub names : t.names ≡ map (λ r. r.name) rows
  pub starts : t.start_time_unix_nano ≡ map (λ r. r.start_time_unix_nano) rows
  pub ends : t.end_time_unix_nano ≡ map (λ r. r.end_time_unix_nano) rows
  pub messages : t.status_message ≡ map (λ r. r.status_message) rows
  pub codes : t.status_code ≡ map (λ r. r.status_code) rows
  pub unknowns : t.unknown_service ≡ map (λ r. r.unknown_service) rows
  pub services : t.service_name_id ≡ map (λ r. r.service_name_id) rows
  pub links : Links t (map (λ r. r.parent_span_id) rows)
  pub csr : Csr t (map (λ r. r.attributes) rows)

-- How many attributes a trace holds.
abbrev pub attr_count : List Row → ℕ
attr_count rows = length (flatten (map (λ r. r.attributes) rows))
