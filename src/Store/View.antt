-- ===== src/Store/View.antt =====
-- What the store of src/store/mod.rs is for its readers: for each trace the spans that were sent,
-- under their own strings. The tables of strings, the columns and the generations are not seen.
pub mod Growth
pub mod Insertion
pub mod Batches
pub mod Whole
pub mod Order
pub mod Permuted
use spanfall.Prelude.{
  ℕ, ◌+◌, ◌≤◌, ◌≡◌, Option, none, some, List, [], ◌∷◌, if◌then◌else◌, ◌==◌, get_elem?, All,
}
use spanfall.Prelude.Map
use spanfall.Prelude.Map.{Map}
use spanfall.Prelude.Text.{Text}
use spanfall.Types.{TraceId, trace_id_eq, span_id_eq}
use spanfall.Trace.{Trace, NewSpan}
use spanfall.Trace.Spec.{Row, Refines}
use spanfall.Trace.Attrs.{resolved, all_kept}
use spanfall.Store.{Store, trace}
use spanfall.Store.Valid.{RowWithin, key_count, service_count, row_service}

-- A span that was sent before keeps its place and its first parent.
unfoldable pub absorb : List NewSpan → NewSpan → List NewSpan
absorb [] span = span ∷ []
absorb (x ∷ xs) span =
    if x.span_id == span.span_id
    then record span { parent_span_id = x.parent_span_id } ∷ xs
    else x ∷ absorb xs span

-- The spans of each trace.
abbrev pub View : Type 0
View = Map TraceId (List NewSpan)

abbrev pub spans_of : Option (List NewSpan) → List NewSpan
spans_of none = []
spans_of (some xs) = xs

unfoldable pub absorb_span : View → TraceId → NewSpan → View
absorb_span m id span = Map.insert m id (absorb (spans_of (Map.get m id)) span)

unfoldable pub absorb_spans : View → List (TraceId × NewSpan) → View
absorb_spans m [] = m
absorb_spans m ((id, span) ∷ spans) = absorb_spans (absorb_span m id span) spans

-- A row is a span, its ids read through the store's tables.
pub record RowShows (s : Store) (r : Row) (span : NewSpan) : Type 0 where
  pub span_id : r.span_id ≡ span.span_id
  pub parent : r.parent_span_id ≡ span.parent_span_id
  pub name : r.name ≡ span.name
  pub start : r.start_time_unix_nano ≡ span.start_time_unix_nano
  pub end : r.end_time_unix_nano ≡ span.end_time_unix_nano
  pub message : r.status_message ≡ span.status_message
  pub code : r.status_code ≡ span.status_code
  pub unknown : r.unknown_service ≡ span.unknown_service
  pub service : row_service s r.service_name_id ≡ span.service_name
  pub attributes : resolved s.key_interner r.attributes ≡ all_kept span.attributes

abbrev pub AllShow : Store → List Row → List NewSpan → Type 0
AllShow s [] [] = Unit
AllShow s [] (x ∷ xs) = ⊥
AllShow s (r ∷ rows) [] = ⊥
AllShow s (r ∷ rows) (x ∷ xs) = RowShows s r x × AllShow s rows xs

-- The columns of a trace are those spans, in order.
abbrev pub TraceShows : Store → Trace → List NewSpan → Type 0
TraceShows s t spans =
    (rows : List Row) × Refines t rows
    × All (RowWithin (key_count s) (service_count s)) rows
    × AllShow s rows spans

-- A trace is in the store exactly if it is in the view, and holds those spans.
abbrev pub ShowsAt : Store → TraceId → Option (List NewSpan) → Type 0
ShowsAt s id none = trace s id ≡ none
ShowsAt s id (some spans) = (t : Trace) × (trace s id ≡ some t) × TraceShows s t spans

abbrev pub Shows : Store → View → Type 0
Shows s m = (id : TraceId) → ShowsAt s id (Map.get m id)

-- Room for the strings of some spans in the tables, so that none is refused.
pub record Spare (s : Store) (k n : ℕ) : Type 0 where
  pub keys : key_count s + k ≤ s.key_interner.cap
  pub services : service_count s + n ≤ s.service_interner.cap
