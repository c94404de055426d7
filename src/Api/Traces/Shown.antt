-- ===== src/Api/Traces/Shown.antt =====
-- What `get_trace` of src/api/traces.rs answers for a trace whose spans the store shows.
use spanfall.Prelude.{
  ℕ, ◌*◌, ◌^◌, ◌≤◌, ◌≡◌, refl, sym, ap, ap₂, ◌∙◌, subst, Option, none, some, List, [], ◌∷◌, map,
  length, get_elem?, ok, suc,
}
use spanfall.Prelude.Map
use spanfall.Prelude.Text.{Text}
use spanfall.Types.{TraceId, IsBytes, to_hex, trace_id_eq}
use spanfall.Types.Hex.{from_hex-to_hex}
use spanfall.Trace.{NewSpan}
use spanfall.Trace.Spec.{Row, parent_of, orphan_of}
use spanfall.Trace.Upsert.{ids_of}
use spanfall.Store.{Store}
use spanfall.Store.View.{View, spans_of, RowShows, AllShow, ShowsAt, Shows}
use spanfall.Api.{not_found, json}
use spanfall.Api.Traces.{TracePayload, Columns, get_trace}
use spanfall.Api.Traces.Table.{resolve_service}
use spanfall.Api.Traces.Payload.{Holds, get_trace-Holds}

-- The payload gives those spans, in order, its indices read in its table of strings; parents and
-- orphans are as the ids of the spans determine them.
pub record Gives (spans : List NewSpan) (p : TracePayload) : Type 0 where
  pub names : map (get_elem? p.string_table) p.columns.name_idx ≡ map (λ x. some x.name) spans
  pub messages :
      map (get_elem? p.string_table) p.columns.status_message_idx
      ≡ map (λ x. some x.status_message) spans
  pub services :
      map (resolve_service p.string_table) p.columns.service_idx
      ≡ map (λ x. some x.service_name) spans
  pub parents :
      p.columns.parent_idx
      ≡ map (λ x. parent_of (map (λ y. y.span_id) spans) x.parent_span_id) spans
  pub orphans :
      p.columns.orphan ≡ map (λ x. orphan_of (map (λ y. y.span_id) spans) x.parent_span_id) spans
  pub starts : p.columns.start_time_unix_nano ≡ map (λ x. x.start_time_unix_nano) spans
  pub ends : p.columns.end_time_unix_nano ≡ map (λ x. x.end_time_unix_nano) spans
  pub codes : p.columns.status_code ≡ map (λ x. x.status_code) spans
  pub unknowns : p.columns.unknown_service ≡ map (λ x. x.unknown_service) spans

-- A column over the rows is one over the spans that they show.
map-shown {ℓ} :
    {A : Type ℓ} (s : Store) (f : Row → A) (g : NewSpan → A) (rows : List Row)
    (spans : List NewSpan)
    → AllShow s rows spans
    → ((r : Row) (x : NewSpan) → RowShows s r x → f r ≡ g x)
    → map f rows ≡ map g spans
map-shown s f g [] [] all h = refl
map-shown s f g [] (x ∷ spans) all h = absurd all
map-shown s f g (r ∷ rows) [] all h = absurd all
map-shown s f g (r ∷ rows) (x ∷ spans) all h =
    ap₂ (λ y ys. y ∷ ys) (h r x all.0) (map-shown s f g rows spans all.1 h)

pub length-shown :
    (s : Store) (rows : List Row) (spans : List NewSpan)
    → AllShow s rows spans
    → length rows ≡ length spans
length-shown s [] [] all = refl
length-shown s [] (x ∷ spans) all = absurd all
length-shown s (r ∷ rows) [] all = absurd all
length-shown s (r ∷ rows) (x ∷ spans) all = ap suc (length-shown s rows spans all.1)

module _ (s : Store) (rows : List Row) (spans : List NewSpan) (all : AllShow s rows spans)
    (c : Columns) (h : Holds s (ids_of rows) c rows) where
  ids_shown : ids_of rows ≡ map (λ y. y.span_id) spans
  ids_shown = map-shown s (λ r. r.span_id) (λ y. y.span_id) rows spans all (λ r x e. e.span_id)

  Holds-Gives :
      (trace_id : Text) (generation : ℕ)
      → Gives spans (record {
        trace_id = trace_id;
        generation = generation;
        string_table = c.table.strings;
        columns = c;
      })
  Holds-Gives trace_id generation = record {
    names = h.names ∙ map-shown s _ _ rows spans all (λ r x e. ap some e.name);
    messages = h.messages ∙ map-shown s _ _ rows spans all (λ r x e. ap some e.message);
    services = h.services ∙ map-shown s _ _ rows spans all (λ r x e. ap some e.service);
    parents =
        h.parents ∙ map-shown s _ _ rows spans all (λ r x e. ap₂ parent_of ids_shown e.parent);
    orphans =
        h.orphans ∙ map-shown s _ _ rows spans all (λ r x e. ap₂ orphan_of ids_shown e.parent);
    starts = h.starts ∙ map-shown s _ _ rows spans all (λ r x e. e.start);
    ends = h.ends ∙ map-shown s _ _ rows spans all (λ r x e. e.end);
    codes = h.codes ∙ map-shown s _ _ rows spans all (λ r x e. e.code);
    unknowns = h.unknowns ∙ map-shown s _ _ rows spans all (λ r x e. e.unknown);
  }

-- What the API answers for a trace that a view has, or has not.
abbrev pub Served : Store → TraceId → Option (List NewSpan) → Type 0
Served s id none = get_trace s (to_hex id) ≡ ok not_found
Served s id (some spans) =
    (p : TracePayload) × (get_trace s (to_hex id) ≡ ok (json p)) × Gives spans p

served :
    (s : Store) (id : TraceId) (o : Option (List NewSpan))
    → IsBytes 16 id.bytes
    → 3 * length (spans_of o) ≤ 2 ^ 32
    → ShowsAt s id o
    → Served s id o
unfolding get_trace
served s id none bytes room gone = rw (from_hex-to_hex id bytes, get_trace, gone) refl
served s id (some spans) bytes room (t, here, (rows, ref, within, all)) =
    let few : 3 * length rows ≤ 2 ^ 32 =
      subst (λ n. 3 * n ≤ 2 ^ 32) (sym (length-shown s rows spans all)) room in
    let (c, ret, h) =
      get_trace-Holds s (to_hex id) id t rows (from_hex-to_hex id bytes) here ref within few in
    (_, ret, Holds-Gives s rows spans all c h (to_hex t.trace_id) t.generation)

-- On a store that shows a view, `get_trace` for the hexadecimal form of an id of sixteen bytes
-- answers 404 if the view has no such trace, and otherwise, if three times the number of its spans
-- is at most 2^32, a payload that gives exactly the spans that were sent, in order: names, messages
-- and services through the table of strings, and parents and orphans by the ids of the spans.
pub get_trace-Served :
    (s : Store) (m : View) (id : TraceId)
    → Shows s m
    → IsBytes 16 id.bytes
    → 3 * length (spans_of (Map.get m id)) ≤ 2 ^ 32
    → Served s id (Map.get m id)
get_trace-Served s m id shows bytes room = served s id (Map.get m id) bytes room (shows id)
