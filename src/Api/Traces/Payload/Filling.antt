-- ===== src/Api/Traces/Payload/Filling.antt =====
-- The columns that `get_trace` of src/api/traces.rs fills, against the rows they stand for.
use spanfall.Prelude.{
  ℕ, ◌*◌, ◌≤◌, ◌≡◌, refl, sym, ap₂, ◌∙◌, Option, none, some, List, [], ◌∷◌, ◌++◌, map, map-append,
  length, get_elem?, Option-cases, inl, inr, arith, list_eq, ℕ_eq,
}
use spanfall.Prelude.Text.{Text}
use spanfall.Types.{SpanId, trace_id_eq}
use spanfall.Interner.Bounds.{IsValid as Interner_IsValid}
use spanfall.Trace.Spec.{Row, parent_of, orphan_of}
use spanfall.Store.{Store}
use spanfall.Store.Valid.{row_service}
use spanfall.Api.Traces.Table.{as_interner, resolve_service}
use spanfall.Api.Traces.{Columns}

-- The columns after the rows `rows`, in a trace with the ids `ids`.
pub record Holds (s : Store) (ids : List SpanId) (c : Columns) (rows : List Row) : Type 0 where
  pub table : Interner_IsValid (as_interner c.table)
  pub small : length c.table.strings ≤ 3 * length rows
  pub names : map (get_elem? c.table.strings) c.name_idx ≡ map (λ r. some r.name) rows
  pub messages :
      map (get_elem? c.table.strings) c.status_message_idx ≡ map (λ r. some r.status_message) rows
  pub services :
      map (resolve_service c.table.strings) c.service_idx
      ≡ map (λ r. some (row_service s r.service_name_id)) rows
  pub parents : c.parent_idx ≡ map (λ r. parent_of ids r.parent_span_id) rows
  pub orphans : c.orphan ≡ map (λ r. orphan_of ids r.parent_span_id) rows
  pub starts : c.start_time_unix_nano ≡ map (λ r. r.start_time_unix_nano) rows
  pub ends : c.end_time_unix_nano ≡ map (λ r. r.end_time_unix_nano) rows
  pub codes : c.status_code ≡ map (λ r. r.status_code) rows
  pub unknowns : c.unknown_service ≡ map (λ r. r.unknown_service) rows

pub snoc {ℓ} :
    {A : Type ℓ} (f : Row → A) (column : List A) (rows : List Row) (a : A) (r : Row)
    → column ≡ map f rows
    → a ≡ f r
    → column ++ a ∷ [] ≡ map f (rows ++ r ∷ [])
snoc f column rows a r h e = ap₂ (λ xs x. xs ++ x ∷ []) h e ∙ sym (map-append f rows (r ∷ []))

module _ {ℓ} {A : Type ℓ} {B : Type 0} (resolve resolve' : A → Option B) where
  -- A column that resolves keeps doing so in a table that keeps its entries.
  keep_column :
      (f : Row → B) (rows : List Row) (column : List A)
      → ((a : A) (u : B) → resolve a ≡ some u → resolve' a ≡ some u)
      → map resolve column ≡ map (λ r. some (f r)) rows
      → map resolve' column ≡ map (λ r. some (f r)) rows
  keep_column f [] [] keeps h = refl
  keep_column f [] (a ∷ column) keeps h = absurd (ground arith)
  keep_column f (r ∷ rows) [] keeps h = absurd (ground arith)
  keep_column f (r ∷ rows) (a ∷ column) keeps h =
      let here : resolve a ≡ some (f r) = cc in
      let there : map resolve column ≡ map (λ r. some (f r)) rows = cc in
      ap₂ (λ x xs. x ∷ xs) (keeps a (f r) here) (keep_column f rows column keeps there)

  -- A column of resolved indices with one more.
  pub push_column :
      (f : Row → B) (rows : List Row) (column : List A) (a : A) (r : Row)
      → ((a : A) (u : B) → resolve a ≡ some u → resolve' a ≡ some u)
      → map resolve column ≡ map (λ r. some (f r)) rows
      → resolve' a ≡ some (f r)
      → map resolve' (column ++ a ∷ []) ≡ map (λ r. some (f r)) (rows ++ r ∷ [])
  push_column f rows column a r keeps h e =
      map-append resolve' column (a ∷ [])
      ∙ ap₂ (λ xs x. xs ++ x ∷ []) (keep_column f rows column keeps h) e
      ∙ sym (map-append (λ r. some (f r)) rows (r ∷ []))

pub resolve_service-keeps :
    (xs ys : List Text)
    → ((i : ℕ) (u : Text) → get_elem? xs i ≡ some u → get_elem? ys i ≡ some u)
    → (o : Option ℕ) (u : Option Text) → resolve_service xs o ≡ some u
    → resolve_service ys o ≡ some u
resolve_service-keeps xs ys keeps none u h = h
resolve_service-keeps xs ys keeps (some id) u h = elim (Option-cases (get_elem? xs id)) [
  | inl e ↦ absurd (
      let bad : ◌≡◌ {A = Option (Option Text)} none (some u) = rw (e, resolve_service) at h in
      ground arith)
  | inr (v, e) ↦ rw (keeps id v e, resolve_service) (rw (e, resolve_service) at h)
]
