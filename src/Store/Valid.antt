-- ===== src/Store/Valid.antt =====
-- Well-formed stores of src/store/mod.rs.
use spanfall.Prelude.{
  ℕ, ◌+◌, ◌≤◌, ◌<◌, ◌^◌, ◌≡◌, refl, true, Option, none, some, List, [], ◌∷◌, map, length, arith,
  All, Bool-cases, inl, inr, ◌==◌, is_some, get_elem?, length-append,
}
use spanfall.Prelude.Map
use spanfall.Prelude.Map.{Map}
use spanfall.Prelude.MapLaws.{AllValues, Distinct}
use spanfall.Types.{TraceId, AttrValue, trace_id_eq, span_id_eq}
use spanfall.Interner.Bounds.{new-IsValid, IsValid as Interner_IsValid}
use spanfall.Trace.{Trace, NewSpan}
use spanfall.Trace.Spec.{Row, upsert, Refines, attr_count, flatten}
use spanfall.Trace.Attrs.{All-mono}
use spanfall.Store.{Store, new}

abbrev pub IdWithin : ℕ → Option ℕ → Type 0
IdWithin n none = Unit
IdWithin n (some id) = id < n

-- The ids that a row holds are below the sizes of the two tables.
pub record RowWithin (keys services : ℕ) (r : Row) : Type 0 where
  pub service : IdWithin services r.service_name_id
  pub attributes : All (λ kv. kv.0 < keys) r.attributes

-- The columns of the trace hold some rows, whose ids resolve.
abbrev pub Stored : ℕ → ℕ → Trace → Type 0
Stored keys services t = (rows : List Row) × Refines t rows × All (RowWithin keys services) rows

abbrev pub key_count : Store → ℕ
key_count s = length s.key_interner.values

abbrev pub service_count : Store → ℕ
service_count s = length s.service_interner.values

-- The name of a row's service.
abbrev pub row_service : Store → Option ℕ → Option (List ℕ)
row_service s none = none
row_service s (some id) = get_elem? s.service_interner.values id

pub record IsValid (s : Store) : Type 0 where
  pub traces : AllValues (Stored (key_count s) (service_count s)) s.traces
  pub distinct : Distinct s.traces
  pub keys : Interner_IsValid s.key_interner
  pub services : Interner_IsValid s.service_interner
  pub apart :
      (id : TraceId)
      → is_some (Map.get s.evicted_generations id) ≡ true
      → Map.get s.traces id ≡ none

-- `n` more attributes keep every trace below 2^32 of them, the range of an offset.
abbrev pub Room : ℕ → Store → Type 0
Room n s = (n < 2 ^ 32) × AllValues (λ t. length t.attr_keys + n < 2 ^ 32) s.traces

-- A new store is valid.
pub store_new-IsValid : (max_memory_bytes : ℕ) → IsValid (new max_memory_bytes)
unfolding new
store_new-IsValid max_memory_bytes = record {
  traces = tt;
  distinct = tt;
  keys = new-IsValid 100000 (omega arith);
  services = new-IsValid 100000 (omega arith);
  apart = λ id h. refl;
}

IdWithin-mono : (n m : ℕ) (o : Option ℕ) → n ≤ m → IdWithin n o → IdWithin m o
IdWithin-mono n m none h w = tt
IdWithin-mono n m (some id) h w = omega arith

pub RowWithin-mono :
    (k k' n n' : ℕ) → k ≤ k' → n ≤ n' → (r : Row) → RowWithin k n r → RowWithin k' n' r
RowWithin-mono k k' n n' hk hn r w = record {
  service = IdWithin-mono n n' r.service_name_id hn w.service;
  attributes = All-mono r.attributes (λ kv h. lift kv.0 h) w.attributes;
}
  where
    lift : (id : ℕ) → id < k → id < k'
    lift id h = omega arith

pub Stored-mono :
    (k k' n n' : ℕ) (m : Map TraceId Trace)
    → k ≤ k'
    → n ≤ n'
    → AllValues (Stored k n) m
    → AllValues (Stored k' n') m
Stored-mono k k' n n' [] hk hn a = tt
Stored-mono k k' n n' ((id, t) ∷ m) hk hn a =
    let (rows, ref, within) = a.0 in
    (
      (rows, ref, All-mono rows (RowWithin-mono k k' n n' hk hn) within),
      Stored-mono k k' n n' m hk hn a.1,
    )

pub upsert-RowWithin :
    (k n : ℕ) (rows : List Row) (span : NewSpan) (service : Option ℕ) (attrs : List (ℕ × AttrValue))
    → All (RowWithin k n) rows
    → IdWithin n service
    → All (λ kv. kv.0 < k) attrs
    → All (RowWithin k n) (upsert rows span service attrs)
unfolding upsert
upsert-RowWithin k n [] span service attrs h s a = (record { service = s; attributes = a }, tt)
upsert-RowWithin k n (r ∷ rows) span service attrs h s a =
    elim (Bool-cases (r.span_id == span.span_id)) [
      | inl eq ↦ rw eq (record { service = s; attributes = a }, h.1)
      | inr ne ↦ rw ne (h.0, upsert-RowWithin k n rows span service attrs h.1 s a)
    ]

-- An upsert adds at most the attributes of the span.
pub attr_count-upsert :
    (rows : List Row) (span : NewSpan) (service : Option ℕ) (attrs : List (ℕ × AttrValue))
    → attr_count (upsert rows span service attrs) ≤ attr_count rows + length attrs
unfolding upsert
attr_count-upsert [] span service attrs = omega (arith, length-append attrs [])
attr_count-upsert (r ∷ rows) span service attrs = elim (Bool-cases (r.span_id == span.span_id)) [
  | inl eq ↦ rw eq (
      omega (
        arith,
        length-append attrs (flatten (map (λ r. r.attributes) rows)),
        length-append r.attributes (flatten (map (λ r. r.attributes) rows)),
      ))
  | inr ne ↦ rw ne (
      omega (
        arith,
        length-append r.attributes (flatten (map (λ r. r.attributes) rows)),
        length-append r.attributes
            (flatten (map (λ r. r.attributes) (upsert rows span service attrs))),
        attr_count-upsert rows span service attrs,
      ))
]
