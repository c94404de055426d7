-- ===== src/Api/Attributes/Entries.antt =====
-- What `get_attributes` of src/api/attributes.rs answers on a valid store.
use spanfall.Prelude.{
  ℕ, ◌<◌, ◌≡◌, refl, false, get_elem?_lt, Option, some, List, [], ◌∷◌, map, leb, ok, get_elem?,
  get_elem?_of_lt, All, arith,
}
use spanfall.Prelude.Text.{Text}
use spanfall.Types.{AttrValue, TraceId, from_hex, trace_id_eq}
use spanfall.Interner
use spanfall.Trace.{Trace, span_count}
use spanfall.Trace.Spec.{Row, Refines, key_of, value_of}
use spanfall.Trace.Readers.{Refines-Reads, span_count_lem}
use spanfall.Store.{Store, trace, attribute_key}
use spanfall.Store.Valid.{RowWithin, key_count, service_count}
use spanfall.Api.{json}
use spanfall.Api.Attributes.{AttributeEntry, entries, span_entries, get_attributes}

-- An entry as the pair of a key, if the table has one, and a value.
abbrev pub pair_of_entry : AttributeEntry → Option Text × AttrValue
pair_of_entry e = (some e.key, e.value)

abbrev pub row_pairs : Store → List (ℕ × AttrValue) → List (Option Text × AttrValue)
row_pairs s = map (λ kv. (get_elem? s.key_interner.values kv.0, kv.1))

entries_lem :
    (s : Store) (attrs : List (ℕ × AttrValue))
    → All (λ kv. kv.0 < key_count s) attrs
    → (es : List AttributeEntry) × (entries s (map key_of attrs) (map value_of attrs) ≡ ok es)
      × (map pair_of_entry es ≡ row_pairs s attrs)
unfolding entries attribute_key Interner.get
entries_lem s [] w = ([], refl, refl)
entries_lem s ((k, a) ∷ attrs) w =
    let (name, here) = get_elem?_of_lt s.key_interner.values k w.0 in
    let (es, ret, same) = entries_lem s attrs w.1 in
    (record { key = name; value = a } ∷ es, rw (here, ret), rw (here, same))

-- For a span of a trace that holds `rows`, whose ids are within the store's tables,
-- `get_attributes` does not panic, and answers with the span's attributes in order, each under the
-- string that its key stands for.
pub get_attributes-row_pairs :
    (s : Store) (id : Text) (idx : ℕ) (trace_id : TraceId) (t : Trace) (rows : List Row) (r : Row)
    → from_hex id ≡ some trace_id
    → trace s trace_id ≡ some t
    → Refines t rows
    → get_elem? rows idx ≡ some r
    → RowWithin (key_count s) (service_count s) r
    → (es : List AttributeEntry) × (get_attributes s id idx ≡ ok (json es))
      × (map pair_of_entry es ≡ row_pairs s r.attributes)
unfolding get_attributes span_entries
get_attributes-row_pairs s id idx trace_id t rows r hex found ref here within =
    let reads = Refines-Reads t rows idx r ref here in
    let (es, ret, same) = entries_lem s r.attributes within.attributes in
    let inside : leb (span_count t) idx ≡ false =
      ground (arith, span_count_lem t rows ref, get_elem?_lt rows idx here) in
    (es, rw (hex, get_attributes, found, inside, reads.keys, reads.values, ret), same)
