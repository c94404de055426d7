-- ===== src/Store/Sizes/Growth.antt =====
-- How the approximate size of the store of src/store/mod.rs grows with a span.
use spanfall.Prelude.{
  ℕ, ◌+◌, ◌*◌, ◌≤◌, ◌≡◌, refl, sym, ap, ◌∙◌, subst, Option, none, some, List, [], ◌∷◌, length,
  arith, Bool-cases, inl, inr, ◌==◌, ok, of_ok,
}
use spanfall.Prelude.Map
use spanfall.Prelude.Map.{Map}
use spanfall.Prelude.MapLaws.{AllValues, AllValues-mono}
use spanfall.Prelude.Text.{str_len}
use spanfall.Types.{TraceId, AttrValue, trace_id_eq, span_id_eq}
use spanfall.Trace.{Trace, NewSpan, span_count, new as new_trace}
use spanfall.Trace.Spec.{Row, upsert, row_of}
use spanfall.Trace.Attrs.{intern_attrs-InternsAttrs}
use spanfall.Store.{Store, entry}
use spanfall.Store.Evict.{
  approx_span_fixed_bytes, approx_attr_fixed_bytes, approx_bytes_from, approx_bytes,
  sum_approx_bytes, total_approx_bytes,
}
use spanfall.Store.Valid.{Stored, IsValid, Room, key_count, service_count}
use spanfall.Store.Insertion.{Accepted, insert_span_no_evict-Accepted, interned, service_of}
use spanfall.Store.Sizes.{row_bytes, rows_bytes, approx_bytes_lem}

-- The most that a span adds.
abbrev pub span_bytes : NewSpan → ℕ
span_bytes span =
    approx_span_fixed_bytes + str_len span.name + length span.attributes * approx_attr_fixed_bytes

rows_bytes-upsert :
    (rows : List Row) (span : NewSpan) (service : Option ℕ) (attrs : List (ℕ × AttrValue))
    → rows_bytes (upsert rows span service attrs)
      ≤ rows_bytes rows + row_bytes (row_of span service attrs)
unfolding upsert rows_bytes
rows_bytes-upsert [] span service attrs = omega arith
rows_bytes-upsert (r ∷ rows) span service attrs = elim (Bool-cases (r.span_id == span.span_id)) [
  | inl eq ↦ rw eq (omega arith)
  | inr ne ↦ rw ne (omega (arith, rows_bytes-upsert rows span service attrs))
]

abbrev IsSized : Trace → Type 0
IsSized t = (c : ℕ) × (approx_bytes t ≡ ok c)

-- A trace of `c` bytes in place of an old one adds at most `d`.
abbrev Adds : Option Trace → ℕ → ℕ → Type 0
Adds none c d = c ≤ d
Adds (some t) c d = (c0 : ℕ) × (approx_bytes t ≡ ok c0) × (c ≤ c0 + d)

-- The sizes of two maps, the second at most `d` larger.
abbrev Larger : Map TraceId Trace → Map TraceId Trace → ℕ → Type 0
Larger m m' d =
    (a : ℕ) × (b : ℕ) × (sum_approx_bytes m ≡ ok a) × (sum_approx_bytes m' ≡ ok b) × (b ≤ a + d)

sum_ok : (m : Map TraceId Trace) → AllValues IsSized m → (b : ℕ) × (sum_approx_bytes m ≡ ok b)
unfolding sum_approx_bytes
sum_ok [] h = (0, refl)
sum_ok ((id, t) ∷ m) h = let (c, e) = h.0 in let (b, e') = sum_ok m h.1 in (c + b, rw (e, e'))

sum-insert :
    (m : Map TraceId Trace) (id : TraceId) (t : Trace) (c d : ℕ)
    → AllValues IsSized m
    → approx_bytes t ≡ ok c
    → Adds (Map.get m id) c d
    → Larger m (Map.insert m id t) d
unfolding sum_approx_bytes Map.insert
sum-insert [] id t c d h e adds = (0, c + 0, refl, rw e, omega arith)
sum-insert ((j, u) ∷ m) id t c d h e adds =
    let (c1, e1) = h.0 in
    elim (Bool-cases (trace_id_eq.beq j id)) [
      | inl eq ↦
          let (b, rest) = sum_ok m h.1 in
          let (c0, e0, le) : Adds (some u) c d = rw eq at adds in
          let same : c0 ≡ c1 = of_ok (sym e0 ∙ e1) in
          rw eq ((c1 + b), (c + b), rw (e1, rest), rw (e, rest), omega (arith, same))
      | inr ne ↦
          let (a, b, ea, eb, le) = sum-insert m id t c d h.1 e (rw ne at adds) in
          rw ne ((c1 + a), (c1 + b), rw (e1, ea), rw (e1, eb), omega arith)
    ]

-- The store can take `n` more bytes within its budget.
abbrev pub Fits : Store → ℕ → Type 0
Fits s n = (b : ℕ) × (total_approx_bytes s ≡ ok b) × (b + n ≤ s.max_memory_bytes)

new_trace-bytes :
    (id : TraceId) (now gen : ℕ)
    → approx_bytes (record (new_trace id now) { generation = gen }) ≡ ok 0
unfolding approx_bytes approx_bytes_from span_count new_trace
new_trace-bytes id now gen = refl

module _ (s : Store) (id : TraceId) (span : NewSpan) (now : ℕ) (v : IsValid s) (n : ℕ)
    (room : Room (length span.attributes + n) s) where
  abbrev accepted : Accepted s id span now
  accepted = insert_span_no_evict-Accepted s id span now v n room

  abbrev after_rows : List Row
  after_rows = upsert accepted.before span (service_of s span).1 (interned s span).1

  after_rows-le : rows_bytes after_rows ≤ rows_bytes accepted.before + span_bytes span
  after_rows-le = omega (
    arith,
    rows_bytes-upsert accepted.before span (service_of s span).1 (interned s span).1,
    (intern_attrs-InternsAttrs s.key_interner span.attributes v.keys).short,
  )

  before-bytes : approx_bytes (entry s id now).0 ≡ ok (rows_bytes accepted.before)
  before-bytes = approx_bytes_lem (entry s id now).0 accepted.before accepted.stored

  after-Adds :
      (o : Option Trace)
      → Map.get s.traces id ≡ o
      → Adds o (rows_bytes after_rows) (span_bytes span)
  unfolding entry
  after-Adds none gone =
      let fresh : approx_bytes (entry s id now).0 ≡ ok 0 =
        rw (entry, gone) (new_trace-bytes id now _) in
      omega (arith, after_rows-le, of_ok (sym before-bytes ∙ fresh))
  after-Adds (some t) here =
      let old : (entry s id now).0 ≡ t = rw (entry, here) in
      (rows_bytes accepted.before, (ap approx_bytes (sym old) ∙ before-bytes), after_rows-le)

  sized : AllValues IsSized s.traces
  sized =
      AllValues-mono (Stored (key_count s) (service_count s)) IsSized s.traces
        (λ t h. (rows_bytes h.0, approx_bytes_lem t h.0 h.1)) v.traces

  -- A span takes at most its own bytes of what fits.
  pub accepted-Fits : (k : ℕ) → Fits s (span_bytes span + k) → Fits accepted.store k
  unfolding total_approx_bytes
  accepted-Fits k (b, total, le) =
      let (b0, b1, e0, e1, more) =
        sum-insert s.traces id accepted.after (rows_bytes after_rows) (span_bytes span) sized
          (approx_bytes_lem accepted.after after_rows accepted.upserted)
          (after-Adds (Map.get s.traces id) refl) in
      subst (λ x. Fits x k) (sym accepted.is_store) (b1, e1, omega (arith, of_ok (sym e0 ∙ total)))
