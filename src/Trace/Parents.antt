-- ===== src/Trace/Parents.antt =====
-- What the resolved parents of src/store/trace.rs mean, and what a span sent again does to them.
use spanfall.Prelude.{
  ℕ, ◌<◌, ◌^◌, ◌≡◌, refl, sym, ap, ◌∙◌, Option, none, some, List, map, ok, get_elem?, panic, ap₂,
  at_lem, map-set_same, arith,
}
use spanfall.Types.{SpanId}
use spanfall.Interner.{Interner}
use spanfall.Trace.{Trace, NewSpan, InsertOutcome, span_id, parent_idx}
use spanfall.Trace.Insert.{insert, intern_attrs}
use spanfall.Trace.Spec.{Row, Refines, position, parent_of, orphan_of, upsert, attr_count}
use spanfall.Trace.Refine.{insert-Inserted}
use spanfall.Trace.Upsert.{ids_of, upsert-old}
use spanfall.Trace.Readers.{Refines-Reads, position-get_elem?}

ok_injective {ℓ} : {A : Type ℓ} {a b : A} → ok a ≡ ok b → a ≡ b
ok_injective {a} h = ap (λ e. elim e [ ok x ↦ x | panic ↦ a ]) h

parent_of-some :
    (ids : List SpanId) (p : Option SpanId) (j : ℕ)
    → parent_of ids p ≡ some j
    → (pid : SpanId) × (p ≡ some pid) × (get_elem? ids j ≡ some pid)
parent_of-some ids none j h = absurd (ground arith)
parent_of-some ids (some pid) j h = (pid, refl, position-get_elem? pid ids j h)

-- In a trace that stores `rows`, an index that `parent_idx` gives for a span is that of a span
-- whose id is the one that the first span names as its parent.
pub parent_idx-span_id :
    (t : Trace) (rows : List Row) (i j : ℕ) (r : Row)
    → Refines t rows
    → get_elem? rows i ≡ some r
    → parent_idx t i ≡ ok (some j)
    → (pid : SpanId) × (r.parent_span_id ≡ some pid) × (span_id t j ≡ ok pid)
unfolding span_id
parent_idx-span_id t rows i j r ref here found =
    let reads = Refines-Reads t rows i r ref here in
    let (pid, named, there) =
      parent_of-some (ids_of rows) r.parent_span_id j (ok_injective (sym reads.parent ∙ found)) in
    (pid, named, at_lem t.span_ids j (ap (λ ids. get_elem? ids j) ref.span_ids ∙ there))

-- On a trace that stores `rows`, while its attributes stay below 2^32, inserting a span whose id
-- is there does not panic and does not change which parent any span of the trace has, nor which
-- spans are orphans, whatever parent it names this time.
pub insert-same_parents :
    (t : Trace) (rows : List Row) (span : NewSpan) (service : Option ℕ) (key_interner : Interner)
    (now i : ℕ)
    → Refines t rows
    → attr_count (upsert rows span service (intern_attrs key_interner span.attributes).1) < 2 ^ 32
    → position span.span_id (ids_of rows) ≡ some i
    → (r : Trace × InsertOutcome × Interner) × (insert t span service key_interner now ≡ ok r)
      × (r.0.parent_idx ≡ t.parent_idx)
      × (r.0.orphan ≡ t.orphan)
insert-same_parents t rows span service key_interner now i ref small dup =
    let ins = insert-Inserted t rows span service key_interner now ref small in
    let o = upsert-old rows span service (intern_attrs key_interner span.attributes).1 i dup in
    let after = ins.refines in
    let parents =
      ap (map (λ r. r.parent_span_id)) o.result
      ∙ map-set_same (λ r. r.parent_span_id) rows i o.old _ o.here refl in
    let ids : ins.trace.span_ids ≡ t.span_ids =
      after.span_ids
      ∙ ap (map (λ r. r.span_id)) o.result
      ∙ map-set_same (λ r. r.span_id) rows i o.old _ o.here refl
      ∙ sym ref.span_ids in
    (
      _,
      ins.returned,
      after.links.parent
          ∙ ap₂ (λ ids ps. map (parent_of ids) ps) ids parents
          ∙ sym ref.links.parent,
      after.links.orphan
          ∙ ap₂ (λ ids ps. map (orphan_of ids) ps) ids parents
          ∙ sym ref.links.orphan,
    )
