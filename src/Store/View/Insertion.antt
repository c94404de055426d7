-- ===== src/Store/View/Insertion.antt =====
-- `insert_span_no_evict` of src/store/mod.rs adds a span to what the store shows.
use spanfall.Prelude.{
  ℕ, ◌+◌, ◌<◌, ◌^◌, ◌≡◌, refl, sym, ap, ◌∙◌, subst, true, false, Option, none, some, List, [], ◌∷◌,
  map, length, arith, All, Bool-cases, Option-cases, inl, inr, ◌==◌, if◌then◌else◌, ok, panic,
  length-map,
}
use spanfall.Prelude.Map
use spanfall.Types.{TraceId, AttrValue, trace_id_eq, span_id_eq, span_id_beq_iff}
use spanfall.Interner.{Interner}
use spanfall.Trace.{Trace, NewSpan, InsertOutcome, new as new_trace}
use spanfall.Trace.Spec.{Row, Refines, upsert, row_of, attr_count, key_of, flatten}
use spanfall.Trace.Attrs.{resolved, intern_attrs-InternsAttrs, resolved-intern_attrs}
use spanfall.Trace.Refine.{insert-Inserted, new-Refines, header-Refines}
use spanfall.Store.{Store, trace, entry}
use spanfall.Store.Valid.{
  IsValid, Room, IdWithin, key_count, service_count, attr_count-upsert, upsert-RowWithin,
}
use spanfall.Store.Insertion.{
  Accepted, insert_span_no_evict-Accepted, interned, service_of, entry-IsEntry,
}
use spanfall.Store.View.{
  View, absorb, absorb_span, spans_of, RowShows, AllShow, TraceShows, ShowsAt, Shows, Spare,
}
use spanfall.Store.View.Growth.{
  Keeps, Grows, TraceShows-Grows, ShowsAt-Grows, length-intern_attrs, NamesService,
  intern_service-NamesService,
}

AllShow-upsert :
    (s : Store) (rows : List Row) (xs : List NewSpan) (span : NewSpan) (service : Option ℕ)
    (attrs : List (ℕ × AttrValue))
    → AllShow s rows xs
    → RowShows s (row_of span service attrs) span
    → AllShow s (upsert rows span service attrs) (absorb xs span)
unfolding upsert absorb
AllShow-upsert s [] [] span service attrs h new = (new, tt)
AllShow-upsert s [] (x ∷ xs) span service attrs h new = absurd h
AllShow-upsert s (r ∷ rows) [] span service attrs h new = absurd h
AllShow-upsert s (r ∷ rows) (x ∷ xs) span service attrs h new =
    elim (Bool-cases (r.span_id == span.span_id)) [
      | inl eq ↦
          let eq' : (x.span_id == span.span_id) ≡ true = rw (sym h.0.span_id) eq in
          rw (eq, eq')
            (
              record {
                span_id = (span_id_beq_iff r.span_id span.span_id).0 eq;
                parent = h.0.parent;
                name = refl;
                start = refl;
                end = refl;
                message = refl;
                code = refl;
                unknown = refl;
                service = new.service;
                attributes = new.attributes;
              },
              h.1,
            )
      | inr ne ↦
          let ne' : (x.span_id == span.span_id) ≡ false = rw (sym h.0.span_id) ne in
          rw (ne, ne') (h.0, AllShow-upsert s rows xs span service attrs h.1 new)
    ]

inserted_trace : (r r' : Trace × InsertOutcome × Interner) → ok r ≡ ok r' → r.0 ≡ r'.0
inserted_trace r r' h = ap (λ e. elim e [ ok x ↦ x.0 | panic ↦ r.0 ]) h

module _ (s : Store) (id : TraceId) (span : NewSpan) (now : ℕ) (v : IsValid s) (n : ℕ)
    (room : Room (length span.attributes + n) s) (m : View) (sh : Shows s m)
    (spare : Spare s (length span.attributes) 1) where
  abbrev old : List NewSpan
  old = spans_of (Map.get m id)

  start-TraceShows : TraceShows s (entry s id now).0 old
  unfolding entry trace new_trace
  start-TraceShows = elim (Option-cases (Map.get m id)) [
    | inl missing ↦
        let gone : Map.get s.traces id ≡ none = subst (ShowsAt s id) missing (sh id) in
        rw (missing, gone, entry)
          ([], header-Refines (new_trace id now) [] _ now (new-Refines id now), tt, tt)
    | inr (xs, here) ↦
        let (t, found, shows) : ShowsAt s id (some xs) = subst (ShowsAt s id) here (sh id) in
        rw (here, found, entry) shows
  ]

  -- The insertion.
  abbrev pub accepted : Accepted s id span now
  accepted = insert_span_no_evict-Accepted s id span now v n room

  keys_grow : Keeps s.key_interner (interned s span).0
  keys_grow = (intern_attrs-InternsAttrs s.key_interner span.attributes v.keys).keeps

  named :
      NamesService s.service_interner span.service_name (service_of s span).0 (service_of s span).1
  named = intern_service-NamesService s.service_interner span.service_name v.services spare.services

  store-Grows : Grows s accepted.store
  store-Grows =
      subst (Grows s) (sym accepted.is_store) (record { keys = keys_grow; services = named.keeps })

  new_row : RowShows accepted.store (row_of span (service_of s span).1 (interned s span).1) span
  new_row = record {
    span_id = refl;
    parent = refl;
    name = refl;
    start = refl;
    end = refl;
    message = refl;
    code = refl;
    unknown = refl;
    service = named.resolves accepted.store (ap (λ x. x.service_interner) accepted.is_store);
    attributes =
        ap (λ x. resolved x.key_interner (interned s span).1) accepted.is_store
        ∙ resolved-intern_attrs s.key_interner span.attributes v.keys spare.keys;
  }

  new_row-RowWithin :
      All (λ kv. kv.0 < key_count accepted.store) (interned s span).1
      × IdWithin (service_count accepted.store) (service_of s span).1
  new_row-RowWithin =
      subst
        (λ x.
          All (λ kv. kv.0 < key_count x) (interned s span).1
          × IdWithin (service_count x) (service_of s span).1)
        (sym accepted.is_store)
        ((intern_attrs-InternsAttrs s.key_interner span.attributes v.keys).within, named.within)

  after-TraceShows : TraceShows accepted.store accepted.after (absorb old span)
  after-TraceShows =
      let (rows, ref, within, shows) =
        TraceShows-Grows s accepted.store (entry s id now).0 old store-Grows start-TraceShows in
      let small : attr_count (upsert rows span (service_of s span).1 (interned s span).1) < 2 ^ 32 =
        omega (
          arith,
          attr_count-upsert rows span (service_of s span).1 (interned s span).1,
          (intern_attrs-InternsAttrs s.key_interner span.attributes v.keys).short,
          ap length ref.csr.keys,
          length-map key_of (flatten (map (λ r. r.attributes) rows)),
          (entry-IsEntry s id now v).small (length span.attributes + n) room,
        ) in
      let ins =
        insert-Inserted (entry s id now).0 rows span (service_of s span).1 s.key_interner now ref
          small in
      let same : accepted.after ≡ ins.trace =
        inserted_trace _ _ (sym accepted.inserted ∙ ins.returned) in
      (
        upsert rows span (service_of s span).1 (interned s span).1,
        subst (λ t. Refines t (upsert rows span (service_of s span).1 (interned s span).1))
            (sym same) ins.refines,
        upsert-RowWithin _ _ rows span (service_of s span).1 (interned s span).1 within
            new_row-RowWithin.1 new_row-RowWithin.0,
        AllShow-upsert accepted.store rows old span (service_of s span).1 (interned s span).1 shows
            new_row,
      )

  -- The traces of the new store, by the entry that was written.
  trace_after :
      (j : TraceId) → trace accepted.store j ≡ (if id == j then some accepted.after else trace s j)
  unfolding trace
  trace_after j =
      ap (λ x. Map.get x.traces j) accepted.is_store ∙ Map.get-insert s.traces id j accepted.after

  pub insert_span-Shows : Shows accepted.store (absorb_span m id span)
  unfolding absorb_span
  insert_span-Shows j = elim (Bool-cases (id == j)) [
    | inl eq ↦
        let here : Map.get (absorb_span m id span) j ≡ some (absorb old span) =
          Map.get-insert m id j (absorb old span) ∙ rw eq in
        subst (ShowsAt accepted.store j) (sym here)
          (accepted.after, (trace_after j ∙ rw eq), after-TraceShows)
    | inr ne ↦
        let there : Map.get (absorb_span m id span) j ≡ Map.get m j =
          Map.get-insert m id j (absorb old span) ∙ rw ne in
        subst (ShowsAt accepted.store j) (sym there) (
          ShowsAt-Grows s accepted.store j (Map.get m j) store-Grows (trace_after j ∙ rw ne) (sh j))
  ]

  -- What is left of the room in the tables.
  pub insert_span-Spare :
      (k l : ℕ) → Spare s (length span.attributes + k) (1 + l) → Spare accepted.store k l
  insert_span-Spare k l more =
      subst (λ x. Spare x k l) (sym accepted.is_store)
        (record {
          keys = omega (
            arith,
            more.keys,
            length-intern_attrs s.key_interner span.attributes v.keys spare.keys,
            (intern_attrs-InternsAttrs s.key_interner span.attributes v.keys).cap_kept,
          );
          services = omega (arith, more.services, named.more, named.cap_kept);
        })
