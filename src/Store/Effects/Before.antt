-- ===== src/Store/Effects/Before.antt =====
-- What an insertion of src/store/mod.rs makes of the maps, the counters and the table before it.
use spanfall.Prelude.{
  ℕ, suc, ◌+◌, ◌%◌, ◌^◌, ◌≡◌, refl, Bool, true, false, Option, none, some, List, [], ◌∷◌, length,
  arith, map, is_some, list_eq, ℕ_eq, ◌⊎◌, leb, Bool-cases, Option-cases, inl, inr, ◌==◌, eq_refl,
}
use spanfall.Prelude.Map
use spanfall.Prelude.MapLaws.{none≢some}
use spanfall.Prelude.Text.{Text}
use spanfall.Types.{TraceId, AttrValue, trace_id_eq}
use spanfall.Counters.{Counters}
use spanfall.Interner.{Interner, intern, intern_new}
use spanfall.Trace.{Trace, NewSpan, new as new_trace}
use spanfall.Trace.Insert.{intern_attrs}
use spanfall.Trace.Spec.{Row, Refines, position}
use spanfall.Trace.Upsert.{ids_of}
use spanfall.Trace.Refine.{outcome_of}
use spanfall.Store.{Store, entry, is_resurrected, count_insert}
use spanfall.Store.Valid.{IsValid}

-- The rows of a trace that may be there.
abbrev pub Holds : Option Trace → List Row → Type 0
Holds none rows = rows ≡ []
Holds (some t) rows = Refines t rows

-- A trace that is there keeps its generation, one that was evicted takes the next one, and a new one
-- starts at 0.
abbrev pub generation_after : Option Trace → Option ℕ → ℕ
generation_after (some t) _ = t.generation
generation_after none (some g) = (g + 1) % 2 ^ 32
generation_after none none = 0

abbrev pub comes_back : Option Trace → Option ℕ → Bool
comes_back (some t) _ = false
comes_back none (some g) = true
comes_back none none = false

-- A counter after an event that may have happened.
abbrev pub bumped : Bool → ℕ → ℕ
bumped true n = (n + 1) % 2 ^ 64
bumped false n = n

-- Where the span stands, from the position that its id had.
abbrev pub place : Option ℕ → ℕ → ℕ
place (some i) n = i
place none n = n

-- How many keys a table refuses.
pub record Refusals (i : Interner) (kvs : List (Text × AttrValue)) (count : ℕ) : Type 0 where
  pub counted : length (intern_attrs i kvs).1 + count ≡ length kvs
  pub cap_hits : (intern_attrs i kvs).0.cap_hit_count % 2 ^ 64 ≡ (i.cap_hit_count + count) % 2 ^ 64

intern-hits :
    (i : Interner) (k : Text)
    → (((intern i k).1 ≡ none) × ((intern i k).0.cap_hit_count ≡ (i.cap_hit_count + 1) % 2 ^ 64))
      ⊎ ((id : ℕ) × ((intern i k).1 ≡ some id) × ((intern i k).0.cap_hit_count ≡ i.cap_hit_count))
unfolding intern intern_new
intern-hits i k = elim (Option-cases (Map.get i.map k)) [
  | inr (id, e) ↦ inr (id, rw (e, intern) refl, rw (e, intern) refl)
  | inl e ↦ elim (Bool-cases (leb i.cap (length i.values))) [
    | inl full ↦ inl (rw (e, intern, full, intern_new) refl, rw (e, intern, full, intern_new) refl)
    | inr room ↦ inr (
      length i.values % 2 ^ 32,
      rw (e, intern, room, intern_new) refl,
      rw (e, intern, room, intern_new) refl,
    )
  ]
]

pub intern_attrs-Refusals :
    (i : Interner) (kvs : List (Text × AttrValue)) → (count : ℕ) × Refusals i kvs count
unfolding intern_attrs
intern_attrs-Refusals i [] = (0, record { counted = refl; cap_hits = omega arith })
intern_attrs-Refusals i ((k, a) ∷ kvs) =
    let (count, rest) = intern_attrs-Refusals (intern i k).0 kvs in
    elim (intern-hits i k) [
      | inl (refused, hits) ↦ (
        suc count,
        record {
          counted = rw refused (omega (arith, rest.counted));
          cap_hits = omega (arith, rest.cap_hits, hits);
        },
      )
      | inr (id, kept, hits) ↦ (
        count,
        record {
          counted = rw kept (omega (arith, rest.counted));
          cap_hits = omega (arith, rest.cap_hits, hits);
        },
      )
    ]

no_rows : (rows : List Row) → [] ≡ map (λ r. r.span_id) rows → rows ≡ []
no_rows [] h = refl
no_rows (r ∷ rows) h = absurd (cc)

module _ (s : Store) (id : TraceId) (now : ℕ) where
  pub Holds-entry :
      (rows : List Row) → Refines (entry s id now).0 rows → Holds (Map.get s.traces id) rows
  unfolding entry new_trace
  Holds-entry rows ref = elim (Option-cases (Map.get s.traces id)) [
    | inr (t, there) ↦ rw there (rw (there, entry) at ref)
    | inl missing ↦ rw missing (no_rows rows (rw (missing, entry) at ref.span_ids))
  ]

  pub generation_after-entry :
      (entry s id now).0.generation
      ≡ generation_after (Map.get s.traces id) (Map.get s.evicted_generations id)
  unfolding entry new_trace
  generation_after-entry = elim (Option-cases (Map.get s.traces id)) [
    | inr (t, there) ↦ rw (there, entry) refl
    | inl missing ↦ elim (Option-cases (Map.get s.evicted_generations id)) [
      | inr (g, gone) ↦ rw (missing, gone, entry) refl
      | inl new ↦ rw (missing, new, entry) refl
    ]
  ]

  pub comes_back-is_resurrected :
      is_resurrected s id ≡ comes_back (Map.get s.traces id) (Map.get s.evicted_generations id)
  unfolding is_resurrected
  comes_back-is_resurrected = elim (Option-cases (Map.get s.traces id)) [
    | inr (t, there) ↦ rw there refl
    | inl missing ↦ elim (Option-cases (Map.get s.evicted_generations id)) [
      | inr (g, gone) ↦ rw (missing, gone) refl
      | inl new ↦ rw (missing, new) refl
    ]
  ]

  pub forgotten-entry : IsValid s → Map.get (entry s id now).1 id ≡ none
  unfolding entry
  forgotten-entry v = elim (Option-cases (Map.get s.traces id)) [
    | inr (t, there) ↦
        rw (there, entry)
          (elim (Option-cases (Map.get s.evicted_generations id)) [
            | inl none_there ↦ none_there
            | inr (g, e) ↦ absurd (none≢some (v.apart id (rw e)) there)
          ])
    | inl missing ↦
        let same : (id == id) ≡ true = eq_refl id in
        rw (missing, entry) (rw (Map.get-remove s.evicted_generations id id, same))
  ]

  pub remembered-entry :
      (j : TraceId)
      → (id == j) ≡ false
      → Map.get (entry s id now).1 j ≡ Map.get s.evicted_generations j
  unfolding entry
  remembered-entry j other = elim (Option-cases (Map.get s.traces id)) [
    | inr (t, there) ↦ rw (there, entry) refl
    | inl missing ↦ rw (missing, entry) (rw (Map.get-remove s.evicted_generations id j, other) refl)
  ]

pub outcome-place :
    (rows : List Row) (span : NewSpan)
    → ((outcome_of rows span.span_id).local_idx
        ≡ place (position span.span_id (ids_of rows)) (length rows))
      × ((outcome_of rows span.span_id).is_duplicate
          ≡ is_some (position span.span_id (ids_of rows)))
outcome-place rows span = elim (Option-cases (position span.span_id (ids_of rows))) [
  | inl e ↦ (rw (e, outcome_of) refl, rw (e, outcome_of) refl)
  | inr (i, e) ↦ (rw (e, outcome_of) refl, rw (e, outcome_of) refl)
]

pub counted-bumped :
    (c : Counters) (duplicate back : Bool) (hits : ℕ)
    → ((count_insert c duplicate back hits).duplicate_span ≡ bumped duplicate c.duplicate_span)
      × ((count_insert c duplicate back hits).late_span_after_eviction
          ≡ bumped back c.late_span_after_eviction)
unfolding count_insert
counted-bumped c true true hits = (refl, refl)
counted-bumped c true false hits = (refl, refl)
counted-bumped c false true hits = (refl, refl)
counted-bumped c false false hits = (refl, refl)
