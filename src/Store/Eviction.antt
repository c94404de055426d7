-- ===== src/Store/Eviction.antt =====
-- `evict_over_budget` of src/store/mod.rs on a well-formed store.
use spanfall.Prelude.{
  ◌≤◌, ◌≡◌, refl, sym, ap, ◌∙◌, true, false, none, some, [], ◌∷◌, arith, Bool-cases, Option-cases,
  inl, inr, ◌==◌, of_some, leb, leb→le, leb-false→lt, subst,
}
use spanfall.Prelude.Map
use spanfall.Prelude.Map.{Map}
use spanfall.Prelude.MapLaws.{Distinct, get_cases, none≢some}
use spanfall.Types.{TraceId, trace_id_eq, trace_id_beq_iff}
use spanfall.Trace.{Trace}
use spanfall.Store.Evict.{oldest_entry}

-- The entry that is chosen stands in the map, and none is older.
pub record IsOldest (m : Map TraceId Trace) (id : TraceId) (t : Trace) : Type 0 where
  pub here : Map.get m id ≡ some t
  pub least :
      (j : TraceId) (u : Trace)
      → Map.get m j ≡ some u
      → t.last_activity_unix_nano ≤ u.last_activity_unix_nano

le_of_eq : (t u : Trace) → t ≡ u → t.last_activity_unix_nano ≤ u.last_activity_unix_nano
le_of_eq t u h = omega (arith, ap (λ x. x.last_activity_unix_nano) h)

-- What a first entry does to the choice.
module _ (x0 : TraceId × Trace) (m : Map TraceId Trace) where
  oldest_single : oldest_entry m ≡ none → oldest_entry (x0 ∷ m) ≡ some x0
  unfolding oldest_entry
  oldest_single e = rw (e, oldest_entry)

  oldest_head :
      (x1 : TraceId × Trace)
      → oldest_entry m ≡ some x1
      → leb x0.1.last_activity_unix_nano x1.1.last_activity_unix_nano ≡ true
      → oldest_entry (x0 ∷ m) ≡ some x0
  unfolding oldest_entry
  oldest_head x1 e le = rw (e, oldest_entry, le)

  oldest_tail :
      (x1 : TraceId × Trace)
      → oldest_entry m ≡ some x1
      → leb x0.1.last_activity_unix_nano x1.1.last_activity_unix_nano ≡ false
      → oldest_entry (x0 ∷ m) ≡ some x1
  unfolding oldest_entry
  oldest_tail x1 e gt = rw (e, oldest_entry, gt)

pub oldest_entry-some :
    (x0 : TraceId × Trace) (m : Map TraceId Trace)
    → (x : TraceId × Trace) × (oldest_entry (x0 ∷ m) ≡ some x)
oldest_entry-some x0 m = elim (Option-cases (oldest_entry m)) [
  | inl e ↦ (x0, oldest_single x0 m e)
  | inr (x1, e) ↦
      elim (Bool-cases (leb x0.1.last_activity_unix_nano x1.1.last_activity_unix_nano)) [
        | inl le ↦ (x0, oldest_head x0 m x1 e le)
        | inr gt ↦ (x1, oldest_tail x0 m x1 e gt)
      ]
]

oldest_entry-none : (m : Map TraceId Trace) → oldest_entry m ≡ none → m ≡ []
oldest_entry-none [] h = refl
oldest_entry-none (x0 ∷ m) h = absurd (none≢some h (oldest_entry-some x0 m).1)

module _ (id0 : TraceId) (t0 : Trace) (m : Map TraceId Trace) where
  single-IsOldest : m ≡ [] → IsOldest ((id0, t0) ∷ m) id0 t0
  single-IsOldest empty = record {
    here = rw ((trace_id_beq_iff id0 id0).1 refl);
    least = λ j u h. elim (get_cases id0 j t0 u m h) [
      | inl (eq, same) ↦ le_of_eq t0 u same
      | inr (ne, found) ↦ absurd (none≢some (ap (λ m'. Map.get m' j) empty) found)
    ];
  }

  head-IsOldest :
      (id1 : TraceId) (t1 : Trace)
      → IsOldest m id1 t1
      → leb t0.last_activity_unix_nano t1.last_activity_unix_nano ≡ true
      → IsOldest ((id0, t0) ∷ m) id0 t0
  head-IsOldest id1 t1 o le = record {
    here = rw ((trace_id_beq_iff id0 id0).1 refl);
    least = λ j u h. elim (get_cases id0 j t0 u m h) [
      | inl (eq, same) ↦ le_of_eq t0 u same
      | inr (ne, found) ↦ omega (arith, leb→le _ _ le, o.least j u found)
    ];
  }

  tail-IsOldest :
      (id1 : TraceId) (t1 : Trace)
      → IsOldest m id1 t1
      → Map.get m id0 ≡ none
      → leb t0.last_activity_unix_nano t1.last_activity_unix_nano ≡ false
      → IsOldest ((id0, t0) ∷ m) id1 t1
  tail-IsOldest id1 t1 o fresh gt = record {
    here = elim (Bool-cases (id0 == id1)) [
      | inl eq ↦
          absurd (none≢some fresh (ap (Map.get m) ((trace_id_beq_iff id0 id1).0 eq) ∙ o.here))
      | inr ne ↦ rw ne o.here
    ];
    least = λ j u h. elim (get_cases id0 j t0 u m h) [
      | inl (eq, same) ↦ omega (
        arith,
        leb-false→lt t0.last_activity_unix_nano t1.last_activity_unix_nano gt,
        le_of_eq t0 u same,
      )
      | inr (ne, found) ↦ o.least j u found
    ];
  }

chosen :
    (m : Map TraceId Trace) (x y : TraceId × Trace)
    → oldest_entry m ≡ some y
    → oldest_entry m ≡ some x
    → IsOldest m y.0 y.1
    → IsOldest m x.0 x.1
chosen m x y h h' o = subst (λ z. IsOldest m z.0 z.1) (of_some (sym h ∙ h')) o

pub oldest_entry-IsOldest :
    (m : Map TraceId Trace) (x : TraceId × Trace)
    → Distinct m
    → oldest_entry m ≡ some x
    → IsOldest m x.0 x.1
oldest_entry-IsOldest [] x d h = absurd (none≢some oldest_empty h)
  where
    oldest_empty : oldest_entry [] ≡ none
    oldest_empty = unfold oldest_entry in refl
oldest_entry-IsOldest ((id0, t0) ∷ m) x d h = elim (Option-cases (oldest_entry m)) [
  | inl e ↦
      chosen ((id0, t0) ∷ m) x (id0, t0) (oldest_single (id0, t0) m e) h
        (single-IsOldest id0 t0 m (oldest_entry-none m e))
  | inr ((id1, t1), e) ↦
      let o = oldest_entry-IsOldest m (id1, t1) d.1 e in
      elim (Bool-cases (leb t0.last_activity_unix_nano t1.last_activity_unix_nano)) [
        | inl le ↦
            chosen ((id0, t0) ∷ m) x (id0, t0) (oldest_head (id0, t0) m (id1, t1) e le) h
              (head-IsOldest id0 t0 m id1 t1 o le)
        | inr gt ↦
            chosen ((id0, t0) ∷ m) x (id1, t1) (oldest_tail (id0, t0) m (id1, t1) e gt) h
              (tail-IsOldest id0 t0 m id1 t1 o d.0 gt)
      ]
]
