-- ===== src/Store/Insertion/Entries.antt =====
-- The trace that an insertion of src/store/mod.rs finds or makes, and the service name it interns.
use spanfall.Prelude.{
  ℕ, ◌+◌, ◌≤◌, ◌<◌, ◌^◌, ◌≡◌, refl, true, false, Option, none, some, List, [], length, arith,
  Option-cases, inl, inr, ◌==◌, is_some,
}
use spanfall.Prelude.Map
use spanfall.Prelude.Map.{Map}
use spanfall.Prelude.MapLaws.{AllValues-get}
use spanfall.Types.{TraceId, trace_id_eq, trace_id_beq_iff}
use spanfall.Interner.{Interner, intern}
use spanfall.Interner.Bounds.{intern-Interns, IsValid as Interner_IsValid}
use spanfall.Trace.{Trace, new as new_trace}
use spanfall.Trace.Refine.{header-Refines, new-Refines}
use spanfall.Trace.Attrs.{grows}
use spanfall.Prelude.{get_elem?, get_elem?_lt}
use spanfall.Store.{Store, intern_service, entry}
use spanfall.Store.Valid.{IdWithin, Stored, IsValid, Room, key_count, service_count}

-- What interning the service name promises.
pub record InternsService (i : Interner) (i' : Interner) (r : Option ℕ) : Type 0 where
  pub valid : Interner_IsValid i'
  pub more : length i.values ≤ length i'.values
  pub within : IdWithin (length i'.values) r

service_within :
    (i' : Interner) (r : Option ℕ) (s : List ℕ)
    → ((id : ℕ) → r ≡ some id → get_elem? i'.values id ≡ some s)
    → IdWithin (length i'.values) r
service_within i' none s h = tt
service_within i' (some id) s h = get_elem?_lt i'.values id (h id refl)

pub intern_service_lem :
    (i : Interner) (name : Option (List ℕ))
    → Interner_IsValid i
    → InternsService i (intern_service i name).0 (intern_service i name).1
unfolding intern_service
intern_service_lem i none v = record { valid = v; more = omega arith; within = tt }
intern_service_lem i (some s) v =
    let o = intern-Interns i s v in
    record {
      valid = o.valid;
      more = grows i.values (intern i s).0.values o.keeps;
      within = service_within (intern i s).0 (intern i s).1 s o.resolves;
    }

-- The entry that a span goes to: the trace that is there, or a new one.
pub record IsEntry (s : Store) (id : TraceId) (t : Trace) (generations : Map TraceId ℕ)
    : Type 0 where
  pub stored : Stored (key_count s) (service_count s) t
  pub small : (n : ℕ) → Room n s → length t.attr_keys + n < 2 ^ 32
  pub forgotten :
      (j : TraceId)
      → is_some (Map.get generations j) ≡ true
      → (id == j) ≡ false × Map.get s.traces j ≡ none

pub entry-IsEntry :
    (s : Store) (id : TraceId) (now : ℕ)
    → IsValid s
    → IsEntry s id (entry s id now).0 (entry s id now).1
unfolding entry new_trace
entry-IsEntry s id now v = elim (Option-cases (Map.get s.traces id)) [
  | inr (t, here) ↦
      rw (here, entry)
        (record {
          stored = AllValues-get (Stored (key_count s) (service_count s)) s.traces id v.traces here;
          small = λ n room.
              AllValues-get (λ t. length t.attr_keys + n < 2 ^ 32) s.traces id room.1 here;
          forgotten = λ j h. ground (arith, v.apart j h, trace_id_beq_iff id j);
        })
  | inl missing ↦
      rw (missing, entry)
        (record {
          stored = ([], header-Refines (new_trace id now) [] _ now (new-Refines id now), tt);
          small = λ n room. omega (arith, room.0);
          forgotten =
              λ j h. ground (arith, Map.get-remove s.evicted_generations id j, v.apart j, missing);
        })
]
