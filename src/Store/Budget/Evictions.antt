-- ===== src/Store/Budget/Evictions.antt =====
-- One eviction after another from the store of src/store/mod.rs: what is gone and what stays.
use spanfall.Prelude.{
  ◌+◌, ◌-◌, ◌%◌, ◌≤◌, ◌^◌, ◌≡◌, refl, sym, ap, ◌∙◌, true, false, none, some, length, arith,
  Bool-cases, inl, inr, ◌==◌, is_some, of_some,
}
use spanfall.Prelude.Map
use spanfall.Prelude.Map.{Map}
use spanfall.Prelude.MapLaws.{AllValues-remove, Distinct-remove, length-remove, none≢some}
use spanfall.Types.{TraceId, trace_id_eq, trace_id_beq_iff}
use spanfall.Counters.{add_u64}
use spanfall.Trace.{Trace}
use spanfall.Store.{Store}
use spanfall.Store.Evict.{evict}
use spanfall.Store.Valid.{Stored, IsValid, key_count, service_count}
use spanfall.Store.Eviction.{IsOldest}

-- `s'` is `s` after some evictions.
pub record Evicted (s s' : Store) : Type 0 where
  pub valid : IsValid s'
  pub kept :
      (id : TraceId) (t : Trace) → Map.get s'.traces id ≡ some t → Map.get s.traces id ≡ some t
  pub oldest_first :
      (id : TraceId) (t : Trace) (id' : TraceId) (t' : Trace)
      → Map.get s.traces id ≡ some t
      → Map.get s'.traces id ≡ none
      → Map.get s'.traces id' ≡ some t'
      → t.last_activity_unix_nano ≤ t'.last_activity_unix_nano
  pub remembered :
      (id : TraceId) (t : Trace)
      → Map.get s.traces id ≡ some t
      → Map.get s'.traces id ≡ none
      → Map.get s'.evicted_generations id ≡ some t.generation
  pub other_generations :
      (id : TraceId)
      → Map.get s.traces id ≡ none
      → Map.get s'.evicted_generations id ≡ Map.get s.evicted_generations id
  pub shrinks : length s'.traces ≤ length s.traces
  pub counted :
      s'.counters.evicted_traces % 2 ^ 64
      ≡ (s.counters.evicted_traces + (length s.traces - length s'.traces)) % 2 ^ 64
  pub other_counters :
      record s'.counters { evicted_traces = 0 } ≡ record s.counters { evicted_traces = 0 }
  pub key_table : s'.key_interner ≡ s.key_interner
  pub service_table : s'.service_interner ≡ s.service_interner
  pub budget : s'.max_memory_bytes ≡ s.max_memory_bytes

pub Evicted-refl : (s : Store) → IsValid s → Evicted s s
Evicted-refl s v = record {
  valid = v;
  kept = λ id t h. h;
  oldest_first = λ id t id' t' h gone h'. absurd (none≢some gone h);
  remembered = λ id t h gone. absurd (none≢some gone h);
  other_generations = λ id h. refl;
  shrinks = omega arith;
  counted = omega arith;
  other_counters = refl;
  key_table = refl;
  service_table = refl;
  budget = refl;
}

module _ (s : Store) (v : IsValid s) (id : TraceId) (t : Trace) (o : IsOldest s.traces id t) where
  abbrev pub s1 : Store
  s1 = record s {
    traces = Map.remove s.traces id;
    evicted_generations = Map.insert s.evicted_generations id t.generation;
    counters = record s.counters { evicted_traces = add_u64 s.counters.evicted_traces 1 };
  }

  pub evict_lem : evict s id ≡ s1
  unfolding evict
  evict_lem = rw (o.here, evict)

  pub gone : (j : TraceId) → (id == j) ≡ true → Map.get s1.traces j ≡ none
  gone j eq = rw (Map.get-remove s.traces id j, eq)

  stays : (j : TraceId) → (id == j) ≡ false → Map.get s1.traces j ≡ Map.get s.traces j
  stays j ne = rw (Map.get-remove s.traces id j, ne)

  pub s1_shorter : length s1.traces + 1 ≡ length s.traces
  s1_shorter = length-remove s.traces id t v.distinct o.here

  found : (j : TraceId) → (id == j) ≡ true → Map.get s.traces j ≡ some t
  found j eq = sym (ap (Map.get s.traces) ((trace_id_beq_iff id j).0 eq)) ∙ o.here

  s1-apart :
      (j : TraceId) → is_some (Map.get s1.evicted_generations j) ≡ true → Map.get s1.traces j ≡ none
  s1-apart j h = elim (Bool-cases (id == j)) [
    | inl eq ↦ gone j eq
    | inr ne ↦
        stays j ne
        ∙ v.apart j (rw (Map.get-insert s.evicted_generations id j t.generation, ne) at h)
  ]

  pub s1-IsValid : IsValid s1
  s1-IsValid = record {
    traces = AllValues-remove (Stored (key_count s) (service_count s)) s.traces id v.traces;
    distinct = Distinct-remove s.traces id v.distinct;
    keys = v.keys;
    services = v.services;
    apart = s1-apart;
  }

  module _ (s' : Store) (e : Evicted s1 s') where
    then_kept :
        (j : TraceId) (u : Trace) → Map.get s'.traces j ≡ some u → Map.get s.traces j ≡ some u
    then_kept j u h = elim (Bool-cases (id == j)) [
      | inl eq ↦ absurd (none≢some (gone j eq) (e.kept j u h))
      | inr ne ↦ sym (stays j ne) ∙ e.kept j u h
    ]

    then_oldest_first :
        (j : TraceId) (u : Trace) (k : TraceId) (w : Trace)
        → Map.get s.traces j ≡ some u
        → Map.get s'.traces j ≡ none
        → Map.get s'.traces k ≡ some w
        → u.last_activity_unix_nano ≤ w.last_activity_unix_nano
    then_oldest_first j u k w h out h' = elim (Bool-cases (id == j)) [
      | inl eq ↦ omega (
        arith,
        ap (λ x. x.last_activity_unix_nano) (of_some (sym (found j eq) ∙ h)),
        o.least k w (then_kept k w h'),
      )
      | inr ne ↦ e.oldest_first j u k w (stays j ne ∙ h) out h'
    ]

    then_remembered :
        (j : TraceId) (u : Trace)
        → Map.get s.traces j ≡ some u
        → Map.get s'.traces j ≡ none
        → Map.get s'.evicted_generations j ≡ some u.generation
    then_remembered j u h out = elim (Bool-cases (id == j)) [
      | inl eq ↦
          e.other_generations j (gone j eq)
          ∙ rw (Map.get-insert s.evicted_generations id j t.generation, eq)
              (ap (λ x. some x.generation) (of_some (sym (found j eq) ∙ h)))
      | inr ne ↦ e.remembered j u (stays j ne ∙ h) out
    ]

    then_other_generations :
        (j : TraceId)
        → Map.get s.traces j ≡ none
        → Map.get s'.evicted_generations j ≡ Map.get s.evicted_generations j
    then_other_generations j h = elim (Bool-cases (id == j)) [
      | inl eq ↦ absurd (none≢some h (found j eq))
      | inr ne ↦
          e.other_generations j (stays j ne ∙ h)
          ∙ rw (Map.get-insert s.evicted_generations id j t.generation, ne)
    ]

    pub Evicted-step : Evicted s s'
    Evicted-step = record {
      valid = e.valid;
      kept = then_kept;
      oldest_first = then_oldest_first;
      remembered = then_remembered;
      other_generations = then_other_generations;
      shrinks = omega (arith, e.shrinks, s1_shorter);
      counted = omega (arith, e.counted, e.shrinks, s1_shorter);
      other_counters = e.other_counters;
      key_table = e.key_table;
      service_table = e.service_table;
      budget = e.budget;
    }
