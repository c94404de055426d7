-- ===== src/Store/Budget.antt =====
-- The loop of `evict_over_budget` in src/store/mod.rs: it ends, and what it leaves.
mod Evictions
use spanfall.Prelude.{
  ℕ, zero, suc, ◌+◌, ◌-◌, ◌%◌, ◌≤◌, ◌<◌, ◌^◌, ◌≡◌, ◌⊎◌, refl, sym, ap, ◌∙◌, true, false, none, some,
  [], ◌∷◌, length, arith, Bool-cases, inl, inr, ◌==◌, is_some, of_some, Exec, ok, le→ltb-false,
}
use spanfall.Prelude.Map
use spanfall.Prelude.Map.{Map}
use spanfall.Prelude.MapLaws.{AllValues-remove, Distinct-remove, length-remove, none≢some}
use spanfall.Types.{TraceId, trace_id_eq, trace_id_beq_iff}
use spanfall.Counters.{add_u64}
use spanfall.Trace.{Trace}
use spanfall.Store.{Store, new}
use spanfall.Store.Evict.{
  total_approx_bytes, sum_approx_bytes, oldest_entry, oldest, evict, over_budget, evict_oldest,
  evict_loop, evict_over_budget,
}
use spanfall.Store.Sizes.{sum_approx_bytes_ok}
use spanfall.Store.Valid.{Stored, IsValid, key_count, service_count}
use spanfall.Store.Eviction.{IsOldest, oldest_entry-IsOldest, oldest_entry-some}
pub use Evictions.{Evicted}
use Evictions.{Evicted-step, Evicted-refl, s1, evict_lem, gone, s1_shorter, s1-IsValid}

-- The store fits the budget, or holds one trace at most.
pub IsWithin : Store → Type 0
IsWithin s =
    (b : ℕ) × (total_approx_bytes s ≡ ok b) × ((b ≤ s.max_memory_bytes) ⊎ (length s.traces ≤ 1))

-- What a run of the loop leaves.
abbrev pub Settles : Exec Store → Store → Type 0
Settles r s = (s' : Store) × (r ≡ ok s') × Evicted s s' × IsWithin s'

some-oldest :
    (m : Map TraceId Trace)
    → 1 < length m
    → (x : TraceId × Trace) × (oldest_entry m ≡ some x) × (oldest m ≡ some x.0)
unfolding oldest
some-oldest [] h = elim h [ ]
some-oldest (x0 ∷ m) h = let (x, e) = oldest_entry-some x0 m in (x, e, rw (e, oldest))

under_budget :
    (s : Store) (b : ℕ) → over_budget s b ≡ false → (b ≤ s.max_memory_bytes) ⊎ (length s.traces ≤ 1)
unfolding over_budget
under_budget s b h = ground arith

crowded : (s : Store) (b : ℕ) → over_budget s b ≡ true → 1 < length s.traces
unfolding over_budget
crowded s b h = ground arith

stop_round :
    (fuel : ℕ) (s : Store) (b : ℕ)
    → total_approx_bytes s ≡ ok b
    → over_budget s b ≡ false
    → evict_loop (suc fuel) s ≡ ok s
unfolding evict_loop
stop_round fuel s b total under = rw (total, under)

evict_round :
    (fuel : ℕ) (s : Store) (b : ℕ) (id : TraceId)
    → total_approx_bytes s ≡ ok b
    → over_budget s b ≡ true
    → oldest s.traces ≡ some id
    → evict_loop (suc fuel) s ≡ evict_loop fuel (evict s id)
unfolding evict_loop evict_oldest
evict_round fuel s b id total over chosen = rw (total, over, chosen)

total_ok : (s : Store) → IsValid s → (b : ℕ) × (total_approx_bytes s ≡ ok b)
unfolding total_approx_bytes
total_ok s v = sum_approx_bytes_ok (key_count s) (service_count s) s.traces v.traces

evict_loop-Settles :
    (fuel : ℕ) (s : Store) → IsValid s → length s.traces < fuel → Settles (evict_loop fuel s) s
unfolding IsWithin
evict_loop-Settles zero s v h = elim h [ ]
evict_loop-Settles (suc fuel) s v h =
    let (b, total) = total_ok s v in
    elim (Bool-cases (over_budget s b)) [
      | inr under ↦
          (s, stop_round fuel s b total under, Evicted-refl s v, (b, total, under_budget s b under))
      | inl over ↦
          let (x, chosen, first) = some-oldest s.traces (crowded s b over) in
          let o = oldest_entry-IsOldest s.traces x v.distinct chosen in
          let (s', ret, e, within) =
            evict_loop-Settles fuel (s1 s v x.0 x.1 o) (s1-IsValid s v x.0 x.1 o)
              (omega (arith, s1_shorter s v x.0 x.1 o)) in
          (
            s',
            evict_round fuel s b x.0 total over first
                ∙ ap (evict_loop fuel) (evict_lem s v x.0 x.1 o)
                ∙ ret,
            Evicted-step s v x.0 x.1 o s' e,
            within,
          )
    ]

-- On a valid store `evict_over_budget` ends and does not panic. What it leaves fits the budget or
-- holds one trace at most; it is valid, holds only traces of the store, none of them less recently
-- active than one that is gone, and remembers the generation of every trace that is gone; the
-- counter of evictions grows by their number, and nothing else changes.
pub evict_over_budget-Settles : (s : Store) → IsValid s → Settles (evict_over_budget s) s
unfolding evict_over_budget
evict_over_budget-Settles s v = evict_loop-Settles (suc (length s.traces)) s v (omega arith)

-- A store that fits the budget is left as it is.
pub evict_within_budget :
    (s : Store) (b : ℕ)
    → total_approx_bytes s ≡ ok b
    → b ≤ s.max_memory_bytes
    → evict_over_budget s ≡ ok s
unfolding evict_over_budget over_budget
evict_within_budget s b total fits =
    stop_round (length s.traces) s b total (rw (le→ltb-false s.max_memory_bytes b fits))

-- A new store holds nothing.
pub new-IsWithin : (max_memory_bytes : ℕ) → IsWithin (new max_memory_bytes)
unfolding IsWithin new total_approx_bytes sum_approx_bytes
new-IsWithin max_memory_bytes = (0, refl, inl (omega arith))
