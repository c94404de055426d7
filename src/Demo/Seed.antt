-- ===== src/Demo/Seed.antt =====
-- src/demo.rs: what the seeded store holds.
use spanfall.Prelude.{
  dec_lt, of_ok, sym, ℕ, ◌+◌, ◌<◌, ◌^◌, ◌≡◌, ◌⊎◌, inl, inr, refl, ◌∙◌, subst, none, List, [], ◌∷◌,
  length, arith, ok, is_some, Option-cases,
}
use spanfall.Prelude.Map
use spanfall.Types.{TraceId, trace_id_eq}
use spanfall.Interner
use spanfall.Trace.{NewSpan}
use spanfall.Store.{Store, trace, new as new_store}
use spanfall.Store.Valid.{IsValid, Room, store_new-IsValid}
use spanfall.Store.Budget.{IsWithin, evict_over_budget-Settles, evict_within_budget}
use spanfall.Store.Writer.Runs.{attr_total, Room-le, Evicted-Room}
use spanfall.Store.View.{View, absorb, absorb_span, absorb_spans, Shows, ShowsAt, Spare}
use spanfall.Store.View.Batches.{
  insert_span-Shown, first_Room, first_Spare, left_in, get-keep_traces, Evicted-Shows,
}
use spanfall.Demo.Total.{total_approx_bytes-insert_all}
use spanfall.Demo.{
  checkout, anon, broken, drift, slow, search, checkout_spans, anon_spans, broken_spans,
  drift_spans, slow_spans, search_spans, demo_spans, insert_all, seed, span, search_leaves,
  search_span, to_be_bytes,
}

insert_all-Shows :
    (s : Store) (spans : List (TraceId × NewSpan)) (now n k l : ℕ) (m : View)
    → IsValid s
    → Room (attr_total spans + n) s
    → Spare s (attr_total spans + k) (length spans + l)
    → Shows s m
    → (s' : Store) × (insert_all s spans now ≡ ok s')
      × IsValid s'
      × Room n s'
      × Shows s' (absorb_spans m spans)
unfolding insert_all absorb_spans
insert_all-Shows s [] now n k l m v room spare sh =
    (s, refl, v, Room-le n (0 + n) s (omega arith) room, sh)
insert_all-Shows s ((id, x) ∷ spans) now n k l m v room spare sh =
    let one =
      insert_span-Shown s id x now (attr_total spans + n) (attr_total spans + k) (length spans + l)
        m v (first_Room s id x spans n room) (first_Spare s id x spans k l spare) sh in
    let (s', ret, valid, room', sh') =
      insert_all-Shows one.store spans (now + 1) n k l (absorb_span m id x) one.appended.valid
        one.appended.room one.spare one.shows in
    (s', rw one.returned ret, valid, room', sh')

-- The traces of the demonstration, each with its spans.
abbrev pub demo_view : View
demo_view =
    (checkout, checkout_spans)
    ∷ (anon, anon_spans)
    ∷ (broken, broken_spans)
    ∷ (drift, drift_spans)
    ∷ (slow, slow_spans)
    ∷ (search, search_spans)
    ∷ []

demo_spans-attr_total : attr_total demo_spans ≡ 2
unfolding demo_spans search_spans search_leaves search_span span
demo_spans-attr_total = refl

length-demo_spans : length demo_spans ≡ 211
unfolding demo_spans search_spans search_leaves
length-demo_spans = refl

absorb_spans-demo_spans : absorb_spans [] demo_spans ≡ demo_view
unfolding demo_spans search_spans search_leaves search_span span absorb_spans absorb_span absorb
    Map.insert to_be_bytes
absorb_spans-demo_spans = refl

-- Each trace of the demonstration is there with its spans, or it is not there; there is no other.
abbrev pub ShowsDemo : Store → Type 0
ShowsDemo s = (id : TraceId) → ShowsAt s id (Map.get demo_view id) ⊎ (trace s id ≡ none)

left_in-ShowsDemo : (s : Store) → Shows s (left_in s demo_view) → ShowsDemo s
unfolding trace
left_in-ShowsDemo s sh id =
    let look = get-keep_traces (λ id. is_some (trace s id)) demo_view id in
    elim (Option-cases (trace s id)) [
      | inl gone ↦ inr gone
      | inr (t, here) ↦
          let same : Map.get (left_in s demo_view) id ≡ Map.get demo_view id = look ∙ rw here in
          inl (subst (ShowsAt s id) same (sh id))
    ]

-- A seeded store, with room for `n` more attributes in each trace.
pub record Seeded (max_memory_bytes n : ℕ) : Type 0 where
  pub store : Store
  pub returned : seed (new_store max_memory_bytes) ≡ ok store
  pub valid : IsValid store
  pub room : Room n store
  pub within : IsWithin store
  pub shows : ShowsDemo store
  pub complete : (max_memory_bytes < 15375) ⊎ Shows store demo_view

pub seed-Seeded : (max_memory_bytes n : ℕ) → n + 2 < 2 ^ 32 → Seeded max_memory_bytes n
unfolding seed new_store trace Interner.new
seed-Seeded max_memory_bytes n h =
    let s0 = new_store max_memory_bytes in
    let room : Room (attr_total demo_spans + n) s0 = (omega (arith, demo_spans-attr_total), tt) in
    let spare : Spare s0 (attr_total demo_spans + 0) (length demo_spans + 0) = record {
      keys = omega (arith, demo_spans-attr_total);
      services = omega (arith, length-demo_spans);
    } in
    let (s1, ret1, valid1, room1, sh1) =
      insert_all-Shows s0 demo_spans 0 n 0 0 [] (store_new-IsValid max_memory_bytes) room spare
        (λ id. refl) in
    let (bytes, budget) = total_approx_bytes-insert_all max_memory_bytes s1 ret1 in
    let all = subst (Shows s1) absorb_spans-demo_spans sh1 in
    let (s2, ret2, e, within) = evict_over_budget-Settles s1 valid1 in
    let sh2 = Evicted-Shows s1 s2 demo_view e all in
    record {
      store = s2;
      returned = rw ret1 ret2;
      valid = e.valid;
      room = Evicted-Room s1 s2 n e room1;
      within = within;
      shows = left_in-ShowsDemo s2 sh2;
      complete = elim (dec_lt max_memory_bytes 15375) [
        | yes less ↦ inl less
        | no fits ↦
            let kept = evict_within_budget s1 15375 bytes (omega (arith, budget, fits)) in
            inr (subst (λ s. Shows s demo_view) (of_ok (sym kept ∙ ret2)) all)
      ];
    }

-- Seeding a new store of any budget ends without a panic. The store is then valid and within its
-- budget, or down to one trace; each of the six traces of the demonstration is in it with exactly
-- its spans, in order, or is not in it at all, and there is no other trace. With a budget of at
-- least 15375 bytes, all six of them are in it.
pub seed-ShowsDemo :
    (max_memory_bytes : ℕ)
    → (s : Store) × (seed (new_store max_memory_bytes) ≡ ok s)
      × IsValid s
      × IsWithin s
      × ShowsDemo s
      × ((max_memory_bytes < 15375) ⊎ Shows s demo_view)
seed-ShowsDemo max_memory_bytes =
    let d = seed-Seeded max_memory_bytes 0 (omega arith) in
    (d.store, d.returned, d.valid, d.within, d.shows, d.complete)
