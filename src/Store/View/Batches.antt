-- ===== src/Store/View/Batches.antt =====
-- What the store shows after the batches that the writer applies (src/store/writer.rs).
mod Spans
use spanfall.Prelude.{
  ℕ, ◌+◌, ◌≡◌, refl, sym, ap, ◌∙◌, subst, Bool, Option, none, some, List, [], ◌∷◌, length, arith,
  Bool-cases, Option-cases, inl, inr, if◌then◌else◌, is_some, of_some, get_elem?, ok,
}
use spanfall.Prelude.Map
use spanfall.Prelude.Map.{Map}
use spanfall.Prelude.MapLaws.{none≢some}
use spanfall.Types.{TraceId, trace_id_eq, trace_id_beq_iff}
use spanfall.Trace.{Trace, NewSpan}
use spanfall.Counters.{add_u64}
use spanfall.Store.{Store, StoreInsertOutcome, insert_span_no_evict, trace}
use spanfall.Store.Valid.{IsValid, Room}
use spanfall.Store.Insertion.{insert_span_no_evict-Accepted}
use spanfall.Store.Budget.{Evicted, evict_over_budget-Settles}
use spanfall.Store.Writer.{Writer, append_spans, count_malformed, apply_batch, run}
use spanfall.Store.Writer.Runs.{
  attr_total, batches_attr_total, Appended, accepted-Appended, Evicted-Room, Room-le,
  IsValid-count_malformed,
}
use spanfall.Ingest.Convert.{SpanBatch}
use spanfall.Store.View.{View, absorb_span, absorb_spans, ShowsAt, Shows, TraceShows, Spare}
use spanfall.Store.View.Growth.{Grows, TraceShows-Grows, ShowsAt-Grows, Spare-same}
use spanfall.Store.View.Insertion.{insert_span-Shows, insert_span-Spare}
pub use Spans.{first_Room, first_Spare, Shown, insert_span-Shown, append_spans-Shows}

-- Some traces of a view.
unfoldable pub keep_traces : (TraceId → Bool) → View → View
keep_traces p [] = []
keep_traces p ((id, xs) ∷ m) = let rest = keep_traces p m in if p id then (id, xs) ∷ rest else rest

pub get-keep_traces :
    (p : TraceId → Bool) (m : View) (id : TraceId)
    → Map.get (keep_traces p m) id ≡ (if p id then Map.get m id else none)
unfolding keep_traces
get-keep_traces p [] id = elim (Bool-cases (p id)) [ inl t ↦ rw t | inr f ↦ rw f ]
get-keep_traces p ((j, xs) ∷ m) id = ground (arith, get-keep_traces p m id, trace_id_beq_iff j id)

Evicted-Grows : (s s' : Store) → Evicted s s' → Grows s s'
Evicted-Grows s s' e = record {
  keys = λ id t h. ap (λ i. get_elem? i.values id) e.key_table ∙ h;
  services = λ id t h. ap (λ i. get_elem? i.values id) e.service_table ∙ h;
}

-- The traces of the view that are still in the store.
abbrev pub left_in : Store → View → View
left_in s m = keep_traces (λ id. is_some (trace s id)) m

-- Eviction leaves the traces that it does not drop as they are.
pub Evicted-Shows : (s s' : Store) (m : View) → Evicted s s' → Shows s m → Shows s' (left_in s' m)
unfolding trace
Evicted-Shows s s' m e sh id = elim (Option-cases (trace s' id)) [
  | inl gone ↦
      let missing : Map.get (left_in s' m) id ≡ none =
        get-keep_traces (λ id. is_some (trace s' id)) m id ∙ rw gone in
      subst (ShowsAt s' id) (sym missing) gone
  | inr (t, here) ↦
      let same : Map.get (left_in s' m) id ≡ Map.get m id =
        get-keep_traces (λ id. is_some (trace s' id)) m id ∙ rw here in
      subst (ShowsAt s' id) (sym same) (go (Map.get m id) t here (sh id))
]
  where
    go :
        (o : Option (List NewSpan)) (t : Trace)
        → trace s' id ≡ some t
        → ShowsAt s id o
        → ShowsAt s' id o
    go none t here shown = absurd (none≢some shown (e.kept id t here))
    go (some xs) t here (u, found, shows) =
        let same : u ≡ t = of_some (sym found ∙ e.kept id t here) in
        (
          t,
          here,
          subst (λ t. TraceShows s' t xs) same
              (TraceShows-Grows s s' u xs (Evicted-Grows s s' e) shows),
        )

-- The views that a run of the writer goes through: each batch is absorbed, and then some traces may
-- be dropped whole.
pub data Sees : View → List (SpanBatch × ℕ) → View → Type 0 where
  done : {m : View} → Sees m [] m
  batch :
      {m m' : View} {b : SpanBatch} {now : ℕ} {batches : List (SpanBatch × ℕ)} (p : TraceId → Bool)
      → Sees (keep_traces p (absorb_spans m b.spans)) batches m'
      → Sees m ((b, now) ∷ batches) m'

abbrev pub batches_span_count : List (SpanBatch × ℕ) → ℕ
batches_span_count [] = 0
batches_span_count ((b, now) ∷ batches) = length b.spans + batches_span_count batches

pub count_malformed-Shows :
    (s : Store) (malformed : ℕ) (m : View) → Shows s m → Shows (count_malformed s malformed) m
unfolding count_malformed trace
count_malformed-Shows s malformed m sh id =
    ShowsAt-Grows s (count_malformed s malformed) id (Map.get m id)
      (record { keys = λ id t h. h; services = λ id t h. h }) refl (sh id)

apply_batch-Shows :
    (w : Writer) (b : SpanBatch) (now n k l : ℕ) (m : View)
    → IsValid w.store
    → Room (attr_total b.spans + n) w.store
    → Spare w.store (attr_total b.spans + k) (length b.spans + l)
    → Shows w.store m
    → (w' : Writer) × (apply_batch w b now ≡ ok w')
      × IsValid w'.store
      × Room n w'.store
      × Shows w'.store (left_in w'.store (absorb_spans m b.spans))
      × Spare w'.store k l
unfolding apply_batch
apply_batch-Shows w b now n k l m v room spare sh =
    let (s1, ret1, a, sh1, left) = append_spans-Shows w.store b.spans now n k l m v room spare sh in
    let s2 = count_malformed s1 b.malformed_span_count in
    let (s3, ret3, e, within) =
      evict_over_budget-Settles s2 (IsValid-count_malformed s1 b.malformed_span_count a.valid) in
    let room2 : Room n s2 = unfold count_malformed in a.room in
    let sh2 : Shows s2 (absorb_spans m b.spans) =
      count_malformed-Shows s1 b.malformed_span_count _ sh1 in
    (
      record { store = s3; seq = add_u64 w.seq 1 },
      rw (ret1, ret3),
      e.valid,
      Evicted-Room s2 s3 n e room2,
      Evicted-Shows s2 s3 (absorb_spans m b.spans) e sh2,
      Spare-same s2 s3 k l e.key_table e.service_table (
          Spare-same s1 s2 k l (unfold count_malformed in refl) (unfold count_malformed in refl)
            left),
    )

-- On a valid store that shows a view, with room for the attributes in every trace and for the
-- strings in both tables, the writer applies any batches without a panic, and the store it leaves
-- shows a view that comes of the first one by absorbing the batches in order, after each of which
-- some traces may be dropped whole: no span is lost, changed or given a wrong string otherwise.
pub run-Sees :
    (w : Writer) (batches : List (SpanBatch × ℕ)) (m : View)
    → IsValid w.store
    → Room (batches_attr_total batches) w.store
    → Spare w.store (batches_attr_total batches) (batches_span_count batches)
    → Shows w.store m
    → (w' : Writer) × (run w batches ≡ ok w')
      × ((m' : View) × Sees m batches m' × Shows w'.store m')
unfolding run
run-Sees w [] m v room spare sh = (w, refl, (m, done, sh))
run-Sees w ((b, now) ∷ batches) m v room spare sh =
    let (w1, ret1, v1, room1, sh1, left) =
      apply_batch-Shows w b now (batches_attr_total batches) (batches_attr_total batches)
        (batches_span_count batches) m v room spare sh in
    let (w2, ret2, (m', sees, sh2)) =
      run-Sees w1 batches (left_in w1.store (absorb_spans m b.spans)) v1 room1 left sh1 in
    (w2, rw ret1 ret2, (m', batch (λ id. is_some (trace w1.store id)) sees, sh2))
