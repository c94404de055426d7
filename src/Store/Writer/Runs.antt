-- ===== src/Store/Writer/Runs.antt =====
-- The writer's loop of src/store/writer.rs: a run over any batches ends in a valid store.
use spanfall.Prelude.{
  ℕ, ◌+◌, ◌%◌, ◌^◌, ◌≤◌, ◌<◌, ◌≡◌, ◌⊎◌, inl, inr, refl, sym, ap, ◌∙◌, subst, List, [], ◌∷◌, length,
  ok, arith,
}
use spanfall.Prelude.MapLaws.{AllValues-insert, AllValues-mono, AllValues-get, AllValues_of_get}
use spanfall.Types.{TraceId, trace_id_eq}
use spanfall.Counters.{add_u64}
use spanfall.Trace.{NewSpan}
use spanfall.Store.{Store, count_insert}
use spanfall.Store.Valid.{IsValid, Room}
use spanfall.Store.Insertion.{Accepted, insert_span_no_evict-Accepted, entry-IsEntry}
use spanfall.Store.Budget.{Evicted, IsWithin, evict_over_budget-Settles}
use spanfall.Ingest.Convert.{SpanBatch}
use spanfall.Store.Writer.{Writer, append_spans, count_malformed, apply_batch, run}

abbrev pub attr_total : List (TraceId × NewSpan) → ℕ
attr_total [] = 0
attr_total ((id, span) ∷ spans) = length span.attributes + attr_total spans

abbrev pub batches_attr_total : List (SpanBatch × ℕ) → ℕ
batches_attr_total [] = 0
batches_attr_total ((batch, now) ∷ batches) = attr_total batch.spans + batches_attr_total batches

abbrev pub malformed_total : List (SpanBatch × ℕ) → ℕ
malformed_total [] = 0
malformed_total ((batch, now) ∷ batches) = batch.malformed_span_count + malformed_total batches

pub Room-le : (n m : ℕ) (s : Store) → n ≤ m → Room m s → Room n s
Room-le n m s h room = (
  omega (arith, room.0),
  AllValues-mono (λ t. length t.attr_keys + m < 2 ^ 32) (λ t. length t.attr_keys + n < 2 ^ 32)
      s.traces (λ t k. omega (arith, k)) room.1,
)

-- What one appended span leaves.
pub record Appended (s : Store) (n : ℕ) (s' : Store) : Type 0 where
  pub valid : IsValid s'
  pub room : Room n s'
  pub malformed : s'.counters.malformed_span ≡ s.counters.malformed_span

module _ (s : Store) (id : TraceId) (span : NewSpan) (now n : ℕ) (v : IsValid s)
    (room : Room (length span.attributes + n) s) where
  abbrev accepted : Accepted s id span now
  accepted = insert_span_no_evict-Accepted s id span now v n room

  Room-after : Room n accepted.store
  Room-after = subst (Room n) (sym accepted.is_store) (
    omega (arith, room.0),
    AllValues-insert (λ t. length t.attr_keys + n < 2 ^ 32) s.traces id accepted.after
        (Room-le n (length span.attributes + n) s (omega arith) room).1
        (omega (
          arith,
          accepted.grown,
          (entry-IsEntry s id now v).small (length span.attributes + n) room,
        )),
  )

  pub accepted-Appended : Appended s n (insert_span_no_evict-Accepted s id span now v n room).store
  unfolding count_insert
  accepted-Appended = record {
    valid = accepted.valid;
    room = Room-after;
    malformed = ap (λ x. x.counters.malformed_span) accepted.is_store;
  }

append_spans-Appended :
    (s : Store) (spans : List (TraceId × NewSpan)) (now n : ℕ)
    → IsValid s
    → Room (attr_total spans + n) s
    → (s' : Store) × (append_spans s spans now ≡ ok s') × Appended s n s'
unfolding append_spans
append_spans-Appended s [] now n v room =
    (s, refl, record { valid = v; room = Room-le n (0 + n) s (omega arith) room; malformed = refl })
append_spans-Appended s ((id, span) ∷ spans) now n v room =
    let room1 =
      Room-le (length span.attributes + (attr_total spans + n))
        (attr_total ((id, span) ∷ spans) + n) s (omega arith) room in
    let a = accepted s id span now (attr_total spans + n) v room1 in
    let one = accepted-Appended s id span now (attr_total spans + n) v room1 in
    let (s', ret, rest) = append_spans-Appended a.store spans now n one.valid one.room in
    (
      s',
      rw a.returned ret,
      record { valid = rest.valid; room = rest.room; malformed = rest.malformed ∙ one.malformed },
    )

-- What a run leaves of the writer.
pub record Ran (w : Writer) (batches : List (SpanBatch × ℕ)) (w' : Writer) : Type 0 where
  pub valid : IsValid w'.store
  pub within : (IsWithin w.store ⊎ (0 < length batches)) → IsWithin w'.store
  pub seq : w'.seq % 2 ^ 64 ≡ (w.seq + length batches) % 2 ^ 64
  pub malformed :
      w'.store.counters.malformed_span % 2 ^ 64
      ≡ (w.store.counters.malformed_span + malformed_total batches) % 2 ^ 64

pub Evicted-Room : (s s' : Store) (n : ℕ) → Evicted s s' → Room n s → Room n s'
Evicted-Room s s' n e room = (
  room.0,
  AllValues_of_get (λ t. length t.attr_keys + n < 2 ^ 32) s'.traces e.valid.distinct
      (λ id t h.
        AllValues-get (λ t. length t.attr_keys + n < 2 ^ 32) s.traces id room.1 (e.kept id t h)),
)

pub IsValid-count_malformed :
    (s : Store) (malformed : ℕ) → IsValid s → IsValid (count_malformed s malformed)
unfolding count_malformed
IsValid-count_malformed s malformed v = record {
  traces = v.traces;
  distinct = v.distinct;
  keys = v.keys;
  services = v.services;
  apart = v.apart;
}

pub apply_batch_lem :
    (w : Writer) (batch : SpanBatch) (now n : ℕ)
    → IsValid w.store
    → Room (attr_total batch.spans + n) w.store
    → (w' : Writer) × (apply_batch w batch now ≡ ok w')
      × Room n w'.store
      × IsWithin w'.store
      × Ran w ((batch, now) ∷ []) w'
unfolding apply_batch count_malformed
apply_batch_lem w batch now n v room =
    let (s1, ret1, a) = append_spans-Appended w.store batch.spans now n v room in
    let s2 = count_malformed s1 batch.malformed_span_count in
    let v2 = IsValid-count_malformed s1 batch.malformed_span_count a.valid in
    let (s3, ret3, e, within) = evict_over_budget-Settles s2 v2 in
    (
      record { store = s3; seq = add_u64 w.seq 1 },
      rw (ret1, ret3),
      Evicted-Room s2 s3 n e a.room,
      within,
      record {
        valid = e.valid;
        within = λ h. within;
        seq = omega arith;
        malformed = omega (arith, ap (λ c. c.malformed_span) e.other_counters, a.malformed);
      },
    )

-- From a valid store in which every trace has room for all attributes of the batches, the writer
-- applies the batches without a panic. The store it leaves is valid, and within the budget, or down
-- to one trace, if there was a batch or it was so before; the sequence number grows by the number of
-- batches and the counter of malformed spans by those of the batches, both modulo 2^64.
pub run-Ran :
    (w : Writer) (batches : List (SpanBatch × ℕ))
    → IsValid w.store
    → Room (batches_attr_total batches) w.store
    → (w' : Writer) × (run w batches ≡ ok w') × Ran w batches w'
unfolding run
run-Ran w [] v room = (
  w,
  refl,
  record {
    valid = v;
    within = λ h. elim h [ inl was ↦ was | inr more ↦ elim more [ ] ];
    seq = omega arith;
    malformed = omega arith;
  },
)
run-Ran w ((batch, now) ∷ batches) v room =
    let (w1, ret1, room1, within1, one) =
      apply_batch_lem w batch now (batches_attr_total batches) v room in
    let (w2, ret2, rest) = run-Ran w1 batches one.valid room1 in
    (
      w2,
      rw ret1 ret2,
      record {
        valid = rest.valid;
        within = λ h. rest.within (inl within1);
        seq = omega (arith, rest.seq, one.seq);
        malformed = omega (arith, rest.malformed, one.malformed);
      },
    )
