-- ===== src/Store/View/Batches/Spans.antt =====
-- What the store shows after the spans of a batch are appended (src/store/writer.rs).
use spanfall.Prelude.{ℕ, ◌+◌, ◌≡◌, refl, ◌∙◌, List, [], ◌∷◌, length, arith, ok}
use spanfall.Types.{TraceId, trace_id_eq}
use spanfall.Trace.{NewSpan}
use spanfall.Store.{Store, StoreInsertOutcome, insert_span_no_evict}
use spanfall.Store.Valid.{IsValid, Room}
use spanfall.Store.Insertion.{insert_span_no_evict-Accepted}
use spanfall.Store.Writer.{append_spans}
use spanfall.Store.Writer.Runs.{attr_total, Appended, accepted-Appended, Room-le}
use spanfall.Store.View.{View, absorb_span, absorb_spans, Shows, Spare}
use spanfall.Store.View.Insertion.{insert_span-Shows, insert_span-Spare}

pub first_Room :
    (s : Store) (id : TraceId) (span : NewSpan) (spans : List (TraceId × NewSpan)) (n : ℕ)
    → Room (attr_total ((id, span) ∷ spans) + n) s
    → Room (length span.attributes + (attr_total spans + n)) s
first_Room s id span spans n room =
    Room-le (length span.attributes + (attr_total spans + n)) (attr_total ((id, span) ∷ spans) + n)
      s (omega arith) room

pub first_Spare :
    (s : Store) (id : TraceId) (span : NewSpan) (spans : List (TraceId × NewSpan)) (k l : ℕ)
    → Spare s (attr_total ((id, span) ∷ spans) + k) (length ((id, span) ∷ spans) + l)
    → Spare s (length span.attributes + (attr_total spans + k)) (1 + (length spans + l))
first_Spare s id span spans k l spare = record {
  keys = omega (arith, spare.keys);
  services = omega (arith, spare.services);
}

-- One more span for a store that shows a view.
pub record Shown (s : Store) (id : TraceId) (span : NewSpan) (now n k l : ℕ) (m : View)
    : Type 0 where
  pub store : Store
  pub outcome : StoreInsertOutcome
  pub returned : insert_span_no_evict s id span now ≡ ok (store, outcome)
  pub appended : Appended s n store
  pub shows : Shows store (absorb_span m id span)
  pub spare : Spare store k l

pub insert_span-Shown :
    (s : Store) (id : TraceId) (span : NewSpan) (now n k l : ℕ) (m : View)
    → IsValid s
    → Room (length span.attributes + n) s
    → Spare s (length span.attributes + k) (1 + l)
    → Shows s m
    → Shown s id span now n k l m
insert_span-Shown s id span now n k l m v room spare sh =
    let a = insert_span_no_evict-Accepted s id span now v n room in
    let one : Spare s (length span.attributes) 1 = record {
      keys = omega (arith, spare.keys);
      services = omega (arith, spare.services);
    } in
    record {
      store = a.store;
      outcome = _;
      returned = a.returned;
      appended = accepted-Appended s id span now n v room;
      shows = insert_span-Shows s id span now v n room m sh one;
      spare = insert_span-Spare s id span now v n room m sh one k l spare;
    }

pub append_spans-Shows :
    (s : Store) (spans : List (TraceId × NewSpan)) (now n k l : ℕ) (m : View)
    → IsValid s
    → Room (attr_total spans + n) s
    → Spare s (attr_total spans + k) (length spans + l)
    → Shows s m
    → (s' : Store) × (append_spans s spans now ≡ ok s')
      × Appended s n s'
      × Shows s' (absorb_spans m spans)
      × Spare s' k l
unfolding append_spans absorb_spans
append_spans-Shows s [] now n k l m v room spare sh = (
  s,
  refl,
  record { valid = v; room = Room-le n (0 + n) s (omega arith) room; malformed = refl },
  sh,
  record { keys = omega (arith, spare.keys); services = omega (arith, spare.services) },
)
append_spans-Shows s ((id, span) ∷ spans) now n k l m v room spare sh =
    let one =
      insert_span-Shown s id span now (attr_total spans + n) (attr_total spans + k)
        (length spans + l) m v (first_Room s id span spans n room)
        (first_Spare s id span spans k l spare) sh in
    let (s', ret, rest, sh', left') =
      append_spans-Shows one.store spans now n k l (absorb_span m id span) one.appended.valid
        one.appended.room one.spare one.shows in
    (
      s',
      rw one.returned ret,
      record {
        valid = rest.valid;
        room = rest.room;
        malformed = rest.malformed ∙ one.appended.malformed;
      },
      sh',
      left',
    )
