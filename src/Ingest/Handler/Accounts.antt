-- ===== src/Ingest/Handler/Accounts.antt =====
-- What a history of requests leaves behind `accept` of src/ingest/handler.rs: the batches on the
-- channel, the ring of rejects and the counts of arrivals.
mod Histories
use spanfall.Prelude.{
  ℕ, ◌+◌, ◌%◌, ◌^◌, ◌≡◌, refl, sym, ap, ◌∙◌, Bool, true, false, List, [], ◌∷◌, ◌++◌, append-nil,
  append_assoc, length, if◌then◌else◌, ok, arith, Bool-cases, inl, inr,
}
use spanfall.Prelude.Text.{Text}
use spanfall.Ingest.Convert.{
  ExportTraceServiceRequest, RejectReason, SpanBatch, Result, ok, err, convert,
}
use spanfall.Ingest.Receiver.{
  RejectRecord, ArrivalCounts, Transport, grpc_v4317, http_protobuf_v4318, http_json_v4318, push,
  record_arrival, default,
}
use spanfall.Ingest.Receiver.Ring.{last_hundred, push_lem}
use spanfall.Ingest.Handler.{
  IngestState, SendOutcome, sent, closed, timed_out, accept, accept_conversion, send_batch,
  record_reject, catch_conversion_panic,
}
unfoldable pub use Histories.{accept_all}
pub use Histories.{
  Arrival, rejection, rejected_if, rejections, delivered_if, delivered, span_total, same_transport,
  over, count_of, Step,
}
use Histories.{recorded, idle}

module _ (debug : RejectReason → Text) (s : IngestState) (a : Arrival) where
  -- `accept` on a conversion that gives `r`.
  abbrev with_result : Result RejectReason SpanBatch → IngestState
  with_result r = (accept_conversion debug s (ok r) a.transport a.outcome a.now).0

  unchanged :
      (e : Result RejectReason SpanBatch)
      → convert a.request ≡ e
      → delivered_if e a.outcome ≡ []
      → rejected_if debug a e ≡ []
      → Step debug s a s
  unchanged e h none_sent none_rejected = record {
    queue = rw (h, none_sent) (sym (append-nil s.queue));
    ring = λ history r. rw (h, none_rejected) (r ∙ ap last_hundred (sym (append-nil history)));
    arrivals = λ tr.
        rw (h, none_sent) (idle (same_transport tr a.transport) (count_of s.receiver.arrivals tr));
  }

  accept_conversion-Step :
      (r : Result RejectReason SpanBatch) (o : SendOutcome)
      → convert a.request ≡ r
      → a.outcome ≡ o
      → Step debug s a (accept_conversion debug s (ok r) a.transport o a.now).0
  unfolding accept_conversion catch_conversion_panic send_batch record_reject
  accept_conversion-Step (ok batch) sent h e = record {
    queue = rw (h, e);
    ring = λ history r. rw h (r ∙ ap last_hundred (sym (append-nil history)));
    arrivals = λ tr. rw (h, e) (recorded s.receiver.arrivals tr a.transport (length batch.spans));
  }
  accept_conversion-Step (ok batch) closed h e = unchanged (ok batch) h (rw e) refl
  accept_conversion-Step (ok batch) timed_out h e = unchanged (ok batch) h (rw e) refl
  accept_conversion-Step (err reason) o h e = record {
    queue = rw h (sym (append-nil s.queue));
    ring = λ history r. rw h (
        ap (λ ring. (push (record { ring = ring }) (debug reason) a.now).ring) r
        ∙ push_lem history (rejection debug a reason));
    arrivals = λ tr. rw h (idle (same_transport tr a.transport) (count_of s.receiver.arrivals tr));
  }

  pub accept-Step : Step debug s a (accept debug s a.request a.transport a.outcome a.now).0
  unfolding accept
  accept-Step = accept_conversion-Step (convert a.request) a.outcome refl refl

-- `s` is a state whose past is `past`, as far as the queue and the ring go, and whose counts are
-- `counts` modulo 2^64.
record Follows (s : IngestState) (queue : List SpanBatch) (past : List RejectRecord)
    (counts : Transport → ℕ) : Type 0 where
  queue_is : s.queue ≡ queue
  ring_is : s.receiver.rejects.ring ≡ last_hundred past
  counts_are : (tr : Transport) → count_of s.receiver.arrivals tr % 2 ^ 64 ≡ counts tr % 2 ^ 64

over-cons :
    (tr : Transport) (a : Arrival) (rest : List Arrival)
    → span_total (delivered (over tr (a ∷ rest)))
      ≡ (if same_transport tr a.transport
          then span_total (delivered_if (convert a.request) a.outcome)
          else 0)
        + span_total (delivered (over tr rest))
over-cons tr a rest = elim (Bool-cases (same_transport tr a.transport)) [
  | inl same ↦
      rw same
        (span_total-append (delivered_if (convert a.request) a.outcome) (delivered (over tr rest)))
  | inr other ↦ rw other (omega arith)
]
  where
    span_total-append :
        (xs ys : List SpanBatch) → span_total (xs ++ ys) ≡ span_total xs + span_total ys
    span_total-append [] ys = omega arith
    span_total-append (b ∷ bs) ys = omega (arith, span_total-append bs ys)

module _ (debug : RejectReason → Text) where
  accept_all-Follows :
      (s : IngestState) (queue : List SpanBatch) (past : List RejectRecord) (counts : Transport → ℕ)
      (history : List Arrival)
      → Follows s queue past counts
      → Follows
          (accept_all debug s history)
          (queue ++ delivered history)
          (past ++ rejections debug history)
          (λ tr. counts tr + span_total (delivered (over tr history)))
  unfolding accept_all
  accept_all-Follows s queue past counts [] f = record {
    queue_is = rw (append-nil queue) f.queue_is;
    ring_is = rw (append-nil past) f.ring_is;
    counts_are = λ tr. omega (arith, f.counts_are tr);
  }
  accept_all-Follows s queue past counts (a ∷ rest) f =
      let step = accept-Step debug s a in
      let s' = (accept debug s a.request a.transport a.outcome a.now).0 in
      let queue' = queue ++ delivered_if (convert a.request) a.outcome in
      let past' = past ++ rejected_if debug a (convert a.request) in
      let counts' : Transport → ℕ = λ tr.
        counts tr
        + (if same_transport tr a.transport
            then span_total (delivered_if (convert a.request) a.outcome)
            else 0) in
      let f' : Follows s' queue' past' counts' = record {
        queue_is =
            step.queue ∙ ap (λ q. q ++ delivered_if (convert a.request) a.outcome) f.queue_is;
        ring_is = step.ring past f.ring_is;
        counts_are = λ tr. omega (arith, step.arrivals tr, f.counts_are tr);
      } in
      let end = accept_all-Follows s' queue' past' counts' rest f' in
      record {
        queue_is =
            end.queue_is
            ∙ append_assoc queue (delivered_if (convert a.request) a.outcome) (delivered rest);
        ring_is =
            end.ring_is
            ∙ ap last_hundred (
                append_assoc past (rejected_if debug a (convert a.request))
                  (rejections debug rest));
        counts_are = λ tr. omega (arith, end.counts_are tr, over-cons tr a rest);
      }

-- The state that a history of requests leaves.
pub record Remembers (debug : RejectReason → Text) (history : List Arrival) (s : IngestState)
    : Type 0 where
  pub queue : s.queue ≡ delivered history
  pub ring : s.receiver.rejects.ring ≡ last_hundred (rejections debug history)
  pub arrivals :
      (tr : Transport)
      → count_of s.receiver.arrivals tr % 2 ^ 64 ≡ span_total (delivered (over tr history)) % 2 ^ 64

-- After any history of requests the channel took the batches of exactly those that are converted
-- and sent, in order; the ring holds the last hundred records of those that the conversion rejects;
-- and the count of each transport is, modulo 2^64, the number of spans sent over it.
pub accept_all-Remembers :
    (debug : RejectReason → Text) (history : List Arrival)
    → Remembers debug history (accept_all debug (record { queue = []; receiver = default }) history)
accept_all-Remembers debug history =
    let f =
      accept_all-Follows debug (record { queue = []; receiver = default }) [] [] (λ tr. 0) history
        (record { queue_is = refl; ring_is = refl; counts_are = none_yet }) in
    record { queue = f.queue_is; ring = f.ring_is; arrivals = λ tr. omega (arith, f.counts_are tr) }
  where
    none_yet : (tr : Transport) → count_of default.arrivals tr % 2 ^ 64 ≡ 0 % 2 ^ 64
    none_yet grpc_v4317 = refl
    none_yet http_protobuf_v4318 = refl
    none_yet http_json_v4318 = refl
