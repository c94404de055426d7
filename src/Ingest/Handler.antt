-- ===== src/Ingest/Handler.antt =====
-- src/ingest/handler.rs, http.rs and grpc.rs: accepting a request. The outcome of the send on the
-- writer's channel and the clock's reading are inputs; `debug` is the text of `{reason:?}`.
pub mod Transports
pub mod Accounts
use spanfall.Prelude.{ℕ, Bool, Option, none, some, List, [], ◌∷◌, ◌++◌, length, Exec, ok, panic}
use spanfall.Prelude.Text.{Text, text}
use spanfall.Ingest.Convert.{
  ExportTraceServiceRequest, RejectReason, SpanBatch, Result, ok, err, convert,
}
use spanfall.Ingest.Receiver.{ReceiverState, Transport, push, record_arrival}

pub data IngestError : Type 0 where
  reject : RejectReason → IngestError
  conversion_panicked backpressure writer_gone : IngestError

-- How `timeout(self.ingest_timeout, self.tx.send(batch))` ends.
pub data SendOutcome : Type 0 where
  sent closed timed_out : SendOutcome

-- The batches that the channel took, in order, and the state that the handlers share.
pub record IngestState : Type 0 where
  pub queue : List SpanBatch
  pub receiver : ReceiverState

-- `catch_unwind(..).map_err(|_| ())`.
unfoldable pub catch_conversion_panic {ℓ} : {R : Type ℓ} → Exec R → Result {0, ℓ} Unit R
catch_conversion_panic (ok r) = ok r
catch_conversion_panic panic = err tt

unfoldable pub record_reject : IngestState → Text → ℕ → IngestState
record_reject s reason now = record s {
  receiver = record s.receiver { rejects = push s.receiver.rejects reason now };
}

-- The second half of `accept`: the send.
unfoldable pub send_batch :
    IngestState → SpanBatch → Transport → SendOutcome → IngestState × Result {0, 0} IngestError Unit
send_batch s batch transport sent = (
  record {
    queue = s.queue ++ batch ∷ [];
    receiver = record s.receiver {
      arrivals = record_arrival s.receiver.arrivals transport (length batch.spans);
    };
  },
  ok tt,
)
send_batch s batch transport closed = (s, err writer_gone)
send_batch s batch transport timed_out = (s, err backpressure)

-- `accept`, from what the conversion does.
unfoldable pub accept_conversion :
    (debug : RejectReason → Text)
    → IngestState
    → Exec (Result RejectReason SpanBatch)
    → Transport
    → SendOutcome
    → ℕ
    → IngestState × Result {0, 0} IngestError Unit
accept_conversion debug s conversion transport outcome now =
    elim (catch_conversion_panic conversion) [
      | ok (ok batch) ↦ send_batch s batch transport outcome
      | ok (err reason) ↦ (record_reject s (debug reason) now, err (reject reason))
      | err u ↦ (record_reject s (text "panic during conversion") now, err conversion_panicked)
    ]

unfoldable pub accept :
    (debug : RejectReason → Text)
    → IngestState
    → ExportTraceServiceRequest
    → Transport
    → SendOutcome
    → ℕ
    → IngestState × Result {0, 0} IngestError Unit
accept debug s request transport outcome now =
    accept_conversion debug s (ok (convert request)) transport outcome now
