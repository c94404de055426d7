-- ===== src/Server/Page.antt =====
-- What the receiver's page of src/api/receiver.rs says of a running server.
use spanfall.Prelude.{ℕ, ◌+◌, ◌%◌, ◌^◌, ◌≡◌, ap, ◌∙◌, List}
use spanfall.Prelude.Text.{Text}
use spanfall.Store.{Store}
use spanfall.Store.Valid.{IsValid, Room}
use spanfall.Store.Writer.Runs.{malformed_total}
use spanfall.Ingest.Convert.{RejectReason, SpanBatch}
use spanfall.Ingest.Receiver.{Transport, recent}
use spanfall.Ingest.Receiver.Ring.{last_hundred}
use spanfall.Ingest.Handler.Accounts.{
  Arrival, delivered, over, span_total, count_of, rejections, accept_all-Remembers,
}
use spanfall.Api.{ReceiverResponse, get_receiver}
use spanfall.Server.{Server, Reaches, spawn}
use spanfall.Server.Flow.{Reaches-Flows}
use spanfall.Server.Drain.{attrs_in, Reaches-Ran}

-- A page that tells the history of requests and of applied batches.
pub record Tells (debug : RejectReason → Text) (store : Store) (history : List Arrival)
    (applied : List (SpanBatch × ℕ)) (page : ReceiverResponse) : Type 0 where
  pub arrivals :
      (tr : Transport)
      → count_of page.arrivals tr % 2 ^ 64 ≡ span_total (delivered (over tr history)) % 2 ^ 64
  pub rejects : page.recent_rejects ≡ last_hundred (rejections debug history)
  pub malformed :
      page.counters.malformed_span % 2 ^ 64
      ≡ (store.counters.malformed_span + malformed_total applied) % 2 ^ 64

-- A server starts with a valid store, each trace of which has room for all attributes that the
-- channel took. In every state that it comes to, the receiver's page gives, for each transport and
-- modulo 2^64, the number of spans that its requests put on the channel; the last hundred records of
-- requests that the conversion rejected; and, modulo 2^64, the malformed spans of the applied
-- batches on top of those that the first store counted.
pub get_receiver-Tells :
    (debug : RejectReason → Text) (store : Store) (history : List Arrival)
    (applied : List (SpanBatch × ℕ)) (s : Server)
    → IsValid store
    → Room (attrs_in (delivered history)) store
    → Reaches debug store history applied s
    → Tells debug store history applied (get_receiver s.writer.store s.receiver)
unfolding get_receiver recent spawn
get_receiver-Tells debug store history applied s v room reached =
    let f = Reaches-Flows debug store history applied s reached in
    let past = accept_all-Remembers debug history in
    record {
      arrivals = λ tr. ap (λ r. count_of r.arrivals tr % 2 ^ 64) f.receiver ∙ past.arrivals tr;
      rejects = ap (λ r. r.rejects.ring) f.receiver ∙ past.ring;
      malformed = (Reaches-Ran debug store history applied s v room reached).malformed;
    }
