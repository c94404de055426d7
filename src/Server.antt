-- ===== src/Server.antt =====
-- `run_server` of src/main.rs and `spawn_writer` of src/store/writer.rs: how the handlers, the
-- bounded channel and the writer task run together. A request is one step, from its conversion to
-- the count of its spans, and so is a batch that the writer applies.
pub mod Flow
pub mod Drain
pub mod Page
pub mod Seen
pub mod Whole
pub mod Order
use spanfall.Prelude.{
  ℕ, ◌<◌, ◌≡◌, Bool, List, [], ◌∷◌, ◌++◌, length, Exec, ok, ◌>>=◌, if◌then◌else◌,
}
use spanfall.Prelude.Text.{Text}
use spanfall.Store.{Store, new as new_store}
use spanfall.Store.Writer.{Writer, apply_batch}
use spanfall.Ingest.Convert.{RejectReason, SpanBatch, Result}
use spanfall.Ingest.Receiver.{ReceiverState, default}
use spanfall.Ingest.Handler.{IngestState, IngestError, SendOutcome, sent, closed, timed_out, accept}
use spanfall.Ingest.Handler.Accounts.{Arrival}
use spanfall.Demo.{seed}

-- The capacity that `run_server` gives the channel.
abbrev pub channel_capacity : ℕ
channel_capacity = 1024

-- The batches on the channel, the state that the handlers share, and the writer's.
pub record Server : Type 0 where
  pub waiting : List SpanBatch
  pub receiver : ReceiverState
  pub writer : Writer

-- `spawn_writer(store, 1024)` and the states beside it.
unfoldable pub spawn : Store → Server
spawn store = record {
  waiting = [];
  receiver = default;
  writer = record { store = store; seq = 0 };
}

-- The store that `run_server` starts with.
unfoldable pub first_store : ℕ → Bool → Exec Store
first_store max_memory_bytes seed_demo =
    if seed_demo then seed (new_store max_memory_bytes) else ok (new_store max_memory_bytes)

-- A request at a transport: `accept` on the channel's sender and the shared state.
unfoldable pub arrive :
    (debug : RejectReason → Text) → Server → Arrival → Server × Result {0, 0} IngestError Unit
arrive debug s a =
    let (h, answer) =
      accept debug (record { queue = s.waiting; receiver = s.receiver }) a.request a.transport
        a.outcome a.now in
    (record s { waiting = h.queue; receiver = h.receiver }, answer)

-- How a send can end while the writer lives: only a channel with a free place takes a batch.
abbrev pub MayEnd : Server → SendOutcome → Type 0
MayEnd s sent = length s.waiting < channel_capacity
MayEnd s closed = ⊥
MayEnd s timed_out = Unit

-- The states that a server comes to, with the requests that it met and the batches that the writer
-- applied, in order.
pub data Reaches (debug : RejectReason → Text) (store : Store)
    : List Arrival → List (SpanBatch × ℕ) → Server → Type 0 where
  start : Reaches debug store [] [] (spawn store)
  request :
      {history : List Arrival} {applied : List (SpanBatch × ℕ)} {s : Server} (a : Arrival)
      → MayEnd s a.outcome
      → Reaches debug store history applied s
      → Reaches debug store (history ++ a ∷ []) applied (arrive debug s a).0
  apply :
      {history : List Arrival} {applied : List (SpanBatch × ℕ)} {s : Server} {batch : SpanBatch}
      {rest : List SpanBatch} {w : Writer} (now : ℕ)
      → s.waiting ≡ batch ∷ rest
      → apply_batch s.writer batch now ≡ ok w
      → Reaches debug store history applied s
      → Reaches debug store history
          (applied ++ (batch, now) ∷ [])
          (record s { waiting = rest; writer = w })
