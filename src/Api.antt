-- ===== src/Api.antt =====
-- src/api: the handlers that read the store.
pub mod Filter
pub mod Traces
pub mod Attributes
pub mod Router
use spanfall.Prelude.{ℕ, List, [], ◌++◌, Exec, ok}
use spanfall.Prelude.Text.{Text, text}
use spanfall.Prelude.Strings.{to_string}
use spanfall.Counters.{Counters}
use spanfall.Store.{Store}
use spanfall.Json.{Value}
use spanfall.Ingest.Receiver.{ArrivalCounts, RejectRecord, ReceiverState, recent}

-- The answers of the handlers: 400, 404, or 200 with a body.
pub data Answer {ℓ} (A : Type ℓ) : Type ℓ where
  bad_request not_found : Answer A
  json : A → Answer A

-- src/api/receiver.rs.
pub record ReceiverResponse : Type 0 where
  pub arrivals : ArrivalCounts
  pub counters : Counters
  pub recent_rejects : List RejectRecord

unfoldable pub get_receiver : Store → ReceiverState → ReceiverResponse
get_receiver store receiver = record {
  arrivals = receiver.arrivals;
  counters = store.counters;
  recent_rejects = recent receiver.rejects;
}

-- src/api/events.rs: the data of one event, for a sequence number.
unfoldable pub event_data : ℕ → Text
event_data seq = text "{\"type\":\"changed\",\"seq\":" ++ (to_string seq ++ text "}")

-- src/api/lint.rs: the findings are JSON values, of which there are none yet.
pub record LintResponse : Type 0 where
  pub findings : List Value

unfoldable pub get_lint : LintResponse
get_lint = record { findings = [] }
