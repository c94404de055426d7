-- ===== src/Api/Router.antt =====
-- src/api/mod.rs: the routes of the read API, and the state that the handlers share. axum's matching
-- of a path against the patterns of a table is a parameter.
pub mod Urls
pub mod Responses
use spanfall.Prelude.{ℕ, Option, none, some, List, [], ◌∷◌, Exec, ok, ◌>>=◌}
use spanfall.Prelude.Text.{Text, text}
use spanfall.Prelude.Strings.{parse_u64}
use spanfall.Store.{Store}
use spanfall.Ingest.Receiver.{ReceiverState}
use spanfall.Api
use spanfall.Api.{Answer, ReceiverResponse, LintResponse}
use spanfall.Api.Traces
use spanfall.Api.Traces.{TraceSummary, TracePayload}
use spanfall.Api.Attributes
use spanfall.Api.Attributes.{AttributeEntry}
use spanfall.Api.Filter.{Numbers}
use spanfall.Api.Filter.Matches
use spanfall.Api.Filter.Matches.{FilterResponse}

-- `events_seq` is what the `watch` channel holds.
pub record ApiState : Type 0 where
  pub store : Store
  pub receiver : ReceiverState
  pub events_seq : ℕ

-- The functions that the routes name.
pub data Handler : Type 0 where
  list_traces get_trace get_attributes get_filter get_receiver get_events get_lint : Handler

unfoldable pub router : List (Text × Handler)
router =
    (text "/api/traces", list_traces)
    ∷ (text "/api/traces/{id}", get_trace)
    ∷ (text "/api/traces/{id}/spans/{idx}/attributes", get_attributes)
    ∷ (text "/api/traces/{id}/filter", get_filter)
    ∷ (text "/api/receiver", get_receiver)
    ∷ (text "/api/events", get_events)
    ∷ (text "/api/lint", get_lint)
    ∷ []

-- What a request is answered with: a handler's answer, the first event of the stream, or axum's
-- answer to a path that has no route or whose parameters have not the types of the handler.
pub data Reply : Type 0 where
  summaries : List TraceSummary → Reply
  payload : Answer TracePayload → Reply
  entries : Answer (List AttributeEntry) → Reply
  filtered : Answer FilterResponse → Reply
  receiver_page : ReceiverResponse → Reply
  event : Text → Reply
  lint : LintResponse → Reply
  no_route bad_parameters : Reply

-- A handler on the state's parts that it extracts, the path's parameters and the parameter `q`.
unfoldable pub handle : Numbers → ApiState → Text → Handler → List Text → Exec Reply
handle n state q list_traces [] = do rows ← Traces.list_traces state.store; ok (summaries rows)
handle n state q get_trace (id ∷ []) = do
  answer ← Traces.get_trace state.store id
  ok (payload answer)
handle n state q get_attributes (id ∷ idx ∷ []) = elim (parse_u64 idx) [
  | none ↦ ok bad_parameters
  | some i ↦ do answer ← Attributes.get_attributes state.store id i; ok (entries answer)
]
handle n state q get_filter (id ∷ []) = do
  answer ← Matches.get_filter n state.store id q
  ok (filtered answer)
handle n state q get_receiver [] = ok (receiver_page (Api.get_receiver state.store state.receiver))
handle n state q get_events [] = ok (event (Api.event_data state.events_seq))
handle n state q get_lint [] = ok (lint Api.get_lint)
handle n state q handler values = ok bad_parameters

-- A `GET` of a path.
unfoldable pub respond :
    (route : List (Text × Handler) → Text → Option (Handler × List Text))
    → Numbers
    → ApiState
    → Text
    → Text
    → Exec Reply
respond route n state path q = elim (route router path) [
  | none ↦ ok no_route
  | some (handler, values) ↦ handle n state q handler values
]
