-- ===== src/Api/Router/Urls.antt =====
-- The addresses of the read API, src/api/mod.rs, and what axum documents of its tables of routes.
use spanfall.Prelude.{
  ℕ, ◌<◌, ◌^◌, ◌≡◌, ◌≢◌, Bool, false, Option, none, some, List, [], ◌∷◌, ◌++◌, nat_eq, list_beq,
  ℕ_eq, if◌then◌else◌, All, Exec, ok, ◌>>=◌,
}
use spanfall.Prelude.Text.{Text, text}
use spanfall.Prelude.Strings.{to_string}
use spanfall.Api
use spanfall.Api.Traces
use spanfall.Api.Attributes
use spanfall.Api.Filter.{Numbers}
use spanfall.Api.Filter.Matches
use spanfall.Api.Router.{
  ApiState, Handler, list_traces, get_trace, get_attributes, get_filter, get_receiver, get_events,
  get_lint, Reply, summaries, payload, entries, filtered, receiver_page, event, lint,
}

-- One more character before the first segment.
abbrev pub push : ℕ → List Text → List Text
push c [] = (c ∷ []) ∷ []
push c (s ∷ ss) = (c ∷ s) ∷ ss

-- A path between its slashes.
unfoldable pub segments : Text → List Text
segments [] = [] ∷ []
segments (c ∷ s) = let rest = segments s in if nat_eq c b'/' then [] ∷ rest else push c rest

-- A segment of a pattern that stands for a parameter.
abbrev pub is_parameter : Text → Bool
is_parameter [] = false
is_parameter (c ∷ s) = nat_eq c b'{'

abbrev pub with_value : Text → Option (List Text) → Option (List Text)
with_value v none = none
with_value v (some vs) = some (v ∷ vs)

-- The parameters of a path, one segment each and not empty, where it fits a pattern.
unfoldable pub fits : List Text → List Text → Option (List Text)
fits [] [] = some []
fits [] (s ∷ ss) = none
fits (p ∷ ps) [] = none
fits (p ∷ ps) ([] ∷ ss) = let rest = fits ps ss in if list_beq p [] then rest else none
fits (p ∷ ps) ((c ∷ s) ∷ ss) =
    let rest = fits ps ss in
    if is_parameter p then with_value (c ∷ s) rest else if list_beq p (c ∷ s) then rest else none

-- The routes of a table that a path fits.
unfoldable pub fitting {ℓ} : {H : Type ℓ} → List (Text × H) → List Text → List (H × List Text)
fitting [] path = []
fitting ((pattern_text, h) ∷ table) path =
    let rest = fitting table path in
    elim (fits (segments pattern_text) path) [ none ↦ rest | some vs ↦ (h, vs) ∷ rest ]

-- What axum documents of a table of routes: a path without escapes that fits one route only goes to
-- that route, with the segments in the places of its parameters.
abbrev pub RoutesAsDocumented :
    (List (Text × Handler) → Text → Option (Handler × List Text)) → Type 0
RoutesAsDocumented route =
    (table : List (Text × Handler)) (path : Text) (h : Handler) (values : List Text)
    → All (λ c. c ≢ b'%') path
    → fitting table (segments path) ≡ (h, values) ∷ []
    → route table path ≡ some (h, values)

-- The addresses of the read API.
pub data Url : Type 0 where
  traces : Url
  trace : Text → Url
  attributes : Text → ℕ → Url
  filter : Text → Url
  receiver events lints : Url

abbrev pub path_of : Url → Text
path_of traces = text "/api/traces"
path_of (trace id) = text "/api/traces/" ++ id
path_of (attributes id idx) =
    text "/api/traces/" ++ (id ++ (text "/spans/" ++ (to_string idx ++ text "/attributes")))
path_of (filter id) = text "/api/traces/" ++ (id ++ text "/filter")
path_of receiver = text "/api/receiver"
path_of events = text "/api/events"
path_of lints = text "/api/lint"

-- A segment: not empty, without slashes and escapes.
abbrev pub IsSegment : Text → Type 0
IsSegment [] = ⊥
IsSegment (c ∷ s) = All (λ x. (x ≢ b'/') × (x ≢ b'%')) (c ∷ s)

abbrev pub IsUrl : Url → Type 0
IsUrl traces = Unit
IsUrl (trace id) = IsSegment id
IsUrl (attributes id idx) = IsSegment id × (idx < 2 ^ 64)
IsUrl (filter id) = IsSegment id
IsUrl receiver = Unit
IsUrl events = Unit
IsUrl lints = Unit

-- The handler's own answer at an address.
abbrev pub answer_at : Numbers → ApiState → Text → Url → Exec Reply
answer_at n state q traces = do rows ← Traces.list_traces state.store; ok (summaries rows)
answer_at n state q (trace id) = do answer ← Traces.get_trace state.store id; ok (payload answer)
answer_at n state q (attributes id idx) = do
  answer ← Attributes.get_attributes state.store id idx
  ok (entries answer)
answer_at n state q (filter id) = do
  answer ← Matches.get_filter n state.store id q
  ok (filtered answer)
answer_at n state q receiver = ok (receiver_page (Api.get_receiver state.store state.receiver))
answer_at n state q events = ok (event (Api.event_data state.events_seq))
answer_at n state q lints = ok (lint Api.get_lint)

-- The handler of an address, and its parameters.
abbrev pub handler_of : Url → Handler
handler_of traces = list_traces
handler_of (trace id) = get_trace
handler_of (attributes id idx) = get_attributes
handler_of (filter id) = get_filter
handler_of receiver = get_receiver
handler_of events = get_events
handler_of lints = get_lint

abbrev pub values_at : Url → List Text
values_at (trace id) = id ∷ []
values_at (attributes id idx) = id ∷ to_string idx ∷ []
values_at (filter id) = id ∷ []
values_at traces = []
values_at receiver = []
values_at events = []
values_at lints = []
