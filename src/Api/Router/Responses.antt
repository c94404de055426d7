-- ===== src/Api/Router/Responses.antt =====
-- Which handler of src/api/mod.rs answers at each address.
use spanfall.Prelude.{
  ℕ, ◌≡◌, ◌≢◌, refl, ap, ◌∙◌, false, Option, List, [], ◌∷◌, ◌++◌, arith, nat_eq, ℕ_eq, All,
  All-append,
}
use spanfall.Prelude.Text.{Text, text}
use spanfall.Prelude.Strings.{to_string}
use spanfall.Prelude.Decimal.{IsDigit, to_string-digits, parse_u64-to_string}
use spanfall.Api.Filter.{Numbers}
use spanfall.Api.Router.{ApiState, Handler, router, handle, respond}
use spanfall.Api.Router.Urls.{
  segments, fits, fitting, RoutesAsDocumented, Url, traces, trace, attributes, filter, receiver,
  events, lints, path_of, IsSegment, IsUrl, answer_at, handler_of, values_at,
}

segments-plain :
    (c : ℕ) (s : Text)
    → All (λ x. (x ≢ b'/') × (x ≢ b'%')) (c ∷ s)
    → segments (c ∷ s) ≡ (c ∷ s) ∷ []
unfolding segments
segments-plain c [] h = ground (arith, h.0.0)
segments-plain c (d ∷ s) h =
    let other : nat_eq c b'/' ≡ false = ground (arith, h.0.0) in
    let rest = segments-plain d s h.1 in rw (other, rest)

segments-slash :
    (c : ℕ) (s rest : Text)
    → All (λ x. (x ≢ b'/') × (x ≢ b'%')) (c ∷ s)
    → segments (c ∷ s ++ b'/' ∷ rest) ≡ (c ∷ s) ∷ segments rest
unfolding segments
segments-slash c [] rest h = let other : nat_eq c b'/' ≡ false = ground (arith, h.0.0) in rw other
segments-slash c (d ∷ s) rest h =
    let other : nat_eq c b'/' ≡ false = ground (arith, h.0.0) in
    let later = segments-slash d s rest h.1 in rw (other, later)

-- The segments of an address.
abbrev segments_of : Url → List Text
segments_of traces = [] ∷ text "api" ∷ text "traces" ∷ []
segments_of (trace id) = [] ∷ text "api" ∷ text "traces" ∷ id ∷ []
segments_of (attributes id idx) =
    [] ∷ text "api" ∷ text "traces" ∷ id ∷ text "spans" ∷ to_string idx ∷ text "attributes" ∷ []
segments_of (filter id) = [] ∷ text "api" ∷ text "traces" ∷ id ∷ text "filter" ∷ []
segments_of receiver = [] ∷ text "api" ∷ text "receiver" ∷ []
segments_of events = [] ∷ text "api" ∷ text "events" ∷ []
segments_of lints = [] ∷ text "api" ∷ text "lint" ∷ []

digit-IsPlain : (s : Text) → All IsDigit s → All (λ x. (x ≢ b'/') × (x ≢ b'%')) s
digit-IsPlain [] h = tt
digit-IsPlain (c ∷ s) h = ((omega (arith, h.0), omega (arith, h.0)), digit-IsPlain s h.1)

segments-number :
    (n : ℕ) (rest : Text) → segments (to_string n ++ b'/' ∷ rest) ≡ to_string n ∷ segments rest
segments-number n rest =
    let (c, s, e, d, ds) = to_string-digits n in
    rw e (segments-slash c s rest (digit-IsPlain (c ∷ s) (d, ds)))

segments-path_of : (u : Url) → IsUrl u → segments (path_of u) ≡ segments_of u
unfolding segments
segments-path_of traces h = refl
segments-path_of (trace []) h = absurd h
segments-path_of (trace (c ∷ s)) h =
    ap (λ ss. [] ∷ text "api" ∷ text "traces" ∷ ss) (segments-plain c s h)
segments-path_of (attributes [] idx) h = absurd h.0
segments-path_of (attributes (c ∷ s) idx) h =
    ap (λ ss. [] ∷ text "api" ∷ text "traces" ∷ ss)
      (segments-slash c s (text "spans/" ++ (to_string idx ++ text "/attributes")) h.0
        ∙ ap (λ ss. (c ∷ s) ∷ text "spans" ∷ ss) (segments-number idx (text "attributes")))
segments-path_of (filter []) h = absurd h
segments-path_of (filter (c ∷ s)) h =
    ap (λ ss. [] ∷ text "api" ∷ text "traces" ∷ ss) (segments-slash c s (text "filter") h)
segments-path_of receiver h = refl
segments-path_of events h = refl
segments-path_of lints h = refl

-- An address fits its own route, and no other.
fitting-segments_of :
    (u : Url) → IsUrl u → fitting router (segments_of u) ≡ (handler_of u, values_at u) ∷ []
unfolding fitting router segments fits
fitting-segments_of traces h = refl
fitting-segments_of (trace []) h = absurd h
fitting-segments_of (trace (c ∷ s)) h = refl
fitting-segments_of (attributes [] idx) h = absurd h.0
fitting-segments_of (attributes (c ∷ s) idx) h =
    let (d, ds, e, digit, digits) = to_string-digits idx in rw e refl
fitting-segments_of (filter []) h = absurd h
fitting-segments_of (filter (c ∷ s)) h = refl
fitting-segments_of receiver h = refl
fitting-segments_of events h = refl
fitting-segments_of lints h = refl

plain : (s : Text) → All (λ x. (x ≢ b'/') × (x ≢ b'%')) s → All (λ x. x ≢ b'%') s
plain [] h = tt
plain (c ∷ s) h = (h.0.1, plain s h.1)

segment-plain : (s : Text) → IsSegment s → All (λ x. x ≢ b'%') s
segment-plain [] h = absurd h
segment-plain (c ∷ s) h = plain (c ∷ s) h

prefix-plain : All (λ x. x ≢ b'%') (text "/api/traces/")
prefix-plain = omega arith

number-plain : (n : ℕ) → All (λ x. x ≢ b'%') (to_string n)
number-plain n =
    let (c, s, e, d, ds) = to_string-digits n in
    rw e (plain (c ∷ s) (digit-IsPlain (c ∷ s) (d, ds)))

unescaped : (u : Url) → IsUrl u → All (λ x. x ≢ b'%') (path_of u)
unescaped traces h = omega arith
unescaped (trace id) h =
    All-append (λ x. x ≢ b'%') (text "/api/traces/") id prefix-plain (segment-plain id h)
unescaped (attributes id idx) h =
    All-append (λ x. x ≢ b'%') (text "/api/traces/")
      (id ++ (text "/spans/" ++ (to_string idx ++ text "/attributes"))) prefix-plain
      (All-append (λ x. x ≢ b'%') id (text "/spans/" ++ (to_string idx ++ text "/attributes"))
        (segment-plain id h.0)
        (All-append (λ x. x ≢ b'%') (text "/spans/") (to_string idx ++ text "/attributes")
          (omega arith)
          (All-append (λ x. x ≢ b'%') (to_string idx) (text "/attributes") (number-plain idx)
            (omega arith))))
unescaped (filter id) h =
    All-append (λ x. x ≢ b'%') (text "/api/traces/") (id ++ text "/filter") prefix-plain
      (All-append (λ x. x ≢ b'%') id (text "/filter") (segment-plain id h) (omega arith))
unescaped receiver h = omega arith
unescaped events h = omega arith
unescaped lints h = omega arith

handle-values_at :
    (n : Numbers) (state : ApiState) (q : Text) (u : Url)
    → IsUrl u
    → handle n state q (handler_of u) (values_at u) ≡ answer_at n state q u
unfolding handle
handle-values_at n state q traces h = refl
handle-values_at n state q (trace id) h = refl
handle-values_at n state q (attributes id idx) h = rw (handle, parse_u64-to_string idx h.1) refl
handle-values_at n state q (filter id) h = refl
handle-values_at n state q receiver h = refl
handle-values_at n state q events h = refl
handle-values_at n state q lints h = refl

-- If axum matches paths as it documents, then at each address of the read API, whose id is a segment
-- without slashes and escapes and whose index is a `usize`, the router calls exactly the handler of
-- that address, with the id and the index of the path.
pub respond-path_of :
    (route : List (Text × Handler) → Text → Option (Handler × List Text)) (n : Numbers)
    (state : ApiState) (u : Url) (q : Text)
    → RoutesAsDocumented route
    → IsUrl u
    → respond route n state (path_of u) q ≡ answer_at n state q u
unfolding respond
respond-path_of route n state u q documented h =
    let found =
      documented router (path_of u) (handler_of u) (values_at u) (unescaped u h)
        (ap (fitting router) (segments-path_of u h) ∙ fitting-segments_of u h) in
    rw (respond, found) (handle-values_at n state q u h)
