-- ===== src/Ingest/Sniff/Misdirect.antt =====
-- What src/ingest/sniff.rs answers to a client that speaks HTTP/1.1 on the gRPC port.
use spanfall.Prelude.{
  map, take, ap₂, false, Option, none, some, ℕ, ◌≡◌, refl, ap, ◌∙◌, Bool, true, List, [], ◌∷◌, ◌++◌,
  All, arith,
}
use spanfall.Prelude.Text.{Text, text, as_bytes, str_len, utf8}
use spanfall.Prelude.Strings.{to_string, decimal_from, contains, starts_with}
use spanfall.Ingest.Convert.{Result, ok, err}
use spanfall.Json.{Value}
use spanfall.Client.{Stream, request_text, get_json}
use spanfall.Client.Response.{IsLine, IsLine-all_line_chars, IsHeader, response, get_json-response}
use spanfall.Ingest.Sniff.{
  Connection, Accept, connection, accept_error, Action, rejected, to_tonic, error_to_tonic, serve,
  reject_with_400, response_400, misdirect_body, looks_like_h2_preface,
}
use spanfall.Ingest.Sniff.Preface.{
  SeesPreface, looks_like_h2_preface_iff, looks_like_h2_preface-none_iff, Stalls,
}

abbrev pub status_400 : Text
status_400 = text "HTTP/1.1 400 Bad Request"

abbrev pub headers_400 : List Text
headers_400 =
    text "Content-Type: text/plain" ∷ text "Content-Length: 82" ∷ text "Connection: close" ∷ []

response_400_lem : response_400 ≡ response status_400 headers_400 misdirect_body
unfolding response_400 misdirect_body as_bytes utf8 str_len to_string decimal_from
response_400_lem = refl

-- An action that suits its connection: one with the preface goes to tonic as it is, and any other
-- one whose peeks end gets a well-formed response with status 400, whose length header counts its
-- body, as far as the connection takes it.
abbrev pub IsRight : Action → Type 0
IsRight (to_tonic c) = SeesPreface c.peek 0 5
IsRight (error_to_tonic e) = Unit
IsRight (rejected c raw) =
    (¬ SeesPreface c.peek 0 5)
    × (¬ Stalls c.peek 0 5)
    × (raw ≡ take c.takes (response status_400 headers_400 misdirect_body))

-- What an action is about.
abbrev pub subject : Action → Accept
subject (to_tonic c) = connection c
subject (error_to_tonic e) = accept_error e
subject (rejected c raw) = connection c

-- Why the loop takes nothing of what is left: there is nothing, or a silent client comes first.
abbrev pub HeldUp : List (Accept × Bool) → Type 0
HeldUp [] = Unit
HeldUp ((accept_error e, is_open) ∷ left) = ⊥
HeldUp ((connection c, is_open) ∷ left) = Stalls c.peek 0 5

-- What is accepted, split into what the actions answer, in order, and what is never answered.
pub record Serves (accepts : List (Accept × Bool)) (actions : List Action) : Type 0 where
  pub handled : List (Accept × Bool)
  pub left : List (Accept × Bool)
  pub split : accepts ≡ handled ++ left
  pub answered : map subject actions ≡ map (λ a. a.0) handled
  pub right : All IsRight actions
  pub held_up : HeldUp left

cons-Serves :
    (a : Accept × Bool) (accepts : List (Accept × Bool)) (act : Action) (actions : List Action)
    → subject act ≡ a.0
    → IsRight act
    → Serves accepts actions
    → Serves (a ∷ accepts) (act ∷ actions)
cons-Serves a accepts act actions about fits r = record {
  handled = a ∷ r.handled;
  left = r.left;
  split = ap (◌∷◌ a) r.split;
  answered = ap₂ (λ x xs. x ∷ xs) about r.answered;
  right = (fits, r.right);
  held_up = r.held_up;
}

connection-Serves :
    (c : Connection) (accepts : List (Accept × Bool)) (o : Option Bool)
    → looks_like_h2_preface c.peek ≡ o
    → Serves accepts (serve accepts)
    → Serves ((connection c, true) ∷ accepts) (serve ((connection c, true) ∷ accepts))
unfolding serve reject_with_400
connection-Serves c accepts none h r =
    rw (h, serve)
      (record {
        handled = [];
        left = (connection c, true) ∷ accepts;
        split = refl;
        answered = refl;
        right = tt;
        held_up = (looks_like_h2_preface-none_iff c.peek).0 h;
      })
connection-Serves c accepts (some true) h r =
    rw (h, serve)
      (cons-Serves (connection c, true) accepts (to_tonic c) (serve accepts) refl
        ((looks_like_h2_preface_iff c.peek).0 h) r)
connection-Serves c accepts (some false) h r =
    rw (h, serve)
      (cons-Serves (connection c, true) accepts (rejected c (take c.takes response_400))
        (serve accepts) refl
        (
          (λ seen. let e = (looks_like_h2_preface_iff c.peek).1 seen in absurd (cc)),
          (λ seen. let e = (looks_like_h2_preface-none_iff c.peek).1 seen in absurd (cc)),
          ap (take c.takes) response_400_lem,
        )
        r)

-- While tonic takes what is sent to it, the accept loop answers what is accepted in order, up to the
-- first connection with a peek that is never ready, after which it answers nothing: each connection
-- or error before that one leads to exactly one action. A connection goes to tonic if one of five
-- peeks shows the preface after short ones only, and otherwise it gets, as far as it takes it, a
-- well-formed response with status 400 and the right content length.
pub serve-Serves :
    (accepts : List (Accept × Bool))
    → All (λ a. a.1 ≡ true) accepts
    → Serves accepts (serve accepts)
unfolding serve
serve-Serves [] all = record {
  handled = [];
  left = [];
  split = refl;
  answered = refl;
  right = tt;
  held_up = tt;
}
serve-Serves ((accept_error e, is_open) ∷ accepts) all = rw all.0 (
    cons-Serves (accept_error e, true) accepts (error_to_tonic e) (serve accepts) refl tt
      (serve-Serves accepts all.1))
serve-Serves ((connection c, is_open) ∷ accepts) all =
    rw all.0 (connection-Serves c accepts _ refl (serve-Serves accepts all.1))

status_400-IsLine : IsLine status_400
status_400-IsLine = IsLine-all_line_chars status_400 refl

headers_400-IsHeader : All IsHeader headers_400
headers_400-IsHeader = (
  (IsLine-all_line_chars (text "Content-Type: text/plain") refl, omega arith),
  (
    (IsLine-all_line_chars (text "Content-Length: 82") refl, omega arith),
    ((IsLine-all_line_chars (text "Connection: close") refl, omega arith), tt),
  ),
)

-- A client like the one of src/client.rs that reads the response of the sniffer, for whatever path
-- and however it parses JSON, ends in an error that quotes the status line.
pub get_json-response_400 :
    (from_slice : List ℕ → Result {0, 0} Text Value) (stream : Stream) (addr path : Text)
    → stream.write_all (as_bytes (request_text addr path)) ≡ ok tt
    → stream.read_to_end (as_bytes (request_text addr path)) ≡ ok response_400
    → get_json from_slice (ok stream) addr path
      ≡ err (path ++ (text " returned `" ++ (status_400 ++ text "`")))
unfolding misdirect_body contains starts_with
get_json-response_400 from_slice stream addr path written read =
    get_json-response from_slice stream addr path status_400 headers_400 misdirect_body
      status_400-IsLine headers_400-IsHeader written (read ∙ ap ok response_400_lem)
