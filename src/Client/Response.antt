-- ===== src/Client/Response.antt =====
-- What `get_json` of src/client.rs makes of a well-formed HTTP response.
use spanfall.Prelude.{
  ℕ, suc, ◌+◌, ◌<◌, ◌≡◌, ◌≢◌, refl, sym, ap, ap₂, ◌∙◌, true, false, some, List, [], ◌∷◌, ◌++◌,
  append_assoc, append-nil, length, length-append, take, drop, take-append, drop-append, All,
  All-append, arith, nat_eq, ltb, not, ◌&&◌, Bool, if◌then◌else◌,
}
use spanfall.Prelude.Text.{Text, text, as_bytes}
use spanfall.Prelude.Strings.{starts_with, contains}
use spanfall.Prelude.Utf8.{
  from_utf8_lossy, from_utf8_lossy-ascii, lines-first, lines-one, unless_empty,
}
use spanfall.Ingest.Convert.{Result, ok, err}
use spanfall.Json.{Value}
use spanfall.Client.{
  Stream, position_of_blank_line, status_line_of, check_status, split_response, parse_body,
  parse_response, request_text, after_read, after_write, get_json,
}

-- A line of a response: ASCII characters, none of which ends a line.
abbrev pub IsLine : Text → Type 0
IsLine s = All (λ c. (c < 0x80) × (c ≢ b'\r') × (c ≢ b'\n')) s

abbrev pub line_char : ℕ → Bool
line_char c = ltb c 0x80 && (not (nat_eq c b'\r') && not (nat_eq c b'\n'))

-- A literal is a line if a test on each character says so.
abbrev pub all_line_chars : Text → Bool
all_line_chars [] = true
all_line_chars (c ∷ s) = line_char c && all_line_chars s

pub IsLine-all_line_chars : (s : Text) → all_line_chars s ≡ true → IsLine s
IsLine-all_line_chars [] h = tt
IsLine-all_line_chars (c ∷ s) h =
    let both : (line_char c ≡ true) × (all_line_chars s ≡ true) = ground arith in
    (ground (arith, both.0), IsLine-all_line_chars s both.1)

abbrev pub header_text : List Text → Text
header_text [] = []
header_text (h ∷ hs) = text "\r\n" ++ (h ++ header_text hs)

-- The bytes of a response.
abbrev pub response : Text → List Text → List ℕ → List ℕ
response status headers body = (status ++ header_text headers) ++ (text "\r\n\r\n" ++ body)

abbrev pub IsHeader : Text → Type 0
IsHeader h = IsLine h × (0 < length h)

All-weaken {ℓ κ μ} :
    {A : Type ℓ} {P : A → Type κ} {Q : A → Type μ} (xs : List A)
    → ((x : A) → P x → Q x)
    → All P xs
    → All Q xs
All-weaken [] f h = tt
All-weaken (x ∷ xs) f h = (f x h.0, All-weaken xs f h.1)

-- A line has no blank line in it.
position-line :
    (s rest : List ℕ) (n : ℕ)
    → IsLine s
    → position_of_blank_line rest ≡ some n
    → position_of_blank_line (s ++ rest) ≡ some (length s + n)
unfolding position_of_blank_line starts_with
position-line [] rest n h e = e ∙ ap some (let z : n ≡ 0 + n = omega arith in z)
position-line (c ∷ s) rest n h e =
    rw
      (
        let other : nat_eq c b'\r' ≡ false = ground (arith, h.0.1) in other,
        position-line s rest n h.1 e,
      )
      (ap some (let z : suc (length s + n) ≡ suc (length s) + n = omega arith in z))

position-header :
    (h rest : List ℕ) (n : ℕ)
    → IsHeader h
    → position_of_blank_line rest ≡ some n
    → position_of_blank_line (text "\r\n" ++ (h ++ rest)) ≡ some (2 + length h + n)
unfolding position_of_blank_line starts_with
position-header [] rest n (l, more) e = elim more [ ]
position-header (c ∷ h) rest n (l, more) e =
    rw
      (
        let other : nat_eq c b'\r' ≡ false = ground (arith, l.0.1) in other,
        position-line h rest n l.1 e,
      )
      (ap some (let z : suc (suc (suc (length h + n))) ≡ 2 + suc (length h) + n = omega arith in z))

position-header_text :
    (hs : List Text) (body : List ℕ)
    → All IsHeader hs
    → position_of_blank_line (header_text hs ++ (text "\r\n\r\n" ++ body))
      ≡ some (length (header_text hs))
unfolding position_of_blank_line starts_with
position-header_text [] body h = refl
position-header_text (h ∷ hs) body is =
    let rest = header_text hs ++ (text "\r\n\r\n" ++ body) in
    ap (λ t. position_of_blank_line (text "\r\n" ++ t))
      (append_assoc h (header_text hs) (text "\r\n\r\n" ++ body))
    ∙ position-header h rest (length (header_text hs)) is.0 (position-header_text hs body is.1)
    ∙ ap some (
        let z : 2 + length h + length (header_text hs) ≡ length (header_text (h ∷ hs)) =
          omega (arith, length-append h (header_text hs)) in
        z)

header_text-ascii : (hs : List Text) → All IsHeader hs → All (λ c. c < 0x80) (header_text hs)
header_text-ascii [] h = tt
header_text-ascii (h ∷ hs) is = (
  omega arith,
  (
    omega arith,
    All-append (λ c. c < 0x80) h (header_text hs) (All-weaken h (λ c l. l.0) is.0.0)
        (header_text-ascii hs is.1),
  ),
)

status_line_of-head :
    (status : Text) (hs : List Text)
    → IsLine status
    → status_line_of (status ++ header_text hs) ≡ status
unfolding status_line_of unless_empty
status_line_of-head status [] l =
    ap (λ s. status_line_of s) (append-nil status)
    ∙ ap first (lines-one status (All-weaken status (λ c l. l.2) l))
    ∙ only status
  where
    first : List Text → Text
    first ls = elim ls [ [] ↦ [] | line ∷ _ ↦ line ]

    only : (s : Text) → (elim (unless_empty s []) [ [] ↦ [] | line ∷ _ ↦ line ]) ≡ s
    only [] = refl
    only (c ∷ s) = refl
status_line_of-head status (h ∷ hs) l =
    let (more, e) = lines-first status (h ++ header_text hs) (All-weaken status (λ c l. l.2) l) in
    ap (λ ls. elim ls [ [] ↦ [] | line ∷ _ ↦ line ]) e

parse_response-response :
    (from_slice : List ℕ → Result {0, 0} Text Value) (addr path status : Text) (headers : List Text)
    (body : List ℕ)
    → IsLine status
    → All IsHeader headers
    → parse_response from_slice addr path (response status headers body)
      ≡ check_status from_slice path status body
unfolding parse_response split_response
parse_response-response from_slice addr path status headers body l is =
    let head = status ++ header_text headers in
    let found : position_of_blank_line (response status headers body) ≡ some (length head) =
      ap position_of_blank_line
        (append_assoc status (header_text headers) (text "\r\n\r\n" ++ body))
      ∙ position-line status (header_text headers ++ (text "\r\n\r\n" ++ body))
          (length (header_text headers)) l (position-header_text headers body is)
      ∙ ap some (sym (length-append status (header_text headers))) in
    let head_ascii =
      All-append (λ c. c < 0x80) status (header_text headers) (All-weaken status (λ c l. l.0) l)
        (header_text-ascii headers is) in
    let rest : drop (length head + 4) (response status headers body) ≡ body =
      ap₂ drop
        (let z : length head + 4 ≡ length (head ++ text "\r\n\r\n") =
            omega (arith, length-append head (text "\r\n\r\n")) in
          z)
        (sym (append_assoc head (text "\r\n\r\n") body))
      ∙ drop-append (head ++ text "\r\n\r\n") body in
    let status_line : status_line_of
          (from_utf8_lossy (take (length head) (response status headers body)))
        ≡ status =
      ap (λ h. status_line_of (from_utf8_lossy h)) (take-append head (text "\r\n\r\n" ++ body))
      ∙ ap status_line_of (from_utf8_lossy-ascii head head_ascii)
      ∙ status_line_of-head status headers l in
    ap (split_response from_slice addr path (response status headers body)) found
    ∙ ap₂ (check_status from_slice path) status_line rest

-- A peer that takes the request and answers with a well-formed response, whose status line and
-- headers are ASCII lines, none of the headers empty: if the status line contains " 200 ", `get_json`
-- gives what the JSON parser makes of the body, its error wrapped, and otherwise an error that
-- quotes the status line.
pub get_json-response :
    (from_slice : List ℕ → Result {0, 0} Text Value) (stream : Stream) (addr path status : Text)
    (headers : List Text) (body : List ℕ)
    → IsLine status
    → All IsHeader headers
    → stream.write_all (as_bytes (request_text addr path)) ≡ ok tt
    → stream.read_to_end (as_bytes (request_text addr path)) ≡ ok (response status headers body)
    → get_json from_slice (ok stream) addr path ≡ (
        if contains status (text " 200 ")
        then (elim (from_slice body) [
          | ok v ↦ ok v
          | err e ↦ err (text "parsing response from " ++ (path ++ (text ": " ++ e)))
        ])
        else err (path ++ (text " returned `" ++ (status ++ text "`"))))
unfolding get_json after_write after_read check_status parse_body
get_json-response from_slice stream addr path status headers body l is written read =
    ap (after_write from_slice stream addr path) written
    ∙ ap (after_read from_slice addr path) read
    ∙ parse_response-response from_slice addr path status headers body l is
