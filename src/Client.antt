-- ===== src/Client.antt =====
-- src/client.rs: the HTTP client of `list` and `--dump`. The socket is what each call on it gives,
-- with an error as its text; `serde_json::from_slice` is a parameter.
pub mod Response
use spanfall.Prelude.{
  ℕ, suc, ◌+◌, Option, none, some, List, [], ◌∷◌, ◌++◌, take, drop, if◌then◌else◌,
}
use spanfall.Prelude.Text.{Text, text, as_bytes}
use spanfall.Prelude.Strings.{starts_with, contains}
use spanfall.Prelude.Utf8.{from_utf8_lossy, lines}
use spanfall.Ingest.Convert.{Result, ok, err}
use spanfall.Json.{Value}

-- A connected socket: what `write_all` of some bytes gives, and what `read_to_end` gives after it.
pub record Stream : Type 0 where
  pub write_all : List ℕ → Result {0, 0} Text Unit
  pub read_to_end : List ℕ → Result {0, 0} Text (List ℕ)

-- `env!("CARGO_PKG_NAME")`.
abbrev pub pkg_name : Text
pkg_name = text "spanfall"

-- `raw.windows(4).position(|w| w == b"\r\n\r\n")`.
unfoldable pub position_of_blank_line : List ℕ → Option ℕ
position_of_blank_line [] = none
position_of_blank_line (b ∷ bs) =
    let later = position_of_blank_line bs in
    if starts_with (b ∷ bs) (text "\r\n\r\n")
    then some 0
    else elim later [ none ↦ none | some n ↦ some (suc n) ]

-- `headers.lines().next().unwrap_or("")`.
unfoldable pub status_line_of : Text → Text
status_line_of headers = elim (lines headers) [ [] ↦ [] | line ∷ _ ↦ line ]

unfoldable pub parse_body :
    (from_slice : List ℕ → Result {0, 0} Text Value) → Text → List ℕ → Result {0, 0} Text Value
parse_body from_slice path body = elim (from_slice body) [
  | ok v ↦ ok v
  | err e ↦ err (text "parsing response from " ++ (path ++ (text ": " ++ e)))
]

-- The response after its status line and body are found.
unfoldable pub check_status :
    (from_slice : List ℕ → Result {0, 0} Text Value)
    → Text
    → Text
    → List ℕ
    → Result {0, 0} Text Value
check_status from_slice path status_line body =
    if contains status_line (text " 200 ")
    then parse_body from_slice path body
    else err (path ++ (text " returned `" ++ (status_line ++ text "`")))

-- The response, split where a blank line stands.
unfoldable pub split_response :
    (from_slice : List ℕ → Result {0, 0} Text Value)
    → Text
    → Text
    → List ℕ
    → Option ℕ
    → Result {0, 0} Text Value
split_response from_slice addr path raw none =
    err (text "malformed HTTP response from " ++ (addr ++ path))
split_response from_slice addr path raw (some split) =
    check_status from_slice path (status_line_of (from_utf8_lossy (take split raw)))
      (drop (split + 4) raw)

-- What is made of the bytes that were read.
unfoldable pub parse_response :
    (from_slice : List ℕ → Result {0, 0} Text Value)
    → Text
    → Text
    → List ℕ
    → Result {0, 0} Text Value
parse_response from_slice addr path raw =
    split_response from_slice addr path raw (position_of_blank_line raw)

unfoldable pub request_text : Text → Text → Text
request_text addr path =
    text "GET "
    ++ (path ++ (text " HTTP/1.1\r\nHost: " ++ (addr ++ text "\r\nConnection: close\r\n\r\n")))

unfoldable pub after_read :
    (from_slice : List ℕ → Result {0, 0} Text Value)
    → Text
    → Text
    → Result {0, 0} Text (List ℕ)
    → Result {0, 0} Text Value
after_read from_slice addr path (err e) = err (text "read from " ++ (addr ++ (text ": " ++ e)))
after_read from_slice addr path (ok raw) = parse_response from_slice addr path raw

unfoldable pub after_write :
    (from_slice : List ℕ → Result {0, 0} Text Value)
    → Stream
    → Text
    → Text
    → Result {0, 0} Text Unit
    → Result {0, 0} Text Value
after_write from_slice stream addr path (err e) =
    err (text "write to " ++ (addr ++ (text ": " ++ e)))
after_write from_slice stream addr path (ok u) =
    after_read from_slice addr path (stream.read_to_end (as_bytes (request_text addr path)))

-- `get_json`, with what `TcpStream::connect(addr)` gives.
unfoldable pub get_json :
    (from_slice : List ℕ → Result {0, 0} Text Value)
    → Result {0, 0} Text Stream
    → Text
    → Text
    → Result {0, 0} Text Value
get_json from_slice connected addr path = elim connected [
  | err e ↦ err (
      text "no "
      ++ (pkg_name
          ++ (text " instance found at "
              ++ (addr
                  ++ (text " ("
                      ++ (e ++ (text ") -- start one with `" ++ (pkg_name ++ text "`"))))))))
  | ok stream ↦
      after_write from_slice stream addr path (stream.write_all (as_bytes (request_text addr path)))
]
