-- ===== src/Ingest/Sniff.antt =====
-- src/ingest/sniff.rs: telling a gRPC client from an HTTP/1.1 client by the first bytes of its
-- connection. The connection is what each attempt to peek at it gives; a peek has no timeout, so one
-- at a client that stays silent and does not close is never ready.
pub mod Preface
pub mod Misdirect
use spanfall.Prelude.{
  ℕ, zero, suc, ◌+◌, ◌≤◌, ◌<◌, ◌≡◌, Bool, true, false, Option, none, some, take, List, [], ◌∷◌,
  ◌++◌, length, nat_eq, list_beq, if◌then◌else◌, ℕ_eq,
}
use spanfall.Prelude.Text.{Text, text, as_bytes, str_len}
use spanfall.Prelude.Strings.{to_string}

-- The result of `stream.peek(&mut buf)`: the bytes put in the buffer of four, an error, or none at
-- all, when the `await` never ends.
pub data Peek : Type 0 where
  read : List ℕ → Peek
  failed : Peek
  silent : Peek

-- The arms of the `match`; `again` is the rest of the loop, and `none` is an answer that never comes.
unfoldable pub check_peek : Peek → Option Bool → Option Bool
check_peek silent again = none
check_peek failed again = some false
check_peek (read buf) again =
    if nat_eq (length buf) 4
    then some (list_beq buf (text "PRI "))
    else if nat_eq (length buf) 0
    then some false
    else again

-- The loop `for attempt in attempt..5`, with `count` rounds left.
unfoldable pub attempts : (ℕ → Peek) → ℕ → ℕ → Option Bool
attempts peek attempt zero = some false
attempts peek attempt (suc count) =
    let again = attempts peek (suc attempt) count in check_peek (peek attempt) again

unfoldable pub looks_like_h2_preface : (ℕ → Peek) → Option Bool
looks_like_h2_preface peek = attempts peek 0 5

unfoldable pub misdirect_body : Text
misdirect_body =
    text "This is the OTLP/gRPC port (4317). Point your OTLP/HTTP exporter at :4318 instead."

-- What `stream.try_read(&mut discard)` gives: a number of bytes, or an error.
pub data TryRead : Type 0 where
  got : ℕ → TryRead
  failed_read : TryRead

-- The loop that drains what the client already sent; it leaves the reads that are not made.
unfoldable pub drain : List TryRead → List TryRead
drain [] = []
drain (failed_read ∷ reads) = reads
drain (got n ∷ reads) = let rest = drain reads in if nat_eq n 0 then reads else rest

-- The bytes that `reject_with_400` writes.
unfoldable pub response_400 : List ℕ
response_400 = as_bytes (
    text "HTTP/1.1 400 Bad Request\r\nContent-Type: text/plain\r\nContent-Length: "
    ++ (to_string (str_len misdirect_body)
        ++ (text "\r\nConnection: close\r\n\r\n" ++ misdirect_body)))

-- A connection: what the peeks at it and the reads from it give, and how many bytes `write_all` gets
-- through before it fails or waits for ever.
pub record Connection : Type 0 where
  pub peek : ℕ → Peek
  pub reads : List TryRead
  pub takes : ℕ

-- What is left unread of a connection, and what reaches it before it is shut down; the result of the
-- write is ignored.
unfoldable pub reject_with_400 : Connection → List TryRead × List ℕ
reject_with_400 c = (drain c.reads, take c.takes response_400)

-- What `listener.accept()` gives.
pub data Accept : Type 0 where
  connection : Connection → Accept
  accept_error : Text → Accept

-- What the loop does: a connection or an error goes to tonic, or a connection is rejected.
pub data Action : Type 0 where
  to_tonic : Connection → Action
  error_to_tonic : Text → Action
  rejected : Connection → List ℕ → Action

-- The accept loop, over what `accept` gives, each with whether tonic still takes what is sent. It
-- waits for the peeks at a connection before it accepts the next one; its sends to tonic are taken to
-- end.
unfoldable pub serve : List (Accept × Bool) → List Action
serve [] = []
serve ((accept_error e, is_open) ∷ accepts) =
    let rest = serve accepts in if is_open then error_to_tonic e ∷ rest else []
serve ((connection c, is_open) ∷ accepts) =
    let rest = serve accepts in
    elim (looks_like_h2_preface c.peek) [
      | none ↦ []
      | some is_h2 ↦
          if is_h2
          then (if is_open then to_tonic c ∷ rest else [])
          else rejected c (reject_with_400 c).1 ∷ rest
    ]
