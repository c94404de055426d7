-- ===== src/Tests/Clients.antt =====
-- The sniffer, the client and the commands at concrete inputs.
use spanfall.Prelude.{ℕ, ◌≡◌, refl, Bool, true, List, [], ◌∷◌, ok, ℕ_eq, arith}
use spanfall.Prelude.Text.{Text, text}
use spanfall.Prelude.Strings.{contains, starts_with}
use spanfall.Types.{trace_id_eq}
use spanfall.Ingest.Convert.{Result, ok}
use spanfall.Ingest.Sniff.{Accept, connection, accept_error, read, silent, serve}
use spanfall.Ingest.Sniff.Misdirect.{Serves, serve-Serves}
use spanfall.Api.Traces.{TraceSummary, list_traces}
use spanfall.Api.Traces.Summaries.{Lists, list_traces-Lists}
use spanfall.Json.{Value, string}
use spanfall.Client.{Stream, get_json}
use spanfall.Client.Response.{IsLine-all_line_chars, response, get_json-response}
use spanfall.Tests.Data.{store1, store1-IsValid}

-- A parser that takes every body for a string of its bytes.
abbrev from_slice : List ℕ → Result {0, 0} Text Value
from_slice body = ok (string body)

-- A peer that answers every request with some bytes.
abbrev peer : List ℕ → Stream
peer raw = record { write_all = λ b. ok tt; read_to_end = λ b. ok raw }

abbrev status_200 : Text
status_200 = text "HTTP/1.1 200 OK"

get_json-response_example :
    get_json from_slice
      (ok (peer (response status_200 (text "Connection: close" ∷ []) (text "{}"))))
      (text "127.0.0.1:5317")
      (text "/api/traces")
    ≡ ok (string (text "{}"))
unfolding contains starts_with
get_json-response_example =
    get_json-response from_slice
      (peer (response status_200 (text "Connection: close" ∷ []) (text "{}")))
      (text "127.0.0.1:5317") (text "/api/traces") status_200 (text "Connection: close" ∷ [])
      (text "{}") (IsLine-all_line_chars status_200 refl)
      ((IsLine-all_line_chars (text "Connection: close") refl, omega arith), tt) refl refl

abbrev accepts : List (Accept × Bool)
accepts =
    (connection (record { peek = λ i. read (text "POST"); reads = []; takes = 1000 }), true)
    ∷ (accept_error (text "reset"), true)
    ∷ (connection (record { peek = λ i. read (text "PRI "); reads = []; takes = 0 }), true)
    ∷ (connection (record { peek = λ i. silent; reads = []; takes = 0 }), true)
    ∷ (connection (record { peek = λ i. read (text "PRI "); reads = []; takes = 0 }), true)
    ∷ []

serve-Serves_example : Serves accepts (serve accepts)
serve-Serves_example = serve-Serves accepts (refl, (refl, (refl, (refl, (refl, tt)))))

list_traces-Lists_example :
    (xs : List TraceSummary) × (list_traces store1 ≡ ok xs) × Lists store1 store1.traces xs
list_traces-Lists_example = list_traces-Lists store1 store1-IsValid
