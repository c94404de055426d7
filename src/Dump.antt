-- ===== src/Dump.antt =====
-- src/dump.rs: `list` and `--dump`. `get_json` stands for `client::get_json` at one address. What is
-- printed is the list of its lines.
pub mod Served
pub mod Routed
use spanfall.Prelude.{
  ℕ, zero, suc, ◌+◌, ◌-◌, Option, none, some, List, [], ◌∷◌, ◌++◌, length, if◌then◌else◌,
}
use spanfall.Prelude.Text.{Text, text}
use spanfall.Prelude.Strings.{to_string}
use spanfall.Ingest.Convert.{Result, ok, err}
use spanfall.Json.{
  Value, Members, unsigned, string, array, object, member, no_members, values, index, as_str,
  as_u64, as_array,
}

abbrev pub unexpected_shape : Text
unexpected_shape = text "unexpected /api/traces response shape"

-- `n` copies of a space.
unfoldable pub spaces : ℕ → Text
spaces zero = []
spaces (suc n) = b' ' ∷ spaces n

-- `{:<width}` and `{:>width}`: a text that is longer is not cut.
unfoldable pub left_aligned : ℕ → Text → Text
left_aligned width s = s ++ spaces (width - length s)

unfoldable pub right_aligned : ℕ → Text → Text
right_aligned width s = spaces (width - length s) ++ s

-- `services.join(",")`.
unfoldable pub join : List Text → Text
join [] = []
join (s ∷ []) = s
join (s ∷ t ∷ rest) = s ++ (text "," ++ join (t ∷ rest))

-- `a.iter().filter_map(|v| v.as_str()).collect()`.
unfoldable pub strings_of : List Value → List Text
strings_of [] = []
strings_of (v ∷ vs) =
    let rest = strings_of vs in elim (as_str v) [ none ↦ rest | some s ↦ s ∷ rest ]

unfoldable pub row_text : Text → Text → Text → Text → Text
row_text trace_id span_count duration services =
    left_aligned 34 trace_id
    ++ (text " "
        ++ (right_aligned 6 span_count
            ++ (text " " ++ (right_aligned 14 duration ++ (text "  " ++ services)))))

unfoldable pub row_line : Value → Text
row_line row =
    row_text (elim (as_str (index row (text "trace_id"))) [ none ↦ text "?" | some s ↦ s ])
      (to_string (elim (as_u64 (index row (text "span_count"))) [ none ↦ 0 | some n ↦ n ]))
      (elim (as_u64 (index row (text "duration_nanos"))) [ none ↦ text "-" | some d ↦ to_string d ])
      (join (elim (as_array (index row (text "services"))) [ none ↦ [] | some vs ↦ strings_of vs ]))

unfoldable pub row_lines : List Value → List Text
row_lines [] = []
row_lines (row ∷ rows) = row_line row ∷ row_lines rows

unfoldable pub list_lines : List Value → List Text
list_lines [] = text "no resident traces" ∷ []
list_lines (row ∷ rows) =
    row_text (text "TRACE ID") (text "SPANS") (text "DURATION(ns)") (text "SERVICES")
    ∷ row_lines (row ∷ rows)

unfoldable pub rows_of : Result {0, 0} Text Value → Result {0, 0} Text (List Value)
rows_of (err e) = err e
rows_of (ok body) = elim (as_array body) [ none ↦ err unexpected_shape | some rows ↦ ok rows ]

-- The loop over the rows, one request for each.
unfoldable pub full_trace :
    Option Text → (Text → Result {0, 0} Text Value) → Result {0, 0} Text Value
full_trace none get_json = err unexpected_shape
full_trace (some trace_id) get_json = get_json (text "/api/traces/" ++ trace_id)

-- One more trace before the others; an error ends the loop.
unfoldable pub push_trace :
    Result {0, 0} Text Value → Result {0, 0} Text (List Value) → Result {0, 0} Text (List Value)
push_trace (err e) rest = err e
push_trace (ok t) (err e) = err e
push_trace (ok t) (ok ts) = ok (t ∷ ts)

unfoldable pub full_traces :
    (Text → Result {0, 0} Text Value) → List Value → Result {0, 0} Text (List Value)
full_traces get_json [] = ok []
full_traces get_json (row ∷ rows) =
    push_trace (full_trace (as_str (index row (text "trace_id"))) get_json)
      (full_traces get_json rows)

-- `json!({ "traces": full_traces, "receiver": receiver })`.
unfoldable pub dump_value : List Value → Value → Value
dump_value traces receiver =
    object (
      member (text "traces") (array (values traces)) (member (text "receiver") receiver no_members))

unfoldable pub with_receiver :
    Result {0, 0} Text (List Value) → Result {0, 0} Text Value → Result {0, 0} Text Value
with_receiver (err e) receiver = err e
with_receiver (ok traces) (err e) = err e
with_receiver (ok traces) (ok receiver) = ok (dump_value traces receiver)

unfoldable pub dump_rows :
    (Text → Result {0, 0} Text Value) → Result {0, 0} Text (List Value) → Result {0, 0} Text Value
dump_rows get_json (err e) = err e
dump_rows get_json (ok rows) =
    with_receiver (full_traces get_json rows) (get_json (text "/api/receiver"))

module _ (get_json : Text → Result {0, 0} Text Value) where
  unfoldable pub traces : Result {0, 0} Text (List Value)
  traces = rows_of (get_json (text "/api/traces"))

  unfoldable pub fetch_list : Result {0, 0} Text (List Value)
  fetch_list = traces

  unfoldable pub print_list : Result {0, 0} Text (List Text)
  print_list = elim fetch_list [ ok rows ↦ ok (list_lines rows) | err e ↦ err e ]

  unfoldable pub fetch_dump : Result {0, 0} Text Value
  fetch_dump = dump_rows get_json traces

  -- The text is that of `serde_json::to_string_pretty`, a parameter.
  unfoldable pub print_dump :
      (to_string_pretty : Value → Result {0, 0} Text Text) → Result {0, 0} Text Text
  print_dump to_string_pretty = elim fetch_dump [ ok dump ↦ to_string_pretty dump | err e ↦ err e ]
