-- ===== src/Tests/Readers.antt =====
-- The API and the parents at concrete inputs.
use spanfall.Prelude.{
  ◌*◌, ◌^◌, ◌<◌, ◌≤◌, ◌≡◌, refl, sym, subst, true, none, some, List, [], ◌∷◌, ◌++◌, length, ok, All,
  get_elem?, nat_eq, ltb, leb, arith,
}
use spanfall.Prelude.Map
use spanfall.Prelude.Text.{text}
use spanfall.Prelude.Strings.{is_whitespace}
use spanfall.Types.{SpanId, to_hex, from_hex}
use spanfall.Types.Hex.{from_hex-to_hex}
use spanfall.Interner
use spanfall.Interner.{Interner}
use spanfall.Trace.{Trace, InsertOutcome, parent_idx, span_id}
use spanfall.Trace.Insert.{insert, intern_attrs}
use spanfall.Trace.Spec.{Row, Refines, row_of, upsert, position, attr_count}
use spanfall.Trace.Upsert.{ids_of}
use spanfall.Trace.Refine.{insert-Inserted}
use spanfall.Trace.Readers.{Refines-Reads}
use spanfall.Trace.Parents.{insert-same_parents, parent_idx-span_id}
use spanfall.Store.{Store, trace}
use spanfall.Store.Valid.{RowWithin, key_count, service_count}
use spanfall.Prelude.Strings.{to_string}
use spanfall.Api.Filter.Query.{parse_duration}
use spanfall.Api.Filter.Query.Durations.{milliseconds, suffix, parse_duration-to_string}
use spanfall.Api.{json}
use spanfall.Api.Filter.{Numbers}
use spanfall.Api.Filter.Query.{tokenize}
use spanfall.Api.Filter.Query.Words.{token, IsWord, tokenize-empty_quotes}
use spanfall.Api.Traces.{get_trace, Columns}
use spanfall.Api.Traces.Payload.{Holds, get_trace-Holds}
use spanfall.Tests.Data.{id1, child, parent, table, trace1, rows1, trace1-Refines, store0, trace_of}

-- Numbers that read nothing and print nothing.
abbrev pub no_numbers : Numbers
no_numbers = record {
  parse_i64 = λ s. none;
  i64_to_string = λ i. text "";
  parse_f64 = λ s. none;
  f64_to_string = λ d. text "";
  i64_as_f64 = λ i. 0;
  f64_eq = nat_eq;
  f64_lt = ltb;
  f64_le = leb;
}

resent_small :
    attr_count (
      upsert rows1
        (record child { parent_span_id = none })
        none
        (intern_attrs table child.attributes).1)
    < 2 ^ 32
unfolding upsert intern_attrs Interner.intern Interner.new Interner.intern_new Map.insert
resent_small = ground arith

child_first : position child.span_id (ids_of rows1) ≡ some 0
unfolding position upsert
child_first = refl

-- The child is sent again without its parent.
insert-same_parents_example :
    (r : Trace × InsertOutcome × Interner) × (insert trace1
        (record child { parent_span_id = none })
        none
        table
        9
      ≡ ok r)
    × (r.0.parent_idx ≡ trace1.parent_idx)
    × (r.0.orphan ≡ trace1.orphan)
insert-same_parents_example =
    insert-same_parents trace1 rows1 (record child { parent_span_id = none }) none table 9 0
      trace1-Refines resent_small child_first

two_words : All IsWord (text "a" ∷ text "status=error" ∷ [])
unfolding is_whitespace
two_words = ground arith

tokenize-empty_quotes_example :
    tokenize (text "\"\" " ++ text "status=error") ≡ token true (text "status=error") ∷ []
tokenize-empty_quotes_example = tokenize-empty_quotes (text "status=error") two_words.1.0

parse_duration-to_string_example :
    parse_duration (to_string 250 ++ suffix milliseconds) ≡ some 250000000
parse_duration-to_string_example = parse_duration-to_string 250 milliseconds (omega arith)

-- The child with its parent.
abbrev rows2 : List Row
rows2 = upsert rows1 parent (some 0) (intern_attrs table parent.attributes).1

abbrev trace2 : Trace
trace2 = trace_of (insert trace1 parent (some 0) table 7)

rows2_small : attr_count rows2 < 2 ^ 32
unfolding upsert intern_attrs Interner.intern Interner.new Interner.intern_new Map.insert
rows2_small = ground arith

trace2-Refines : Refines trace2 rows2
trace2-Refines =
    let i = insert-Inserted trace1 rows1 parent (some 0) table 7 trace1-Refines rows2_small in
    subst (λ r. Refines (trace_of r) rows2) (sym i.returned) i.refines

abbrev child_row : Row
child_row = row_of child (some 0) (intern_attrs table child.attributes).1

child_here : get_elem? rows2 0 ≡ some child_row
unfolding upsert
child_here = refl

child_parent : parent_idx trace2 0 ≡ ok (some 1)
unfolding upsert position
child_parent = (Refines-Reads trace2 rows2 0 child_row trace2-Refines child_here).parent

parent_idx-span_id_example :
    (pid : SpanId) × (child_row.parent_span_id ≡ some pid) × (span_id trace2 1 ≡ ok pid)
parent_idx-span_id_example =
    parent_idx-span_id trace2 rows2 0 1 child_row trace2-Refines child_here child_parent

-- A store that holds the first trace.
abbrev store2 : Store
store2 = record store0 {
  traces = (id1, trace1) ∷ [];
  key_interner = (intern_attrs table child.attributes).0;
  service_interner = (Interner.intern table (text "cart")).0;
}

store2_trace : trace store2 id1 ≡ some trace1
unfolding trace
store2_trace = refl

id1_read : from_hex (to_hex id1) ≡ some id1
id1_read = from_hex-to_hex id1 (ground arith)

child_within : RowWithin (key_count store2) (service_count store2) child_row
unfolding intern_attrs Interner.intern Interner.new Interner.intern_new Map.insert
child_within = record { service = omega arith; attributes = (omega arith, (omega arith, tt)) }

rows1_within : All (RowWithin (key_count store2) (service_count store2)) rows1
unfolding upsert
rows1_within = (child_within, tt)

rows1_few : 3 * length rows1 ≤ 2 ^ 32
unfolding upsert
rows1_few = omega arith

get_trace-Holds_example :
    (c : Columns) × (get_trace store2 (to_hex id1)
      ≡ ok (
          json (record {
            trace_id = to_hex trace1.trace_id;
            generation = trace1.generation;
            string_table = c.table.strings;
            columns = c;
          })))
    × Holds store2 (ids_of rows1) c rows1
get_trace-Holds_example =
    get_trace-Holds store2 (to_hex id1) id1 trace1 rows1 id1_read store2_trace trace1-Refines
      rows1_within rows1_few
