-- ===== src/Tests/Traces.antt =====
-- Ids, tables and traces at concrete inputs.
use spanfall.Prelude.{
  ◌<◌, ◌≤◌, ◌+◌, ◌%◌, ◌^◌, ◌≡◌, ◌↔◌, refl, none, some, length, arith, All, get_elem?,
}
use spanfall.Prelude.Map
use spanfall.Types.{IsBytes, to_hex, from_hex}
use spanfall.Types.Hex.{from_hex-to_hex, from_hex-IsBytes, from_hex-plus_form, plus_form}
use spanfall.Interner
use spanfall.Interner.{Interner, intern, intern_new, lookup}
use spanfall.Interner.Bounds.{IsValid, Interns, new-IsValid, intern-Interns, intern-refused_iff}
use spanfall.Prelude.Text.{text}
use spanfall.Trace.Insert.{intern_attrs}
use spanfall.Trace.Spec.{upsert, attr_count, row_of}
use spanfall.Trace.Refine.{insert-Inserted, Inserted}
use spanfall.Trace.Readers.{Reads, Refines-Reads}
use spanfall.Tests.Data.{id1, id2, child, parent, table, trace1, rows1, trace1-Refines}

id2-IsBytes : IsBytes 16 id2.bytes
id2-IsBytes = ground arith

id1-small : All (λ b. b < 16) id1.bytes
id1-small = ground arith

table-IsValid : IsValid table
table-IsValid = new-IsValid 3 (omega arith)

from_hex-to_hex_example : from_hex (to_hex id2) ≡ some id2
from_hex-to_hex_example = from_hex-to_hex id2 id2-IsBytes

from_hex-IsBytes_example : IsBytes 16 id2.bytes
from_hex-IsBytes_example = from_hex-IsBytes (to_hex id2) from_hex-to_hex_example

from_hex-plus_form_example : from_hex (plus_form id1) ≡ some id1
from_hex-plus_form_example = from_hex-plus_form id1 refl id1-small

intern-Interns_example :
    Interns table
      (text "http.method")
      (intern table (text "http.method")).0
      (intern table (text "http.method")).1
intern-Interns_example = intern-Interns table (text "http.method") table-IsValid

table_free : length table.values < table.cap
unfolding Interner.new
table_free = omega arith

table_room : length table.values + length child.attributes ≤ table.cap
unfolding Interner.new
table_room = omega arith

intern-refused_iff_example : ((intern (Interner.new 0) (text "k")).1 ≡ none) ↔ (
    (lookup (Interner.new 0) (text "k") ≡ none)
    × ((Interner.new 0).cap ≤ length (Interner.new 0).values)
    × ((intern (Interner.new 0) (text "k")).0 ≡ record (Interner.new 0) {
      cap_hit_count = ((Interner.new 0).cap_hit_count + 1) % 2 ^ 64;
    }))
intern-refused_iff_example =
    intern-refused_iff (Interner.new 0) (text "k") (new-IsValid 0 (omega arith))

two_spans_small :
    attr_count (upsert rows1 parent (some 0) (intern_attrs table parent.attributes).1) < 2 ^ 32
unfolding upsert intern_attrs Interner.intern Interner.new Interner.intern_new Map.insert
two_spans_small = ground arith

rows1_first :
    get_elem? rows1 0 ≡ some (row_of child (some 0) (intern_attrs table child.attributes).1)
unfolding upsert
rows1_first = refl

-- The parent arrives after its child.
insert-Inserted_example : Inserted trace1 rows1 parent (some 0) table 7
insert-Inserted_example =
    insert-Inserted trace1 rows1 parent (some 0) table 7 trace1-Refines two_spans_small

Refines-Reads_example :
    Reads trace1 rows1 0 (row_of child (some 0) (intern_attrs table child.attributes).1)
Refines-Reads_example =
    Refines-Reads trace1 rows1 0 (row_of child (some 0) (intern_attrs table child.attributes).1)
      trace1-Refines rows1_first
