-- ===== src/Store/Sizes.antt =====
-- The approximate size of a trace (src/store/mod.rs) is the sum over its spans.
pub mod Growth
use spanfall.Prelude.{
  ℕ, suc, ◌+◌, ◌*◌, ◌≡◌, refl, ap, ◌∙◌, some, List, [], ◌∷◌, ◌++◌, map, length, arith, get_elem?,
  ok, length-map, length-append, append_assoc,
}
use spanfall.Prelude.Text.{str_len}
use spanfall.Prelude.Map.{Map}
use spanfall.Prelude.MapLaws.{AllValues}
use spanfall.Types.{TraceId}
use spanfall.Trace.{Trace}
use spanfall.Trace.Spec.{Row, Refines, value_of}
use spanfall.Trace.Readers.{Refines-Reads, span_count_lem}
use spanfall.Store.Evict.{
  approx_span_fixed_bytes, approx_attr_fixed_bytes, approx_bytes_from, approx_bytes,
  sum_approx_bytes,
}
use spanfall.Store.Valid.{Stored}

abbrev pub row_bytes : Row → ℕ
row_bytes r =
    approx_span_fixed_bytes + str_len r.name + length r.attributes * approx_attr_fixed_bytes

unfoldable pub rows_bytes : List Row → ℕ
rows_bytes [] = 0
rows_bytes (r ∷ rows) = row_bytes r + rows_bytes rows

pub get_elem?-middle {ℓ} :
    {A : Type ℓ} (xs : List A) (x : A) (ys : List A) → get_elem? (xs ++ x ∷ ys) (length xs) ≡ some x
get_elem?-middle [] x ys = refl
get_elem?-middle (y ∷ xs) x ys = get_elem?-middle xs x ys

approx_bytes_from_lem :
    (t : Trace) (before after : List Row) (k total : ℕ)
    → Refines t (before ++ after)
    → length before ≡ k
    → approx_bytes_from t k (length after) total ≡ ok (total + rows_bytes after)
unfolding approx_bytes_from rows_bytes
approx_bytes_from_lem t before [] k total ref l = ap ok (omega arith)
approx_bytes_from_lem t before (r ∷ after) k total ref l =
    let here : get_elem? (before ++ r ∷ after) k ≡ some r =
      rw (← l) (get_elem?-middle before r after) in
    let reads = Refines-Reads t (before ++ r ∷ after) k r ref here in
    let rest =
      approx_bytes_from_lem t (before ++ r ∷ []) after (suc k)
        (total
          + approx_span_fixed_bytes
          + str_len r.name
          + length (map value_of r.attributes) * approx_attr_fixed_bytes)
        (rw append_assoc ref) (omega (arith, length-append before (r ∷ []))) in
    rw (reads.name, reads.values) (rest ∙ ap ok (omega (arith, length-map value_of r.attributes)))

-- On a trace that stores `rows` the loop of `approx_bytes` does not panic, and returns for every
-- span 64 bytes, the bytes of its name and 24 for each attribute.
pub approx_bytes_lem :
    (t : Trace) (rows : List Row) → Refines t rows → approx_bytes t ≡ ok (rows_bytes rows)
unfolding approx_bytes
approx_bytes_lem t rows ref =
    rw (span_count_lem t rows ref)
      (approx_bytes_from_lem t [] rows 0 0 ref refl ∙ ap ok (omega arith))

-- So the size of a well-formed store can be computed.
pub sum_approx_bytes_ok :
    (k n : ℕ) (m : Map TraceId Trace)
    → AllValues (Stored k n) m
    → (b : ℕ) × (sum_approx_bytes m ≡ ok b)
unfolding sum_approx_bytes
sum_approx_bytes_ok k n [] h = (0, refl)
sum_approx_bytes_ok k n ((id, t) ∷ m) h =
    let (rows, ref, within) = h.0 in
    let (b, e) = sum_approx_bytes_ok k n m h.1 in
    (rows_bytes rows + b, rw (approx_bytes_lem t rows ref, e))
