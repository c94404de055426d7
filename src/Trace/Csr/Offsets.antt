-- ===== src/Trace/Csr/Offsets.antt =====
-- The offsets of the attribute arrays of src/store/trace.rs, as sums of the rows' lengths.
use spanfall.Prelude.{
  ℕ, zero, suc, ◌+◌, ◌-◌, ◌%◌, ◌≤◌, ◌<◌, ◌^◌, ◌≡◌, refl, sym, ap, ◌∙◌, some, List, [], ◌∷◌, ◌++◌,
  map, length, get_elem?, arith, length-append, append_assoc,
}
use spanfall.Types.{AttrValue}
use spanfall.Trace.Insert.{shift_offset, shift_offsets_after}
use spanfall.Trace.Spec.{flatten, offsets_from}

abbrev pub Rows : Type 0
Rows = List (List (ℕ × AttrValue))

-- A row, with the rows before and after it.
pub record Split (rows : Rows) (i : ℕ) (r : List (ℕ × AttrValue)) : Type 0 where
  pub before : Rows
  pub after : Rows
  pub whole : rows ≡ before ++ r ∷ after
  pub place : length before ≡ i

pub Split-at :
    (rows : Rows) (i : ℕ) {r : List (ℕ × AttrValue)} → get_elem? rows i ≡ some r → Split rows i r
Split-at [] i h = ground arith
Split-at (x ∷ rows) zero h = record {
  before = [];
  after = rows;
  whole = ground arith;
  place = refl;
}
Split-at (x ∷ rows) (suc i) h =
    let s = Split-at rows i h in
    record {
      before = x ∷ s.before;
      after = s.after;
      whole = ap (◌∷◌ x) s.whole;
      place = ap suc s.place;
    }

pub flatten-append : (xs ys : Rows) → flatten (xs ++ ys) ≡ flatten xs ++ flatten ys
flatten-append [] ys = refl
flatten-append (x ∷ xs) ys =
    rw (flatten-append xs ys) (sym (append_assoc x (flatten xs) (flatten ys)))

pub offsets_from-snoc :
    (k : ℕ) (rows : Rows) (r : List (ℕ × AttrValue))
    → offsets_from k (rows ++ r ∷ [])
      ≡ offsets_from k rows ++ (k + length (flatten rows) + length r) ∷ []
offsets_from-snoc k [] r = ground arith
offsets_from-snoc k (x ∷ rows) r = ap (◌∷◌ k) (
    offsets_from-snoc (k + length x) rows r
    ∙ ap (λ n. offsets_from (k + length x) rows ++ n ∷ [])
        (omega (arith, length-append x (flatten rows))))

module _ (r : List (ℕ × AttrValue)) (after : Rows) where
  pub at-offset_start :
      (k : ℕ) (before : Rows)
      → get_elem? (offsets_from k (before ++ r ∷ after)) (length before)
        ≡ some (k + length (flatten before))
  at-offset_start k [] = ground arith
  at-offset_start k (x ∷ before) =
      at-offset_start (k + length x) before
      ∙ ap some (omega (arith, length-append x (flatten before)))

  pub at-offset_end :
      (k : ℕ) (before : Rows)
      → get_elem? (offsets_from k (before ++ r ∷ after)) (suc (length before))
        ≡ some (k + length (flatten before) + length r)
  at-offset_end k [] = offset_head after
    where
      offset_head :
          (a : Rows) → get_elem? (offsets_from (k + length r) a) zero ≡ some (k + 0 + length r)
      offset_head [] = ground arith
      offset_head (x ∷ a) = ground arith
  at-offset_end k (x ∷ before) =
      at-offset_end (k + length x) before
      ∙ ap some (omega (arith, length-append x (flatten before)))

-- Offsets behind a row that changes its length.
map-shift_offset :
    (new removed a b : ℕ) (rows : Rows)
    → removed ≤ a
    → a + new ≡ b + removed
    → b + length (flatten rows) < 2 ^ 32
    → removed < 2 ^ 32
    → map (shift_offset new removed) (offsets_from a rows) ≡ offsets_from b rows
unfolding shift_offset
map-shift_offset new removed a b [] h e small r = ap (λ n. n ∷ []) (omega arith)
map-shift_offset new removed a b (x ∷ rows) h e small r = cc (
  map-shift_offset new removed (a + length x) (b + length x) rows (omega arith) (omega arith)
      (omega (arith, length-append x (flatten rows))) r,
  one,
)
  where
    one : (a + new + (2 ^ 32 - removed)) % 2 ^ 32 ≡ b
    one = omega (arith, length-append x (flatten rows))

pub shift_offsets_after_lem :
    (k : ℕ) (before : Rows) (r r' : List (ℕ × AttrValue)) (after : Rows)
    → k + length (flatten before) + length r < 2 ^ 32
    → k + length (flatten before) + length r' + length (flatten after) < 2 ^ 32
    → shift_offsets_after
        (suc (length before))
        (length r')
        (length r)
        (offsets_from k (before ++ r ∷ after))
      ≡ offsets_from k (before ++ r' ∷ after)
unfolding shift_offsets_after
shift_offsets_after_lem k [] r r' after h h' = ap (◌∷◌ k) (
    map-shift_offset (length r') (length r) (k + length r) (k + length r') after (omega arith)
      (omega arith) (omega arith) (omega arith))
shift_offsets_after_lem k (x ∷ before) r r' after h h' = ap (◌∷◌ k) (
    shift_offsets_after_lem (k + length x) before r r' after
      (omega (arith, length-append x (flatten before)))
      (omega (arith, length-append x (flatten before))))
