-- ===== src/Trace/Csr.antt =====
-- The compressed attribute rows of src/store/trace.rs: appending a row, reading one, replacing one.
mod Offsets
use spanfall.Prelude.{
  ℕ, zero, suc, ◌+◌, ◌-◌, ◌%◌, ◌≤◌, ◌<◌, ◌^◌, ◌≡◌, refl, sym, ap, ◌∙◌, some, List, [], ◌∷◌, ◌++◌,
  map, length, get_elem?, set, arith, length-append, length-map, map-append, append_assoc,
  append-nil, ok, at, slice, splice, slice-append, splice-append, subst, add-sub_left, set-append,
}
use native.Mathlib.Numerals.{add-one}
use spanfall.Types.{AttrValue}
use spanfall.Trace.{Trace, attributes, attribute_keys}
use spanfall.Trace.Insert.{shift_offset, shift_offsets_after}
use spanfall.Trace.Spec.{flatten, offsets_from, key_of, value_of, Csr}
pub use Offsets.{Split, Split-at, flatten-append, offsets_from-snoc}
use Offsets.{Rows, at-offset_start, at-offset_end, shift_offsets_after_lem}

module _ {ℓ} {X : Type ℓ} (f : ℕ × AttrValue → X) (before after : Rows) where
  map-flatten :
      (r : List (ℕ × AttrValue))
      → map f (flatten (before ++ r ∷ after))
        ≡ map f (flatten before) ++ (map f r ++ map f (flatten after))
  map-flatten r =
      rw (flatten-append before (r ∷ after), map-append f (flatten before) (r ++ flatten after))
        (ap (◌++◌ (map f (flatten before))) (map-append f r (flatten after)))

  slice-row :
      (r : List (ℕ × AttrValue))
      → slice
          (map f (flatten (before ++ r ∷ after)))
          (length (flatten before))
          (length (flatten before) + length r)
        ≡ ok (map f r)
  slice-row r =
      rw (map-flatten r, ← length-map f (flatten before), ← length-map f r)
        (slice-append (map f (flatten before)) (map f r) (map f (flatten after)))

  splice-row :
      (r r' : List (ℕ × AttrValue))
      → splice
          (map f (flatten (before ++ r ∷ after)))
          (length (flatten before))
          (length (flatten before) + length r)
          (map f r')
        ≡ ok (map f (flatten (before ++ r' ∷ after)))
  splice-row r r' =
      rw (map-flatten r, map-flatten r', ← length-map f (flatten before), ← length-map f r)
        (splice-append (map f (flatten before)) (map f r) (map f (flatten after)) (map f r'))

module _ (t : Trace) (before after : Rows) (r : List (ℕ × AttrValue))
    (c : Csr t (before ++ r ∷ after)) where
  start_offset : at t.attr_offsets (length before) ≡ ok (length (flatten before))
  start_offset =
      rw (c.offsets, at-offset_start r after zero before) (ap (λ (n : ℕ). ok n) (omega arith))

  end_offset : at t.attr_offsets (length before + 1) ≡ ok (length (flatten before) + length r)
  end_offset =
      rw (c.offsets, add-one, at-offset_end r after zero before)
        (ap (λ (n : ℕ). ok n) (omega arith))

  attributes_split : attributes t (length before) ≡ ok (map value_of r)
  unfolding attributes
  attributes_split = rw (start_offset, end_offset, c.values) (slice-row value_of before after r)

  attribute_keys_split : attribute_keys t (length before) ≡ ok (map key_of r)
  unfolding attribute_keys
  attribute_keys_split = rw (start_offset, end_offset, c.keys) (slice-row key_of before after r)

module _ (t : Trace) (rows : Rows) (i : ℕ) (r : List (ℕ × AttrValue)) (c : Csr t rows) where
  reads-Split :
      Split rows i r
      → (attributes t i ≡ ok (map value_of r)) × (attribute_keys t i ≡ ok (map key_of r))
  reads-Split s = go s.before s.after s.whole s.place
    where
      go :
          (before after : Rows)
          → rows ≡ before ++ r ∷ after
          → length before ≡ i
          → (attributes t i ≡ ok (map value_of r)) × (attribute_keys t i ≡ ok (map key_of r))
      go before after whole place =
          let c' = subst (Csr t) whole c in
          (
            rw (← place) (attributes_split t before after r c'),
            rw (← place) (attribute_keys_split t before after r c'),
          )

  -- A row is read back as it was stored.
  pub attributes_lem : get_elem? rows i ≡ some r → attributes t i ≡ ok (map value_of r)
  attributes_lem h = (reads-Split (Split-at rows i h)).0

  pub attribute_keys_lem : get_elem? rows i ≡ some r → attribute_keys t i ≡ ok (map key_of r)
  attribute_keys_lem h = (reads-Split (Split-at rows i h)).1

-- A row behind the others.
pub push-Csr :
    (t t' : Trace) (rows : Rows) (r : List (ℕ × AttrValue))
    → Csr t rows
    → length (flatten rows) + length r < 2 ^ 32
    → t'.attr_keys ≡ t.attr_keys ++ map key_of r
    → t'.attr_values ≡ t.attr_values ++ map value_of r
    → t'.attr_offsets ≡ t.attr_offsets ++ (length (t.attr_keys ++ map key_of r) % 2 ^ 32) ∷ []
    → Csr t' (rows ++ r ∷ [])
push-Csr t t' rows r c h ks vs os = record {
  keys = rw (ks, c.keys, flatten_snoc) (sym (map-append key_of (flatten rows) r));
  values = rw (vs, c.values, flatten_snoc) (sym (map-append value_of (flatten rows) r));
  offsets =
      rw (os, c.offsets, offsets_from-snoc zero rows r)
        (ap (λ n. offsets_from zero rows ++ n ∷ []) last);
  small = rw flatten_snoc (omega (arith, length-append (flatten rows) r));
}
  where
    flatten_snoc : flatten (rows ++ r ∷ []) ≡ flatten rows ++ r
    flatten_snoc = flatten-append rows (r ∷ []) ∙ ap (◌++◌ (flatten rows)) (append-nil r)

    last : length (t.attr_keys ++ map key_of r) % 2 ^ 32 ≡ 0 + length (flatten rows) + length r
    last = omega (
      arith,
      length-append t.attr_keys (map key_of r),
      ap length c.keys,
      length-map key_of (flatten rows),
      length-map key_of r,
    )

-- What `overwrite_at` does to the attributes, as one step.
pub record Replaces (t : Trace) (i : ℕ) (r' : List (ℕ × AttrValue)) (rows' : Rows) : Type 0 where
  pub old_start : ℕ
  pub old_end : ℕ
  pub at_start : at t.attr_offsets i ≡ ok old_start
  pub at_end : at t.attr_offsets (i + 1) ≡ ok old_end
  pub keys : splice t.attr_keys old_start old_end (map key_of r') ≡ ok (map key_of (flatten rows'))
  pub values :
      splice t.attr_values old_start old_end (map value_of r') ≡ ok (map value_of (flatten rows'))
  pub offsets :
      shift_offsets_after (i + 1) (length r') (old_end - old_start) t.attr_offsets
      ≡ offsets_from zero rows'

replace_split :
    (t : Trace) (before after : Rows) (r r' : List (ℕ × AttrValue))
    → Csr t (before ++ r ∷ after)
    → length (flatten (before ++ r' ∷ after)) < 2 ^ 32
    → Replaces t (length before) r' (before ++ r' ∷ after)
replace_split t before after r r' c h = record {
  old_start = length (flatten before);
  old_end = length (flatten before) + length r;
  at_start = start_offset t before after r c;
  at_end = end_offset t before after r c;
  keys = rw c.keys (splice-row key_of before after r r');
  values = rw c.values (splice-row value_of before after r r');
  offsets =
      rw (c.offsets, add-one, add-sub_left (length (flatten before)) (length r))
        (shift_offsets_after_lem zero before r r' after (sizes r c.small) (sizes' r' h));
}
  where
    total :
        (x : List (ℕ × AttrValue))
        → length (flatten (before ++ x ∷ after))
          ≡ length (flatten before) + (length x + length (flatten after))
    total x = omega (
      arith,
      ap length (flatten-append before (x ∷ after)),
      length-append (flatten before) (x ++ flatten after),
      length-append x (flatten after),
    )

    sizes :
        (x : List (ℕ × AttrValue))
        → length (flatten (before ++ x ∷ after)) < 2 ^ 32
        → 0 + length (flatten before) + length x < 2 ^ 32
    sizes x p = omega (arith, total x)

    sizes' :
        (x : List (ℕ × AttrValue))
        → length (flatten (before ++ x ∷ after)) < 2 ^ 32
        → 0 + length (flatten before) + length x + length (flatten after) < 2 ^ 32
    sizes' x p = omega (arith, total x)

-- Replacing row `i`.
pub set-Replaces :
    (t : Trace) (rows : Rows) (i : ℕ) (r r' : List (ℕ × AttrValue))
    → Csr t rows
    → get_elem? rows i ≡ some r
    → length (flatten (set rows i r')) < 2 ^ 32
    → Replaces t i r' (set rows i r')
set-Replaces t rows i r r' c h small =
    let s = Split-at rows i h in go s.before s.after s.whole s.place
  where
    go :
        (before after : Rows)
        → rows ≡ before ++ r ∷ after
        → length before ≡ i
        → Replaces t i r' (set rows i r')
    go before after whole place =
        let e : set rows i r' ≡ before ++ r' ∷ after =
          rw (whole, ← place) (set-append before r r' after) in
        rw (e, ← place) (replace_split t before after r r' (subst (Csr t) whole c) (rw e at small))
