-- ===== src/Demo/Total.antt =====
-- The size that the store of src/store/mod.rs gives the spans of src/demo.rs.
use spanfall.Prelude.{
  ℕ, Exec, ok, ◌>>=◌, ◌≡◌, refl, ap, ◌∙◌, sym, slice, splice, of_ok, panic, arith,
}
use spanfall.Demo.{
  span, search_span, to_be_bytes, demo_spans, insert_all, search_spans, search_leaves,
}
use spanfall.Interner
use spanfall.Prelude.Map
use spanfall.Prelude.Strings.{decimal_from, to_string}
use spanfall.Prelude.Text.{as_bytes, str_len, utf8}
use spanfall.Store.{
  Store, insert_span_no_evict, entry, count_insert, intern_service, is_resurrected,
  new as new_store,
}
use spanfall.Store.Evict.{sum_approx_bytes, approx_bytes, approx_bytes_from, total_approx_bytes}
use spanfall.Trace.{new as new_trace, attributes, name, span_count}
use spanfall.Trace.Insert.{
  insert, insert_interned, patch_waiting, push_span, find_parent, push_pending, intern_attrs,
  overwrite_at, patch_children, shift_offset, shift_offsets_after,
}

-- The size of a store with the spans of the demonstration, and its budget.
abbrev with_budget : Store → ℕ → Exec (ℕ × ℕ)
with_budget store bytes = ok (bytes, store.max_memory_bytes)

abbrev measure : Store → Exec (ℕ × ℕ)
measure store = total_approx_bytes store >>= with_budget store

abbrev measured : ℕ → Exec (ℕ × ℕ)
measured max_memory_bytes = insert_all (new_store max_memory_bytes) demo_spans 0 >>= measure

measured_lem : (max_memory_bytes : ℕ) → measured max_memory_bytes ≡ ok (15375, max_memory_bytes)
unfolding span search_span to_be_bytes demo_spans insert_all search_spans search_leaves
    Interner.intern Interner.intern_new Interner.new Map.insert Map.remove decimal_from to_string
    as_bytes str_len utf8 insert_span_no_evict entry count_insert intern_service is_resurrected
    new_store sum_approx_bytes approx_bytes approx_bytes_from total_approx_bytes new_trace
    attributes name span_count insert insert_interned patch_waiting push_span find_parent
    push_pending intern_attrs overwrite_at patch_children shift_offset shift_offsets_after slice
    splice
measured_lem max_memory_bytes = refl

-- A store with those spans takes 15375 bytes, by the store's own reckoning.
pub total_approx_bytes-insert_all :
    (max_memory_bytes : ℕ) (store : Store)
    → insert_all (new_store max_memory_bytes) demo_spans 0 ≡ ok store
    → (total_approx_bytes store ≡ ok 15375) × (store.max_memory_bytes ≡ max_memory_bytes)
total_approx_bytes-insert_all max_memory_bytes store ret =
    both (total_approx_bytes store) refl
      (sym (ap (λ r. r >>= measure) ret) ∙ measured_lem max_memory_bytes)
  where
    both :
        (r : Exec ℕ)
        → total_approx_bytes store ≡ r
        → (r >>= with_budget store) ≡ ok (15375, max_memory_bytes)
        → (total_approx_bytes store ≡ ok 15375) × (store.max_memory_bytes ≡ max_memory_bytes)
    both (ok b) e h = let pair = of_ok h in (e ∙ ap (λ p. ok p.0) pair, ap (λ p. p.1) pair)
    both panic e h = ground arith
