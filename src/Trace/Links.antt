-- ===== src/Trace/Links.antt =====
-- Parents and orphans: what the insertion of a new span does to the resolved links
-- (src/store/trace.rs).
mod Pending
use spanfall.Prelude.{
  ℕ, zero, suc, ◌+◌, ◌≡◌, refl, sym, ap, ◌∙◌, Bool, true, false, Option, none, some, List, [], ◌∷◌,
  ◌++◌, map, if◌then◌else◌, length, is_some, arith, Bool-cases, Option-cases, inl, inr, ◌==◌,
  length-append, map-append, append_assoc, append-nil, Exec, ok, assign, assign_lem, set-append,
}
use spanfall.Prelude.Map
use spanfall.Prelude.Map.{Map}
use spanfall.Types.{SpanId, span_id_eq, span_id_beq_iff, AttrValue}
use spanfall.Trace.{Trace, NewSpan}
use spanfall.Trace.Insert.{find_parent, push_pending, patch_children, patch_waiting, push_span}
use spanfall.Trace.Spec.{
  position, parent_of, orphan_of, names_parent, children_of, waiting_for, Links,
}
pub use Pending.{position-snoc, children_of-snoc}
use Pending.{
  pending_with, find_parent_lem, waiting_for-push_pending, waiting_for-remove, patch_children_lem,
}

-- The children that wait once those of `id` are served.
abbrev cleared : Map SpanId (List ℕ) → SpanId → Map SpanId (List ℕ)
cleared m id = elim (Map.get m id) [ none ↦ m | some children ↦ Map.remove m id ]

pairs {ℓ κ} :
    {A : Type ℓ} {B : Type κ} (a a' : A) (b b' : B)
    → ◌≡◌ {A = Exec (A × B)} (ok (a, b)) (ok (a', b'))
    → (a ≡ a') × (b ≡ b')
pairs a a' b b' h = ground arith

patch_waiting_lem :
    (t : Trace) (id : SpanId) (idx : ℕ) (parents : List (Option ℕ)) (orphans : List Bool)
    → patch_children idx (waiting_for t.pending_children id) t.parent_idx t.orphan
      ≡ ok (parents, orphans)
    → patch_waiting t id idx
      ≡ ok (record t {
        parent_idx = parents;
        orphan = orphans;
        pending_children = cleared t.pending_children id;
      })
unfolding patch_waiting
patch_waiting_lem t id idx parents orphans h = elim (Option-cases (Map.get t.pending_children id)) [
  | inl e ↦
      let (p, o) =
        pairs t.parent_idx parents t.orphan orphans
          (unfold patch_children in rw (e, waiting_for) at h) in
      rw (← p, ← o) (ground (arith, e))
  | inr (children, e) ↦
      let h' : patch_children idx children t.parent_idx t.orphan ≡ ok (parents, orphans) =
        rw (e, waiting_for) at h in
      ground (arith, e, h')
]

waiting_for-cleared :
    (m : Map SpanId (List ℕ)) (id s : SpanId)
    → waiting_for (cleared m id) s ≡ (if id == s then [] else waiting_for m s)
waiting_for-cleared m id s = elim (Option-cases (Map.get m id)) [
  | inl e ↦ ground (arith, e, span_id_beq_iff id s)
  | inr (children, e) ↦ ground (arith, e, waiting_for-remove m id s)
]

module _ (t : Trace) (parents : List (Option SpanId)) (span : NewSpan) (service : Option ℕ)
    (attrs : List (ℕ × AttrValue)) (l : Links t parents)
    (absent : position span.span_id t.span_ids ≡ none) where
  abbrev all_ids : List SpanId
  all_ids = t.span_ids ++ span.span_id ∷ []

  abbrev all_parents : List (Option SpanId)
  all_parents = parents ++ span.parent_span_id ∷ []

  -- The trace after the pushes and the patching.
  abbrev pub linked : Trace
  linked = record (push_span t span service attrs) {
    parent_idx = map (parent_of all_ids) all_parents;
    orphan = map (orphan_of all_ids) all_parents;
    pending_children =
        cleared (pending_with t (length t.span_ids) span.parent_span_id) span.span_id;
  }

  waiting_for-pending_with :
      (s : SpanId)
      → waiting_for (pending_with t (length t.span_ids) span.parent_span_id) s
        ≡ (if is_some (position s t.span_ids) then [] else children_of s zero all_parents)
  waiting_for-pending_with s =
      rw (children_of-snoc s zero parents span.parent_span_id) (go span.parent_span_id)
    where
      go :
          (p : Option SpanId)
          → waiting_for (pending_with t (length t.span_ids) p) s ≡ (
              if is_some (position s t.span_ids)
              then []
              else children_of s zero parents
                ++ (if names_parent s p then (0 + length parents) ∷ [] else []))
      go none = rw append-nil (l.pending s)
      go (some pid) = ground (
        arith,
        waiting_for-push_pending t.pending_children pid s (length t.span_ids),
        l.pending s,
        l.as_many,
        span_id_beq_iff pid s,
        append-nil (children_of s zero parents),
      )

  pushed_parents :
      (push_span t span service attrs).parent_idx ≡ map (parent_of t.span_ids) all_parents
  unfolding push_span
  pushed_parents =
      rw (find_parent_lem t (length t.span_ids) span.parent_span_id l.index, l.parent)
        (sym (map-append (parent_of t.span_ids) parents (span.parent_span_id ∷ [])))

  pushed_orphans : (push_span t span service attrs).orphan ≡ map (orphan_of t.span_ids) all_parents
  unfolding push_span
  pushed_orphans =
      rw (find_parent_lem t (length t.span_ids) span.parent_span_id l.index, l.orphan)
        (sym (map-append (orphan_of t.span_ids) parents (span.parent_span_id ∷ [])))

  pushed_pending :
      (push_span t span service attrs).pending_children
      ≡ pending_with t (length t.span_ids) span.parent_span_id
  unfolding push_span
  pushed_pending = rw (find_parent_lem t (length t.span_ids) span.parent_span_id l.index)

  patched :
      patch_children
        (length t.span_ids)
        (waiting_for (push_span t span service attrs).pending_children span.span_id)
        (push_span t span service attrs).parent_idx
        (push_span t span service attrs).orphan
      ≡ ok (map (parent_of all_ids) all_parents, map (orphan_of all_ids) all_parents)
  patched =
      rw
        (
          pushed_pending,
          waiting_for-pending_with span.span_id,
          absent,
          pushed_parents,
          pushed_orphans,
        )
        (patch_children_lem t.span_ids span.span_id absent all_parents [] [] zero refl refl)

  pub patch-linked :
      patch_waiting (push_span t span service attrs) span.span_id (length t.span_ids) ≡ ok linked
  patch-linked =
      patch_waiting_lem (push_span t span service attrs) span.span_id (length t.span_ids)
        (map (parent_of all_ids) all_parents) (map (orphan_of all_ids) all_parents) patched
      ∙ ap
          (λ m. ok (record (push_span t span service attrs) {
            parent_idx = map (parent_of all_ids) all_parents;
            orphan = map (orphan_of all_ids) all_parents;
            pending_children = cleared m span.span_id;
          }))
          pushed_pending

  linked-index : (s : SpanId) → Map.get linked.span_index s ≡ position s all_ids
  unfolding push_span
  linked-index s = ground (
    arith,
    Map.get-insert t.span_index span.span_id s (length t.span_ids),
    position-snoc s span.span_id t.span_ids,
    l.index s,
    span_id_beq_iff span.span_id s,
    absent,
  )

  linked-pending :
      (s : SpanId)
      → waiting_for linked.pending_children s
        ≡ (if is_some (position s all_ids) then [] else children_of s zero all_parents)
  linked-pending s = ground (
    arith,
    waiting_for-cleared (pending_with t (length t.span_ids) span.parent_span_id) span.span_id s,
    waiting_for-pending_with s,
    position-snoc s span.span_id t.span_ids,
    span_id_beq_iff span.span_id s,
  )

  pub linked-Links : Links linked all_parents
  unfolding push_span
  linked-Links = record {
    index = linked-index;
    parent = refl;
    orphan = refl;
    pending = linked-pending;
    as_many = omega (
      arith,
      length-append t.span_ids (span.span_id ∷ []),
      length-append parents (span.parent_span_id ∷ []),
      l.as_many,
    );
  }
