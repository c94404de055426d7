-- ===== src/Trace/Links/Pending.antt =====
-- The pending children and the parent links of src/store/trace.rs as a span is pushed, step by step.
use spanfall.Prelude.{
  ℕ, suc, ◌+◌, ◌≡◌, refl, ap, ◌∙◌, Bool, true, false, Option, none, some, List, [], ◌∷◌, ◌++◌, map,
  if◌then◌else◌, length, is_some, arith, Bool-cases, inl, inr, ◌==◌, length-append, append_assoc,
  ok, assign, assign_lem, set-append,
}
use spanfall.Prelude.Map
use spanfall.Prelude.Map.{Map}
use spanfall.Types.{SpanId, span_id_eq, span_id_beq_iff}
use spanfall.Trace.{Trace}
use spanfall.Trace.Insert.{find_parent, push_pending, patch_children}
use spanfall.Trace.Spec.{position, parent_of, orphan_of, names_parent, children_of, waiting_for}

pub position-snoc :
    (s x : SpanId) (ids : List SpanId)
    → position s (ids ++ x ∷ []) ≡ elim (position s ids) [
      | some i ↦ some i
      | none ↦ if x == s then some (length ids) else none
    ]
unfolding position
position-snoc s x [] = ground arith
position-snoc s x (y ∷ ids) = ground (arith, position-snoc s x ids)

pub children_of-snoc :
    (s : SpanId) (k : ℕ) (ps : List (Option SpanId)) (p : Option SpanId)
    → children_of s k (ps ++ p ∷ [])
      ≡ children_of s k ps ++ (if names_parent s p then (k + length ps) ∷ [] else [])
unfolding children_of
children_of-snoc s k [] p = ground arith
children_of-snoc s k (q ∷ ps) p = ground (arith, children_of-snoc s (suc k) ps p)

-- The children that wait once a span with parent `p` stands at `idx`.
abbrev pub pending_with : Trace → ℕ → Option SpanId → Map SpanId (List ℕ)
pending_with t idx none = t.pending_children
pending_with t idx (some pid) =
    if is_some (position pid t.span_ids)
    then t.pending_children
    else push_pending t.pending_children pid idx

pub find_parent_lem :
    (t : Trace) (idx : ℕ) (p : Option SpanId)
    → ((s : SpanId) → Map.get t.span_index s ≡ position s t.span_ids)
    → find_parent t idx p ≡ (parent_of t.span_ids p, orphan_of t.span_ids p, pending_with t idx p)
unfolding find_parent
find_parent_lem t idx none index = refl
find_parent_lem t idx (some pid) index = ground (arith, index pid)

pub waiting_for-push_pending :
    (m : Map SpanId (List ℕ)) (pid s : SpanId) (idx : ℕ)
    → waiting_for (push_pending m pid idx) s
      ≡ (if pid == s then waiting_for m s ++ idx ∷ [] else waiting_for m s)
unfolding push_pending
waiting_for-push_pending m pid s idx =
    ground (arith, Map.get-insert m pid s (waiting_for m pid ++ idx ∷ []), span_id_beq_iff pid s)

pub waiting_for-remove :
    (m : Map SpanId (List ℕ)) (id s : SpanId)
    → waiting_for (Map.remove m id) s ≡ (if id == s then [] else waiting_for m s)
waiting_for-remove m id s = ground (arith, Map.get-remove m id s)

assign-append {ℓ} :
    {A : Type ℓ} (xs : List A) (x v : A) (ys : List A) (k : ℕ)
    → length xs ≡ k
    → assign (xs ++ x ∷ ys) k v ≡ ok (xs ++ v ∷ ys)
assign-append xs x v ys k l = rw (← l) (
    assign_lem (xs ++ x ∷ ys) (length xs) v (omega (arith, length-append xs (x ∷ ys)))
    ∙ ap ok (set-append xs x v ys))

-- A new id `sid` behind the others.
module _ (ids : List SpanId) (sid : SpanId) (absent : position sid ids ≡ none) where
  abbrev ids' : List SpanId
  ids' = ids ++ sid ∷ []

  position_self : position sid ids' ≡ some (length ids)
  position_self = rw (position-snoc sid sid ids, absent) (ground (arith, span_id_beq_iff sid sid))

  position-other : (s : SpanId) → (sid == s) ≡ false → position s ids' ≡ position s ids
  position-other s ne = rw (position-snoc s sid ids) (ground arith)

  links-hit :
      (p : Option SpanId)
      → names_parent sid p ≡ true
      → (parent_of ids' p ≡ some (length ids)) × (orphan_of ids' p ≡ false)
  links-hit none h = cc
  links-hit (some pid) h =
      let same = (span_id_beq_iff pid sid).0 h in rw (same, position_self) (refl, refl)

  links-miss :
      (p : Option SpanId)
      → names_parent sid p ≡ false
      → (parent_of ids' p ≡ parent_of ids p) × (orphan_of ids' p ≡ orphan_of ids p)
  links-miss none h = (refl, refl)
  links-miss (some pid) h =
      rw (position-other pid (ground (arith, span_id_beq_iff pid sid, span_id_beq_iff sid pid)))
        (refl, refl)

  -- Patching the children of `sid` turns the links among the old ids into those among the new.
  pub patch_children_lem :
      (ps : List (Option SpanId)) (pre : List (Option ℕ)) (opre : List Bool) (k : ℕ)
      → length pre ≡ k
      → length opre ≡ k
      → patch_children
          (length ids)
          (children_of sid k ps)
          (pre ++ map (parent_of ids) ps)
          (opre ++ map (orphan_of ids) ps)
        ≡ ok (pre ++ map (parent_of ids') ps, opre ++ map (orphan_of ids') ps)
  unfolding patch_children children_of
  patch_children_lem [] pre opre k l l' = refl
  patch_children_lem (p ∷ ps) pre opre k l l' = elim (Bool-cases (names_parent sid p)) [
    | inl hit ↦
        let next =
          patch_children_lem ps (pre ++ some (length ids) ∷ []) (opre ++ false ∷ []) (suc k)
            (omega (arith, length-append pre (some (length ids) ∷ []), l))
            (omega (arith, length-append opre (false ∷ []), l')) in
        rw (hit, (links-hit p hit).0, (links-hit p hit).1)
          (rw
            (
              assign-append pre (parent_of ids p) (some (length ids)) (map (parent_of ids) ps) k l,
              assign-append opre (orphan_of ids p) false (map (orphan_of ids) ps) k l',
            )
            (simp append_assoc at next))
    | inr miss ↦
        let next =
          patch_children_lem ps (pre ++ parent_of ids p ∷ []) (opre ++ orphan_of ids p ∷ []) (suc k)
            (omega (arith, length-append pre (parent_of ids p ∷ []), l))
            (omega (arith, length-append opre (orphan_of ids p ∷ []), l')) in
        rw (miss, (links-miss p miss).0, (links-miss p miss).1) (simp append_assoc at next)
  ]
