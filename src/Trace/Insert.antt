-- ===== src/Trace/Insert.antt =====
-- `Trace::insert` and `Trace::overwrite_at` of src/store/trace.rs.
use spanfall.Prelude.{
  ℕ, zero, suc, ◌+◌, ◌-◌, ◌%◌, ◌^◌, Bool, true, false, Option, none, some, List, [], ◌∷◌, ◌++◌, map,
  length, Exec, ok, ◌>>=◌, at, assign, splice,
}
use spanfall.Prelude.Map
use spanfall.Prelude.Map.{Map}
use spanfall.Prelude.Text.{Text}
use spanfall.Types.{SpanId, AttrValue, span_id_eq}
use spanfall.Interner.{Interner, intern}
use spanfall.Trace.{NewSpan, InsertOutcome, Trace}

abbrev pub keep_pair : Option ℕ → AttrValue → List (ℕ × AttrValue) → List (ℕ × AttrValue)
keep_pair none v rest = rest
keep_pair (some id) v rest = (id, v) ∷ rest

-- The `filter_map` over the span's attributes: a refused key drops its pair.
unfoldable pub intern_attrs : Interner → List (Text × AttrValue) → Interner × List (ℕ × AttrValue)
intern_attrs i [] = (i, [])
intern_attrs i ((k, v) ∷ kvs) =
    let (i', r) = intern i k in let (i'', rest) = intern_attrs i' kvs in (i'', keep_pair r v rest)

-- `iter_mut().skip(count)`, with `*off = (*off as i64 + delta) as u32`. `delta` is
-- `new_len - removed`, and `removed` is below 2^32.
unfoldable pub shift_offset : ℕ → ℕ → ℕ → ℕ
shift_offset new_len removed off = (off + new_len + (2 ^ 32 - removed)) % 2 ^ 32

unfoldable pub shift_offsets_after : ℕ → ℕ → ℕ → List ℕ → List ℕ
shift_offsets_after zero new_len removed offs = map (shift_offset new_len removed) offs
shift_offsets_after (suc count) new_len removed [] = []
shift_offsets_after (suc count) new_len removed (off ∷ offs) =
    off ∷ shift_offsets_after count new_len removed offs

unfoldable pub overwrite_at : Trace → ℕ → NewSpan → Option ℕ → List (ℕ × AttrValue) → Exec Trace
overwrite_at t idx span service_name_id interned_attrs = do
  names ← assign t.names idx span.name
  starts ← assign t.start_time_unix_nano idx span.start_time_unix_nano
  ends ← assign t.end_time_unix_nano idx span.end_time_unix_nano
  messages ← assign t.status_message idx span.status_message
  codes ← assign t.status_code idx span.status_code
  unknowns ← assign t.unknown_service idx span.unknown_service
  services ← assign t.service_name_id idx service_name_id
  old_start ← at t.attr_offsets idx
  old_end ← at t.attr_offsets (idx + 1)
  keys ← splice t.attr_keys old_start old_end (map (λ kv. kv.0) interned_attrs)
  values ← splice t.attr_values old_start old_end (map (λ kv. kv.1) interned_attrs)
  ok (record t {
    names = names;
    start_time_unix_nano = starts;
    end_time_unix_nano = ends;
    status_message = messages;
    status_code = codes;
    unknown_service = unknowns;
    service_name_id = services;
    attr_keys = keys;
    attr_values = values;
    attr_offsets =
        shift_offsets_after (idx + 1) (length interned_attrs) (old_end - old_start) t.attr_offsets;
  })

-- `pending_children.entry(pid).or_default().push(idx)`.
unfoldable pub push_pending : Map SpanId (List ℕ) → SpanId → ℕ → Map SpanId (List ℕ)
push_pending m pid idx =
    Map.insert m pid (elim (Map.get m pid) [ none ↦ [] | some children ↦ children ] ++ idx ∷ [])

-- The `match` on `span.parent_span_id`: the parent's index, whether the span is an orphan, and the
-- children that wait.
unfoldable pub find_parent : Trace → ℕ → Option SpanId → Option ℕ × Bool × Map SpanId (List ℕ)
find_parent t idx none = (none, false, t.pending_children)
find_parent t idx (some pid) = elim (Map.get t.span_index pid) [
  | some pidx ↦ (some pidx, false, t.pending_children)
  | none ↦ (none, true, push_pending t.pending_children pid idx)
]

-- The loop over the children that waited for this span.
unfoldable pub patch_children :
    ℕ → List ℕ → List (Option ℕ) → List Bool → Exec (List (Option ℕ) × List Bool)
patch_children idx [] parents orphans = ok (parents, orphans)
patch_children idx (child ∷ children) parents orphans = do
  parents' ← assign parents child (some idx)
  orphans' ← assign orphans child false
  patch_children idx children parents' orphans'

-- `if let Some(children) = self.pending_children.remove(&span.span_id)`.
unfoldable pub patch_waiting : Trace → SpanId → ℕ → Exec Trace
patch_waiting t id idx = elim (Map.get t.pending_children id) [
  | none ↦ ok t
  | some children ↦ do
    (parents, orphans) ← patch_children idx children t.parent_idx t.orphan
    ok (record t {
      parent_idx = parents;
      orphan = orphans;
      pending_children = Map.remove t.pending_children id;
    })
]

-- The pushes of a span that is new: all of `insert` between the look-up and the patching.
unfoldable pub push_span : Trace → NewSpan → Option ℕ → List (ℕ × AttrValue) → Trace
push_span t span service_name_id interned_attrs =
    let idx = length t.span_ids in
    let (parent, is_orphan, pending) = find_parent t idx span.parent_span_id in
    let keys = t.attr_keys ++ map (λ kv. kv.0) interned_attrs in
    record t {
      span_ids = t.span_ids ++ span.span_id ∷ [];
      names = t.names ++ span.name ∷ [];
      start_time_unix_nano = t.start_time_unix_nano ++ span.start_time_unix_nano ∷ [];
      end_time_unix_nano = t.end_time_unix_nano ++ span.end_time_unix_nano ∷ [];
      status_message = t.status_message ++ span.status_message ∷ [];
      status_code = t.status_code ++ span.status_code ∷ [];
      unknown_service = t.unknown_service ++ span.unknown_service ∷ [];
      service_name_id = t.service_name_id ++ service_name_id ∷ [];
      parent_idx = t.parent_idx ++ parent ∷ [];
      orphan = t.orphan ++ is_orphan ∷ [];
      pending_children = pending;
      attr_keys = keys;
      attr_values = t.attr_values ++ map (λ kv. kv.1) interned_attrs;
      attr_offsets = t.attr_offsets ++ (length keys % 2 ^ 32) ∷ [];
      span_index = Map.insert t.span_index span.span_id idx;
    }

-- `insert` after the attributes are interned.
unfoldable pub insert_interned :
    Trace → NewSpan → Option ℕ → List (ℕ × AttrValue) → Exec (Trace × InsertOutcome)
insert_interned t span service_name_id interned_attrs = elim (Map.get t.span_index span.span_id) [
  | some idx ↦ do
    t' ← overwrite_at t idx span service_name_id interned_attrs
    ok (t', record { local_idx = idx; is_duplicate = true })
  | none ↦
      let idx = length t.span_ids in
      do
        t' ← patch_waiting (push_span t span service_name_id interned_attrs) span.span_id idx
        ok (t', record { local_idx = idx; is_duplicate = false })
]

unfoldable pub insert :
    Trace → NewSpan → Option ℕ → Interner → ℕ → Exec (Trace × InsertOutcome × Interner)
insert t span service_name_id key_interner now_unix_nano =
    let (key_interner', interned_attrs) = intern_attrs key_interner span.attributes in
    let t1 = record t { last_activity_unix_nano = now_unix_nano } in
    do
      (t', outcome) ← insert_interned t1 span service_name_id interned_attrs
      ok (t', outcome, key_interner')
