-- ===== src/Server/Order.antt =====
-- What the API of a running server (src/main.rs) serves does not depend on the order of arrival.
use mathlib.Core.List.{Permᴰ}
use spanfall.Prelude.{
  ℕ, ◌≤◌, ◌≡◌, ◌⊎◌, inl, inr, refl, ◌∙◌, subst, Bool, true, false, none, List, [], ◌∷◌, arith, ok,
}
use spanfall.Prelude.Text.{Text}
use spanfall.Prelude.Pairwise.{Pairwise-Permᴰ}
use spanfall.Types.{TraceId, IsBytes, to_hex, trace_id_eq}
use spanfall.Trace.{NewSpan}
use spanfall.Store.{Store, new as new_store}
use spanfall.Store.Valid.{Room, store_new-IsValid}
use spanfall.Store.View.Order.{
  of_trace, AllApart, SpansDiffer, SpansDiffer-flip, of_trace-Apart, joined, get-absorb_spans,
  Apart,
}
use spanfall.Store.View.Permuted.{
  of_trace-Permᴰ, parent_in, orphan_in, parent_in-Permᴰ, orphan_in-Permᴰ,
}
use spanfall.Ingest.Convert.{RejectReason, SpanBatch}
use spanfall.Ingest.Handler.Accounts.{Arrival, delivered, span_total}
use spanfall.Api.{not_found, json}
use spanfall.Api.Traces.{TracePayload, get_trace}
use spanfall.Api.Traces.Shown.{Gives, Served}
use spanfall.Server.{Server, Reaches}
use spanfall.Server.Drain.{attrs_in, Reaches-Ran}
use spanfall.Server.Whole.{sent_spans, bytes_in, drained-ServesAll}

-- Two payloads of the same spans, each with the same parent.
pub record SameSpans (p q : TracePayload) : Type 0 where
  pub spans : List NewSpan
  pub others : List NewSpan
  pub given : Gives spans p
  pub given_too : Gives others q
  pub permuted : Permᴰ spans others
  pub parents : (x : NewSpan) → parent_in spans x ≡ parent_in others x
  pub orphans : (x : NewSpan) → orphan_in spans x ≡ orphan_in others x

-- Two stores answer alike: the trace is in neither, or in both with the same spans.
abbrev pub SameTrace : Store → Store → TraceId → Type 0
SameTrace s s' id =
    ((get_trace s (to_hex id) ≡ ok not_found) × (get_trace s' (to_hex id) ≡ ok not_found))
    ⊎ ((p : TracePayload) × (q : TracePayload) × (get_trace s (to_hex id) ≡ ok (json p))
        × (get_trace s' (to_hex id) ≡ ok (json q))
        × SameSpans p q)

-- A history that the tables and the budget have room for.
pub record IsSmall (max_memory_bytes : ℕ) (history : List Arrival) : Type 0 where
  pub attrs : attrs_in (delivered history) ≤ 100000
  pub spans : span_total (delivered history) ≤ 100000
  pub bytes : bytes_in (delivered history) ≤ max_memory_bytes

abbrev is_nil : List NewSpan → Bool
is_nil [] = true
is_nil (x ∷ xs) = false

is_nil-Permᴰ : {xs ys : List NewSpan} → Permᴰ xs ys → is_nil xs ≡ is_nil ys
is_nil-Permᴰ Permᴰ.nil = refl
is_nil-Permᴰ (Permᴰ.cons e p) = refl
is_nil-Permᴰ (Permᴰ.swap e f) = refl
is_nil-Permᴰ (Permᴰ.trans p q) = is_nil-Permᴰ p ∙ is_nil-Permᴰ q

same_trace :
    (s s' : Store) (id : TraceId) (xs ys : List NewSpan)
    → Permᴰ xs ys
    → Apart xs
    → Served s id (joined none xs)
    → Served s' id (joined none ys)
    → SameTrace s s' id
same_trace s s' id [] [] p apart here there = inl (here, there)
same_trace s s' id [] (y ∷ ys) p apart here there = absurd (let e = is_nil-Permᴰ p in cc)
same_trace s s' id (x ∷ xs) [] p apart here there = absurd (let e = is_nil-Permᴰ p in cc)
same_trace s s' id (x ∷ xs) (y ∷ ys) p apart (q, ret, gives) (q', ret', gives') = inr (
  q,
  q',
  ret,
  ret',
  record {
    spans = x ∷ xs;
    others = y ∷ ys;
    given = gives;
    given_too = gives';
    permuted = p;
    parents = parent_in-Permᴰ p apart;
    orphans = orphan_in-Permᴰ p apart;
  },
)

-- What a drained server serves of spans that are all different.
drained-Served :
    (debug : RejectReason → Text) (max_memory_bytes : ℕ) (history : List Arrival)
    (applied : List (SpanBatch × ℕ)) (s : Server) (id : TraceId)
    → IsSmall max_memory_bytes history
    → s.waiting ≡ []
    → AllApart (sent_spans (delivered history))
    → IsBytes 16 id.bytes
    → Reaches debug (new_store max_memory_bytes) history applied s
    → Served s.writer.store id (joined none (of_trace id (sent_spans (delivered history))))
unfolding new_store
drained-Served debug max_memory_bytes history applied s id small empty apart sixteen reached =
    let v = store_new-IsValid max_memory_bytes in
    let room : Room (attrs_in (delivered history)) (new_store max_memory_bytes) =
      (omega (arith, small.attrs), tt) in
    let ran = Reaches-Ran debug (new_store max_memory_bytes) history applied s v room reached in
    let all =
      drained-ServesAll debug max_memory_bytes history applied s small.attrs small.spans small.bytes
        empty ran.valid reached in
    subst (Served s.writer.store id)
      (get-absorb_spans [] id (sent_spans (delivered history))
        (of_trace-Apart id (sent_spans (delivered history)) apart))
      (all.payloads id sixteen)

-- Two servers start with empty stores of one budget, and nothing waits on their channels any more.
-- Their channels took the same spans, which all differ in the trace or in the id, but in any order,
-- split into batches in any way and over any transport; the tables and the budget have room for
-- them. Then for the hexadecimal form of any id of sixteen bytes either both answer 404, or both
-- give the same spans of the trace up to their order, each with the same parent, or as an orphan in
-- both.
pub Reaches-SameTrace :
    (debug : RejectReason → Text) (max_memory_bytes : ℕ) (history history' : List Arrival)
    (applied applied' : List (SpanBatch × ℕ)) (s s' : Server) (id : TraceId)
    → IsSmall max_memory_bytes history
    → IsSmall max_memory_bytes history'
    → s.waiting ≡ []
    → s'.waiting ≡ []
    → AllApart (sent_spans (delivered history))
    → Permᴰ (sent_spans (delivered history)) (sent_spans (delivered history'))
    → IsBytes 16 id.bytes
    → Reaches debug (new_store max_memory_bytes) history applied s
    → Reaches debug (new_store max_memory_bytes) history' applied' s'
    → SameTrace s.writer.store s'.writer.store id
Reaches-SameTrace debug max_memory_bytes history history' applied applied' s s' id small small'
      empty empty' apart p sixteen reached reached' =
    same_trace s.writer.store s'.writer.store id (of_trace id (sent_spans (delivered history)))
      (of_trace id (sent_spans (delivered history'))) (of_trace-Permᴰ id p)
      (of_trace-Apart id (sent_spans (delivered history)) apart)
      (drained-Served debug max_memory_bytes history applied s id small empty apart sixteen reached)
      (drained-Served debug max_memory_bytes history' applied' s' id small' empty'
        (Pairwise-Permᴰ SpansDiffer SpansDiffer-flip p apart) sixteen reached')
