-- ===== src/Server/Seen.antt =====
-- What the store of a running server shows: the spans of the batches that the writer applied.
use spanfall.Prelude.{ℕ, ◌+◌, ◌≡◌, sym, ap, ◌∙◌, subst, List, [], ◌∷◌, ◌++◌, arith, of_ok}
use spanfall.Prelude.Text.{Text}
use spanfall.Store.{Store}
use spanfall.Store.Valid.{IsValid, Room}
use spanfall.Store.Writer.Runs.{batches_attr_total, Room-le}
use spanfall.Store.View.{View, Shows, Spare}
use spanfall.Store.View.Batches.{Sees, run-Sees, batches_span_count}
use spanfall.Ingest.Convert.{RejectReason, SpanBatch}
use spanfall.Ingest.Handler.Accounts.{Arrival, delivered, span_total}
use spanfall.Server.{Server, Reaches, spawn}
use spanfall.Server.Flow.{batches_of, Reaches-Flows}
use spanfall.Server.Drain.{attrs_in, attrs_in-delivered}

span_total-append :
    (applied : List (SpanBatch × ℕ)) (bs : List SpanBatch)
    → span_total (batches_of applied ++ bs) ≡ batches_span_count applied + span_total bs
span_total-append [] bs = omega arith
span_total-append (b ∷ applied) bs = omega (arith, span_total-append applied bs)

-- A server starts with a valid store that shows a view, with room for all attributes that the channel
-- took in each trace, and for their keys and one service for each span in the tables. In every state
-- that it comes to, the store shows a view that comes of the first one by absorbing the applied
-- batches, in order, where some traces may be dropped whole after each batch.
pub Reaches-Sees :
    (debug : RejectReason → Text) (store : Store) (m : View) (history : List Arrival)
    (applied : List (SpanBatch × ℕ)) (s : Server)
    → IsValid store
    → Room (attrs_in (delivered history)) store
    → Spare store (attrs_in (delivered history)) (span_total (delivered history))
    → Shows store m
    → Reaches debug store history applied s
    → (m' : View) × Sees m applied m' × Shows s.writer.store m'
unfolding spawn
Reaches-Sees debug store m history applied s v room spare shows reached =
    let f = Reaches-Flows debug store history applied s reached in
    let attrs = attrs_in-delivered debug store history applied s reached in
    let spans : span_total (delivered history) ≡ batches_span_count applied + span_total s.waiting =
      ap span_total f.conserved ∙ span_total-append applied s.waiting in
    let enough =
      Room-le (batches_attr_total applied) (attrs_in (delivered history)) store
        (omega (arith, attrs)) room in
    let fits : Spare store (batches_attr_total applied) (batches_span_count applied) = record {
      keys = omega (arith, spare.keys, attrs);
      services = omega (arith, spare.services, spans);
    } in
    let (w, ret, (m', sees, shown)) = run-Sees (spawn store).writer applied m v enough fits shows in
    (m', sees, subst (λ w. Shows w.store m') (of_ok (sym ret ∙ f.stored)) shown)
