-- ===== src/Server/Flow.antt =====
-- What holds of every state that `run_server` of src/main.rs comes to.
use spanfall.Prelude.{
  ℕ, ◌≤◌, ◌≡◌, refl, sym, ap, ◌∙◌, subst, List, [], ◌∷◌, ◌++◌, append-nil, append_assoc, map,
  map-append, length, length-append, arith, Exec, ok, panic, ◌>>=◌,
}
use spanfall.Prelude.Text.{Text}
use spanfall.Store.{Store}
use spanfall.Store.Writer.{Writer, apply_batch, run}
use spanfall.Ingest.Convert.{RejectReason, SpanBatch, Result, ok, err, convert}
use spanfall.Ingest.Receiver.{default}
use spanfall.Ingest.Handler.{
  IngestState, SendOutcome, sent, closed, timed_out, accept, accept_conversion, send_batch,
  record_reject, catch_conversion_panic,
}
use spanfall.Ingest.Handler.Accounts.{Arrival, delivered, delivered_if, accept_all, accept-Step}
use spanfall.Server.{
  Server, MayEnd, Reaches, start, request, apply, arrive, spawn, channel_capacity,
}

-- The batches without the clock's readings.
abbrev pub batches_of : List (SpanBatch × ℕ) → List SpanBatch
batches_of applied = map (λ b. b.0) applied

abbrev pub state0 : IngestState
state0 = record { queue = []; receiver = default }

-- What the history of a server says of its state.
pub record Flows (debug : RejectReason → Text) (store : Store) (history : List Arrival)
    (applied : List (SpanBatch × ℕ)) (s : Server) : Type 0 where
  pub conserved : delivered history ≡ batches_of applied ++ s.waiting
  pub stored : run (spawn store).writer applied ≡ ok s.writer
  pub bounded : length s.waiting ≤ channel_capacity
  pub receiver : s.receiver ≡ (accept_all debug state0 history).receiver

delivered-append :
    (history : List Arrival) (a : Arrival)
    → delivered (history ++ a ∷ [])
      ≡ delivered history ++ delivered_if (convert a.request) a.outcome
delivered-append [] a = append-nil (delivered_if (convert a.request) a.outcome)
delivered-append (x ∷ history) a =
    ap (◌++◌ (delivered_if (convert x.request) x.outcome)) (delivered-append history a)
    ∙ sym (
        append_assoc (delivered_if (convert x.request) x.outcome) (delivered history)
          (delivered_if (convert a.request) a.outcome))

pub run-append :
    (w w1 : Writer) (xs ys : List (SpanBatch × ℕ)) → run w xs ≡ ok w1 → run w (xs ++ ys) ≡ run w1 ys
unfolding run
run-append w w1 [] ys h = ap (λ r. r >>= (λ w. run w ys)) h
run-append w w1 ((b, now) ∷ xs) ys h = step (apply_batch w b now) (λ w h. run-append w w1 xs ys h) h
  where
    step :
        (r : Exec Writer)
        → ((w : Writer) → run w xs ≡ ok w1 → run w (xs ++ ys) ≡ run w1 ys)
        → (r >>= (λ w. run w xs)) ≡ ok w1
        → (r >>= (λ w. run w (xs ++ ys))) ≡ run w1 ys
    step (ok w') rest h = rest w' h
    step panic rest h = ground arith

run-single : (w : Writer) (b : SpanBatch) (now : ℕ) → run w ((b, now) ∷ []) ≡ apply_batch w b now
unfolding run
run-single w b now = same (apply_batch w b now)
  where
    same : (r : Exec Writer) → (r >>= (λ w. ok w)) ≡ r
    same (ok w) = refl
    same panic = refl

module _ (debug : RejectReason → Text) where
  accept_all-append :
      (s : IngestState) (history : List Arrival) (a : Arrival)
      → accept_all debug s (history ++ a ∷ [])
        ≡ (accept debug (accept_all debug s history) a.request a.transport a.outcome a.now).0
  unfolding accept_all
  accept_all-append s [] a = refl
  accept_all-append s (x ∷ history) a =
      accept_all-append (accept debug s x.request x.transport x.outcome x.now).0 history a

  -- What the handler records does not depend on the channel.
  accept-receiver :
      (s s' : IngestState) (a : Arrival)
      → s.receiver ≡ s'.receiver
      → (accept debug s a.request a.transport a.outcome a.now).0.receiver
        ≡ (accept debug s' a.request a.transport a.outcome a.now).0.receiver
  unfolding accept accept_conversion catch_conversion_panic send_batch record_reject
  accept-receiver s s' a h = go (convert a.request) a.outcome
    where
      go :
          (c : Result RejectReason SpanBatch) (o : SendOutcome)
          → (accept_conversion debug s (ok c) a.transport o a.now).0.receiver
            ≡ (accept_conversion debug s' (ok c) a.transport o a.now).0.receiver
      go (ok batch) sent = rw h refl
      go (ok batch) closed = h
      go (ok batch) timed_out = h
      go (err reason) o = rw h refl

sent_fits :
    (s : Server) (c : Result RejectReason SpanBatch) (o : SendOutcome)
    → MayEnd s o
    → length s.waiting ≤ channel_capacity
    → length (s.waiting ++ delivered_if c o) ≤ channel_capacity
sent_fits s (ok batch) sent may h = omega (arith, length-append s.waiting (batch ∷ []))
sent_fits s (ok batch) closed may h = elim may [ ]
sent_fits s (ok batch) timed_out may h = omega (arith, length-append s.waiting [])
sent_fits s (err reason) o may h = omega (arith, length-append s.waiting [])

-- In every state that a server comes to, the batches that the channel took are those that the writer
-- applied, in order, followed by those that wait; the store and the sequence number are those of a
-- run of the writer over the applied batches; at most 1024 batches wait; and the shared state of the
-- handlers is that of the history of requests alone, whatever the writer did meanwhile.
pub Reaches-Flows :
    (debug : RejectReason → Text) (store : Store) (history : List Arrival)
    (applied : List (SpanBatch × ℕ)) (s : Server)
    → Reaches debug store history applied s
    → Flows debug store history applied s
unfolding spawn arrive run accept_all
Reaches-Flows debug store _ _ _ start = record {
  conserved = refl;
  stored = refl;
  bounded = omega arith;
  receiver = refl;
}
Reaches-Flows debug store _ applied _ (request {history} {s} a may before) =
    let f = Reaches-Flows debug store history applied s before in
    let here : IngestState = record { queue = s.waiting; receiver = s.receiver } in
    let step = accept-Step debug here a in
    record {
      conserved =
          delivered-append history a
          ∙ ap (λ xs. xs ++ delivered_if (convert a.request) a.outcome) f.conserved
          ∙ append_assoc (batches_of applied) s.waiting (delivered_if (convert a.request) a.outcome)
          ∙ ap (◌++◌ (batches_of applied)) (sym step.queue);
      stored = f.stored;
      bounded =
          subst (λ xs. length xs ≤ channel_capacity) (sym step.queue)
            (sent_fits s (convert a.request) a.outcome may f.bounded);
      receiver =
          accept-receiver debug here (accept_all debug state0 history) a f.receiver
          ∙ ap (λ s. s.receiver) (sym (accept_all-append debug state0 history a));
    }
Reaches-Flows debug store history _ _
      (apply {applied} {s} {batch} {rest} {w} now taken ret before) =
    let f = Reaches-Flows debug store history applied s before in
    record {
      conserved =
          f.conserved
          ∙ ap (◌++◌ (batches_of applied)) taken
          ∙ sym (append_assoc (batches_of applied) (batch ∷ []) rest)
          ∙ ap (λ xs. xs ++ rest) (sym (map-append (λ b. b.0) applied ((batch, now) ∷ [])));
      stored =
          run-append (spawn store).writer s.writer applied ((batch, now) ∷ []) f.stored
          ∙ run-single s.writer batch now
          ∙ ret;
      bounded = omega (arith, f.bounded, ap length taken);
      receiver = f.receiver;
    }
