-- ===== src/Server/Drain.antt =====
-- `run_server` of src/main.rs: the writer task gets through the batches that wait.
use spanfall.Prelude.{
  ℕ, suc, ◌+◌, ◌<◌, ◌%◌, ◌^◌, ◌≡◌, refl, sym, ap, ◌∙◌, subst, inl, Bool, true, false, List, [], ◌∷◌,
  ◌++◌, append_assoc, append-nil, length, length-map, arith, ok, of_ok,
}
use spanfall.Prelude.Text.{Text}
use spanfall.Store.{Store, new as new_store}
use spanfall.Store.Valid.{IsValid, Room, store_new-IsValid}
use spanfall.Store.Budget.{IsWithin, new-IsWithin}
use spanfall.Store.Writer.{Writer, run}
use spanfall.Store.Writer.Runs.{
  attr_total, batches_attr_total, apply_batch_lem, Ran, run-Ran, Room-le,
}
use spanfall.Ingest.Convert.{RejectReason, SpanBatch}
use spanfall.Ingest.Handler.Accounts.{Arrival, delivered}
use spanfall.Demo.Seed.{seed-Seeded}
use spanfall.Server.{Server, Reaches, apply, spawn, first_store}
use spanfall.Server.Flow.{batches_of, Reaches-Flows}

-- The attributes of some batches.
abbrev pub attrs_in : List SpanBatch → ℕ
attrs_in [] = 0
attrs_in (b ∷ bs) = attr_total b.spans + attrs_in bs

attrs_in-append : (xs ys : List SpanBatch) → attrs_in (xs ++ ys) ≡ attrs_in xs + attrs_in ys
attrs_in-append [] ys = omega arith
attrs_in-append (b ∷ bs) ys = omega (arith, attrs_in-append bs ys)

attrs_in-batches_of :
    (applied : List (SpanBatch × ℕ)) → attrs_in (batches_of applied) ≡ batches_attr_total applied
attrs_in-batches_of [] = refl
attrs_in-batches_of (b ∷ applied) = ap (λ n. attr_total b.0.spans + n) (attrs_in-batches_of applied)

-- A run of the writer leaves the room that its batches do not take.
run-Keeps :
    (w : Writer) (batches : List (SpanBatch × ℕ)) (n : ℕ)
    → IsValid w.store
    → Room (batches_attr_total batches + n) w.store
    → (w' : Writer) × (run w batches ≡ ok w') × IsValid w'.store × Room n w'.store
unfolding run
run-Keeps w [] n v room = (w, refl, v, Room-le n (0 + n) w.store (omega arith) room)
run-Keeps w ((b, now) ∷ batches) n v room =
    let (w1, ret1, room1, within1, one) =
      apply_batch_lem w b now (batches_attr_total batches + n) v (
        Room-le (attr_total b.spans + (batches_attr_total batches + n))
          (batches_attr_total ((b, now) ∷ batches) + n) w.store (omega arith) room) in
    let (w2, ret2, v2, room2) = run-Keeps w1 batches n one.valid room1 in
    (w2, rw ret1 ret2, v2, room2)

-- The batches as the writer takes them, the clock read at each.
abbrev pub stamped : (ℕ → ℕ) → ℕ → List SpanBatch → List (SpanBatch × ℕ)
stamped clock k [] = []
stamped clock k (b ∷ bs) = (b, clock k) ∷ stamped clock (suc k) bs

-- The steps of the writer alone.
drain :
    (debug : RejectReason → Text) (store : Store) (history : List Arrival)
    (applied : List (SpanBatch × ℕ)) (s : Server) (clock : ℕ → ℕ) (k : ℕ) (bs : List SpanBatch)
    → s.waiting ≡ bs
    → IsValid s.writer.store
    → Room (attrs_in bs) s.writer.store
    → Reaches debug store history applied s
    → (s' : Server) × Reaches debug store history (applied ++ stamped clock k bs) s'
      × (s'.waiting ≡ [])
drain debug store history applied s clock k [] w v room before =
    (s, subst (λ xs. Reaches debug store history xs s) (sym (append-nil applied)) before, w)
drain debug store history applied s clock k (b ∷ bs) taken v room before =
    let (w1, ret1, room1, within1, one) =
      apply_batch_lem s.writer b (clock k) (attrs_in bs) v room in
    let s1 : Server = record s { waiting = bs; writer = w1 } in
    let (s', reached, empty) =
      drain debug store history (applied ++ (b, clock k) ∷ []) s1 clock (suc k) bs refl one.valid
        room1 (apply (clock k) taken ret1 before) in
    (
      s',
      subst (λ xs. Reaches debug store history xs s')
          (append_assoc applied ((b, clock k) ∷ []) (stamped clock (suc k) bs)) reached,
      empty,
    )

-- What `run_server` starts with.
first_store-Within :
    (max_memory_bytes n : ℕ) (seed_demo : Bool) (store : Store)
    → n + 2 < 2 ^ 32
    → first_store max_memory_bytes seed_demo ≡ ok store
    → IsValid store × Room n store × IsWithin store
unfolding first_store new_store
first_store-Within max_memory_bytes n true store h e =
    let d = seed-Seeded max_memory_bytes n h in
    subst (λ s. IsValid s × Room n s × IsWithin s) (of_ok (sym d.returned ∙ e))
      (d.valid, d.room, d.within)
first_store-Within max_memory_bytes n false store h e =
    subst (λ s. IsValid s × Room n s × IsWithin s) (of_ok e)
      (store_new-IsValid max_memory_bytes, new_room, new-IsWithin max_memory_bytes)
  where
    new_room : Room n (new_store max_memory_bytes)
    new_room = (omega arith, tt)

-- A server at rest: nothing waits, and the store holds what all requests sent.
pub record Drained (history : List Arrival) (s : Server) : Type 0 where
  pub waiting : s.waiting ≡ []
  pub valid : IsValid s.writer.store
  pub within : IsWithin s.writer.store
  pub seq : s.writer.seq % 2 ^ 64 ≡ length (delivered history) % 2 ^ 64

-- The attributes that the channel took are in applied batches or in waiting ones.
pub attrs_in-delivered :
    (debug : RejectReason → Text) (store : Store) (history : List Arrival)
    (applied : List (SpanBatch × ℕ)) (s : Server)
    → Reaches debug store history applied s
    → attrs_in (delivered history) ≡ batches_attr_total applied + attrs_in s.waiting
attrs_in-delivered debug store history applied s reached =
    ap attrs_in (Reaches-Flows debug store history applied s reached).conserved
    ∙ attrs_in-append (batches_of applied) s.waiting
    ∙ ap (λ k. k + attrs_in s.waiting) (attrs_in-batches_of applied)

-- The writer of a server has run over the applied batches.
pub Reaches-Ran :
    (debug : RejectReason → Text) (store : Store) (history : List Arrival)
    (applied : List (SpanBatch × ℕ)) (s : Server)
    → IsValid store
    → Room (attrs_in (delivered history)) store
    → Reaches debug store history applied s
    → Ran (spawn store).writer applied s.writer
unfolding spawn
Reaches-Ran debug store history applied s v room reached =
    let enough =
      Room-le (batches_attr_total applied) (attrs_in (delivered history)) store
        (omega (arith, attrs_in-delivered debug store history applied s reached)) room in
    let (w, ret, ran) = run-Ran (spawn store).writer applied v enough in
    subst (Ran (spawn store).writer applied)
      (of_ok (sym ret ∙ (Reaches-Flows debug store history applied s reached).stored)) ran

drained :
    (debug : RejectReason → Text) (store : Store) (history : List Arrival)
    (applied : List (SpanBatch × ℕ)) (s : Server)
    → IsValid store
    → Room (attrs_in (delivered history)) store
    → IsWithin store
    → s.waiting ≡ []
    → Reaches debug store history applied s
    → Drained history s
unfolding spawn
drained debug store history applied s v room within empty reached =
    let f = Reaches-Flows debug store history applied s reached in
    let ran = Reaches-Ran debug store history applied s v room reached in
    let all : delivered history ≡ batches_of applied =
      f.conserved ∙ ap (◌++◌ (batches_of applied)) empty ∙ append-nil (batches_of applied) in
    record {
      waiting = empty;
      valid = ran.valid;
      within = ran.within (inl within);
      seq = omega (arith, ran.seq, ap length all, length-map (λ b. b.0) applied);
    }

-- A server starts with a new store, seeded or not, and the batches that its channel took hold fewer
-- than 2^32 - 2 attributes in all. From every state that it comes to, whatever the clock then reads,
-- the writer applies the batches that wait, in order, one step for each and none of them with a
-- panic; then nothing waits, the store is valid and within its budget, or down to one trace, and the
-- sequence number counts, modulo 2^64, every batch that the channel ever took.
pub Reaches-drains :
    (debug : RejectReason → Text) (max_memory_bytes : ℕ) (seed_demo : Bool) (store : Store)
    (history : List Arrival) (applied : List (SpanBatch × ℕ)) (s : Server) (clock : ℕ → ℕ)
    → first_store max_memory_bytes seed_demo ≡ ok store
    → attrs_in (delivered history) + 2 < 2 ^ 32
    → Reaches debug store history applied s
    → (s' : Server) × Reaches debug store history (applied ++ stamped clock 0 s.waiting) s'
      × Drained history s'
unfolding spawn
Reaches-drains debug max_memory_bytes seed_demo store history applied s clock started h reached =
    let n = attrs_in (delivered history) in
    let (v, room, within) = first_store-Within max_memory_bytes n seed_demo store h started in
    let f = Reaches-Flows debug store history applied s reached in
    let split = attrs_in-delivered debug store history applied s reached in
    let (w, ret, valid, left) =
      run-Keeps (spawn store).writer applied (attrs_in s.waiting) v
        (subst (λ n. Room n store) split room) in
    let same : w ≡ s.writer = of_ok (sym ret ∙ f.stored) in
    let (s', reached', empty) =
      drain debug store history applied s clock 0 s.waiting refl
        (subst (λ w. IsValid w.store) same valid)
        (subst (λ w. Room (attrs_in s.waiting) w.store) same left) reached in
    (
      s',
      reached',
      drained debug store history (applied ++ stamped clock 0 s.waiting) s' v room within empty
          reached',
    )
