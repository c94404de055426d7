-- ===== src/Ingest/Receiver/Ring.antt =====
-- The ring of rejected requests holds the last hundred of them.
use spanfall.Prelude.{
  ℕ, ◌<◌, false, zero, suc, ◌+◌, ◌-◌, ◌≤◌, ◌≡◌, refl, sym, ap, ◌∙◌, List, [], ◌∷◌, ◌++◌,
  append_assoc, length, drop, length-append, arith, nat_eq, append-nil, dec_le,
}
use spanfall.Ingest.Receiver.{RejectLog, RejectRecord, push, recent}

-- The requests pushed so far and the last of them, at most a hundred.
abbrev pub last_hundred : List RejectRecord → List RejectRecord
last_hundred history = drop (length history - 100) history

length-drop {ℓ} : {A : Type ℓ} (n : ℕ) (xs : List A) → length (drop n xs) ≡ length xs - n
length-drop zero xs = omega arith
length-drop (suc n) [] = omega arith
length-drop (suc n) (x ∷ xs) = omega (arith, length-drop n xs)

drop-drop {ℓ} : {A : Type ℓ} (n : ℕ) (xs : List A) → drop 1 (drop n xs) ≡ drop (n + 1) xs
drop-drop zero xs = refl
drop-drop (suc n) [] = rw (let e : suc n + 1 ≡ suc (n + 1) = omega arith in e)
drop-drop (suc n) (x ∷ xs) =
    rw (let e : suc n + 1 ≡ suc (n + 1) = omega arith in e) (drop-drop n xs)

drop-append_le {ℓ} :
    {A : Type ℓ} (n : ℕ) (xs ys : List A) → n ≤ length xs → drop n (xs ++ ys) ≡ drop n xs ++ ys
drop-append_le zero xs ys h = refl
drop-append_le (suc n) [] ys h = elim h [ ]
drop-append_le (suc n) (x ∷ xs) ys h = drop-append_le n xs ys (omega arith)

push_full :
    (ring : List RejectRecord) (r : RejectRecord)
    → length ring ≡ 100
    → (push (record { ring = ring }) r.reason r.at_unix_nano).ring ≡ drop 1 ring ++ r ∷ []
unfolding push
push_full ring r h = rw h

push_room :
    (ring : List RejectRecord) (r : RejectRecord)
    → length ring < 100
    → (push (record { ring = ring }) r.reason r.at_unix_nano).ring ≡ ring ++ r ∷ []
unfolding push
push_room ring r h = let e : nat_eq (length ring) 100 ≡ false = ground arith in rw e

-- What a push does to a ring that holds the last hundred of a history.
pub push_lem :
    (history : List RejectRecord) (r : RejectRecord)
    → (push (record { ring = last_hundred history }) r.reason r.at_unix_nano).ring
      ≡ last_hundred (history ++ r ∷ [])
push_lem history r =
    let n = length history in
    let more : length (history ++ r ∷ []) ≡ n + 1 = length-append history (r ∷ []) in
    let size = length-drop (n - 100) history in
    elim (dec_le 100 n) [
      | yes full ↦
          push_full (last_hundred history) r (omega (arith, size))
          ∙ ap (λ xs. xs ++ r ∷ [])
              (drop-drop (n - 100) history
                ∙ ap (λ k. drop k history) (let e : n - 100 + 1 ≡ n + 1 - 100 = omega arith in e))
          ∙ sym (drop-append_le (n + 1 - 100) history (r ∷ []) (omega arith))
          ∙ ap (λ k. drop (k - 100) (history ++ r ∷ [])) (sym more)
      | no room ↦
          push_room (last_hundred history) r (omega (arith, size))
          ∙ ap (λ k. drop k history ++ r ∷ []) (let e : n - 100 ≡ 0 = omega arith in e)
          ∙ ap (λ k. drop k (history ++ r ∷ []))
              (let e : 0 ≡ length (history ++ r ∷ []) - 100 = omega (arith, more) in e)
    ]

unfoldable pub pushes : RejectLog → List RejectRecord → RejectLog
pushes log [] = log
pushes log (r ∷ rs) = pushes (push log r.reason r.at_unix_nano) rs

pushes_lem :
    (history rs : List RejectRecord)
    → (pushes (record { ring = last_hundred history }) rs).ring ≡ last_hundred (history ++ rs)
unfolding pushes
pushes_lem history [] = rw (append-nil history)
pushes_lem history (r ∷ rs) =
    ap (λ ring. (pushes (record { ring = ring }) rs).ring) (push_lem history r)
    ∙ pushes_lem (history ++ r ∷ []) rs
    ∙ ap last_hundred (append_assoc history (r ∷ []) rs)

-- After any pushes onto an empty log, `recent` gives the last hundred of them, oldest first.
pub recent-pushes :
    (rs : List RejectRecord) → recent (pushes (record { ring = [] }) rs) ≡ last_hundred rs
unfolding recent
recent-pushes rs = pushes_lem [] rs
