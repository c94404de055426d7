-- ===== src/Api/Filter/Query/RoundTrip.antt =====
-- What `parse_query` of src/api/filter.rs reads of a printed query.
use spanfall.Prelude.{
  ℕ, zero, suc, ◌<◌, ◌≡◌, ◌≢◌, refl, sym, ap, ◌∙◌, Bool, true, false, ◌||◌, some, List, [], ◌∷◌,
  ◌++◌, append-nil, map, arith, nat_eq, list_beq, ℕ_eq, All, length, take-append, drop-append,
}
use spanfall.Prelude.Text.{Text, text}
use spanfall.Prelude.Strings.{is_ascii_alphabetic, is_ascii_alphanumeric, starts_with, to_string}
use spanfall.Types.{pos}
use spanfall.Store.{Store, attribute_key_id}
use spanfall.Ingest.Convert.{ok}
use spanfall.Api.Filter.{Op, eq, ne, gt, gte, lt, lte, status, attr}
use spanfall.Api.Filter.Query.{
  Token, is_key_char, count_key_chars, key_len_of, find_op, ops, is_equality, keyed_term, rest_term,
  parse_term, parse_tokens, parse_query, status_term,
}
use spanfall.Api.Filter.Query.Durations.{suffix, printed-other, parse_duration-printed}
use spanfall.Api.Filter.Query.Wanted.{
  Wanted, by_service, by_status, by_duration, by_attr, phrase, op_text, status_text, print_query,
  term_of, IsKey, IsApart, is_reserved, IsPrintable,
}
use spanfall.Api.Filter.Query.Printed.{
  service-IsKey, status-IsKey, duration-IsKey, content, marked, token_of, tokenize-print_query,
}

-- The operator ends the key.
count_key_chars-op : (op : Op) (value : Text) → count_key_chars (op_text op ++ value) ≡ 0
unfolding count_key_chars is_key_char is_ascii_alphanumeric is_ascii_alphabetic
count_key_chars-op eq value = refl
count_key_chars-op ne value = refl
count_key_chars-op gt value = refl
count_key_chars-op gte value = refl
count_key_chars-op lt value = refl
count_key_chars-op lte value = refl

count_key_chars-key :
    (key : Text) (op : Op) (value : Text)
    → All (λ x. is_key_char x ≡ true) key
    → count_key_chars (key ++ (op_text op ++ value)) ≡ length key
unfolding count_key_chars
count_key_chars-key [] op value k = count_key_chars-op op value
count_key_chars-key (c ∷ key) op value k = rw k.0 (ap suc (count_key_chars-key key op value k.1))

key_len_of-key :
    (key : Text) (op : Op) (value : Text)
    → IsKey key
    → key_len_of (key ++ (op_text op ++ value)) ≡ length key
unfolding key_len_of
key_len_of-key [] op value k = absurd k
key_len_of-key (c ∷ key) op value k = rw k.0 (count_key_chars-key (c ∷ key) op value k.1)

-- The operator is found, and no longer one.
find_op-op :
    (op : Op) (value : Text)
    → IsApart op value
    → find_op ops (op_text op ++ value) ≡ some (op_text op, op)
unfolding find_op starts_with
find_op-op eq value h = refl
find_op-op ne value h = refl
find_op-op gt [] h = refl
find_op-op gt (c ∷ s) h = ground arith
find_op-op gte [] h = refl
find_op-op gte (c ∷ s) h = refl
find_op-op lt [] h = refl
find_op-op lt (c ∷ s) h = ground arith
find_op-op lte value h = refl

rest_term-op :
    (store : Store) (whole key : Text) (op : Op) (value : Text)
    → IsApart op value
    → rest_term store whole key (op_text op ++ value) ≡ keyed_term store whole key op value
unfolding rest_term
rest_term-op store whole key eq value h = rw (rest_term, find_op-op eq value h) refl
rest_term-op store whole key ne value h = rw (rest_term, find_op-op ne value h) refl
rest_term-op store whole key gt value h = rw (rest_term, find_op-op gt value h) refl
rest_term-op store whole key gte value h = rw (rest_term, find_op-op gte value h) refl
rest_term-op store whole key lt value h = rw (rest_term, find_op-op lt value h) refl
rest_term-op store whole key lte value h = rw (rest_term, find_op-op lte value h) refl

not_zero : (n : ℕ) → nat_eq (suc n) 0 ≡ false
not_zero n = ground arith

parse_term-key :
    (store : Store) (key : Text) (op : Op) (value : Text)
    → IsKey key
    → IsApart op value
    → parse_term store (key ++ (op_text op ++ value)) false
      ≡ keyed_term store (key ++ (op_text op ++ value)) key op value
unfolding parse_term
parse_term-key store [] op value k h = absurd k
parse_term-key store (c ∷ key) op value k h =
    rw
      (
        key_len_of-key (c ∷ key) op value k,
        take-append (c ∷ key) (op_text op ++ value),
        drop-append (c ∷ key) (op_text op ++ value),
        not_zero (length key),
      )
      (rest_term-op store (c ∷ key ++ (op_text op ++ value)) (c ∷ key) op value h)

equality-IsApart : (op : Op) (value : Text) → is_equality op ≡ true → IsApart op value
equality-IsApart eq value h = tt
equality-IsApart ne value h = tt
equality-IsApart gt value h = absurd (cc)
equality-IsApart gte value h = absurd (cc)
equality-IsApart lt value h = absurd (cc)
equality-IsApart lte value h = absurd (cc)

other-IsApart : (op : Op) (value : Text) → All (λ x. x ≢ b'=') value → IsApart op value
other-IsApart eq value h = tt
other-IsApart ne value h = tt
other-IsApart gt [] h = tt
other-IsApart gt (c ∷ s) h = h.0
other-IsApart gte value h = tt
other-IsApart lt [] h = tt
other-IsApart lt (c ∷ s) h = h.0
other-IsApart lte value h = tt

status_term-text :
    (whole : Text) (op : Op) (code : ℕ)
    → code < 3
    → status_term whole op (status_text code) ≡ ok (status op (pos code))
unfolding status_term
status_term-text whole op zero h = refl
status_term-text whole op (suc zero) h = refl
status_term-text whole op (suc (suc zero)) h = refl
status_term-text whole op (suc (suc (suc code))) h = absurd (omega arith)

neither : (a b : Bool) → a || b ≡ false → (a ≡ false) × (b ≡ false)
neither false b h = (refl, h)
neither true b h = absurd (cc)

keyed_term-attr :
    (store : Store) (whole key : Text) (op : Op) (value : Text)
    → is_reserved key ≡ false
    → keyed_term store whole key op value ≡ ok (attr op (attribute_key_id store key) value)
unfolding keyed_term
keyed_term-attr store whole key op value h =
    let (no_service, other) = neither (list_beq key (text "service")) _ h in
    let (no_status, no_duration) = neither (list_beq key (text "status")) _ other in
    rw (no_service, no_status, no_duration)

-- A printed term is read as the term that was asked for.
parse_term-content :
    (store : Store) (w : Wanted)
    → IsPrintable w
    → parse_term store (content w) (marked w) ≡ ok (term_of store w)
unfolding keyed_term
parse_term-content store (by_service op name) h =
    parse_term-key store (text "service") op name service-IsKey (equality-IsApart op name h.0)
    ∙ rw h.0 refl
parse_term-content store (by_status op code) h =
    parse_term-key store (text "status") op (status_text code) status-IsKey
      (equality-IsApart op (status_text code) h.0)
    ∙ rw (h.0, status_term-text (text "status" ++ (op_text op ++ status_text code)) op code h.1)
        refl
parse_term-content store (by_duration op n u) h =
    parse_term-key store (text "duration") op (to_string n ++ suffix u) duration-IsKey (
      other-IsApart op (to_string n ++ suffix u)
        (printed-other n u b'=' (omega arith) (omega arith)))
    ∙ rw (keyed_term, parse_duration-printed n u h) refl
parse_term-content store (by_attr key op value) h =
    parse_term-key store key op value h.0 h.2
    ∙ keyed_term-attr store (key ++ (op_text op ++ value)) key op value h.1
parse_term-content store (phrase s) h = unfold parse_term in refl

-- The terms before the rest of the tokens.
pub parse_tokens-append :
    (store : Store) (ws : List Wanted) (ts : List Token)
    → All IsPrintable ws
    → parse_tokens store (map token_of ws ++ ts)
      ≡ (map (term_of store) ws ++ (parse_tokens store ts).0, (parse_tokens store ts).1)
unfolding parse_tokens
parse_tokens-append store [] ts h = refl
parse_tokens-append store (w ∷ ws) ts h =
    rw (parse_term-content store w h.0, parse_tokens-append store ws ts h.1) refl

-- A query that is printed from printable terms, with a space between two of them, is read as exactly
-- those terms, in order, the keys of attributes looked up in the store, and nothing is dropped. A
-- term is printed as a key, an operator and a quoted value, or as a quoted text, with a backslash
-- before each quote. It is printable if its value does not end in a backslash; a service or a status
-- is asked for by `=` or `!=`, and a status is one of three; a duration is a `u64` of nanoseconds;
-- another key has the grammar's characters, and its value does not start with `=` behind `>` or
-- `<`; a text is not empty.
pub parse_query-print_query :
    (store : Store) (ws : List Wanted)
    → All IsPrintable ws
    → parse_query (print_query ws) store ≡ (map (term_of store) ws, [])
unfolding parse_query parse_tokens
parse_query-print_query store ws h =
    ap (parse_tokens store) (tokenize-print_query ws h ∙ sym (append-nil (map token_of ws)))
    ∙ parse_tokens-append store ws [] h
    ∙ ap (λ ts. (ts, [])) (append-nil (map (term_of store) ws))
