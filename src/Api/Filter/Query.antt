-- ===== src/Api/Filter/Query.antt =====
-- src/api/filter.rs: splitting a query into tokens and a token into a term.
pub mod Words
pub mod Quoted
pub mod Wanted
pub mod Printed
pub mod RoundTrip
pub mod Unclosed
pub mod Durations
use spanfall.Prelude.{
  ℕ, zero, suc, ◌*◌, ◌^◌, Bool, true, false, not, ◌&&◌, ◌||◌, Option, none, some, List, [], ◌∷◌,
  ◌++◌, ltb, nat_eq, list_beq, ℕ_eq, if◌then◌else◌, length, take, drop, is_some,
}
use spanfall.Prelude.Text.{Text, text}
use spanfall.Prelude.Strings.{
  starts_with, strip_suffix, parse_u64, is_ascii_alphabetic, is_ascii_alphanumeric, is_whitespace,
}
use spanfall.Types.{pos}
use spanfall.Store.{Store, attribute_key_id}
use spanfall.Ingest.Convert.{Result, ok, err}
use spanfall.Api.Filter.{
  Op, eq, ne, gt, gte, lt, lte, Term, service, status, duration, attr, substring,
}

-- `OPS`.
abbrev pub ops : List (Text × Op)
ops =
    (text ">=", gte)
    ∷ (text "<=", lte)
    ∷ (text "!=", ne)
    ∷ (text "=", eq)
    ∷ (text ">", gt)
    ∷ (text "<", lt)
    ∷ []

unfoldable pub checked_mul_u64 : ℕ → ℕ → Option ℕ
checked_mul_u64 a b = if ltb (a * b) (2 ^ 64) then some (a * b) else none

-- The last line of `parse_duration`.
unfoldable pub scaled : Text → ℕ → Option ℕ
scaled num unit_nanos = elim (parse_u64 num) [ none ↦ none | some v ↦ checked_mul_u64 v unit_nanos ]

unfoldable pub parse_duration : Text → Option ℕ
parse_duration raw = elim (strip_suffix raw (text "ms")) [
  | some n ↦ scaled n 1000000
  | none ↦ elim (strip_suffix raw (text "us")) [
    | some n ↦ scaled n 1000
    | none ↦ elim (strip_suffix raw (text "ns")) [
      | some n ↦ scaled n 1
      | none ↦ elim (strip_suffix raw (text "s")) [
        | some n ↦ scaled n 1000000000
        | none ↦ scaled raw 1
      ]
    ]
  ]
]

unfoldable pub is_key_start : ℕ → Bool
is_key_start c = is_ascii_alphabetic c || nat_eq c b'_'

unfoldable pub is_key_char : ℕ → Bool
is_key_char c = is_ascii_alphanumeric c || (nat_eq c b'_' || nat_eq c b'.')

-- A token: its text, whether a quote is left open, and whether it starts with a quote.
pub record Token : Type 0 where
  pub content : Text
  pub unterminated : Bool
  pub starts_quoted : Bool

-- The variables of the loop of `tokenize`.
pub record Scan : Type 0 where
  pub tokens : List Token
  pub cur : Text
  pub in_quotes : Bool
  pub starts_quoted : Bool

abbrev pub is_empty : Text → Bool
is_empty [] = true
is_empty (c ∷ s) = false

-- The three arms of the loop that consume one character.
unfoldable pub scan_char : Scan → ℕ → Scan
scan_char s c =
    if nat_eq c b'"'
    then record s {
      starts_quoted = (is_empty s.cur && not s.in_quotes) || s.starts_quoted;
      in_quotes = not s.in_quotes;
    }
    else if is_whitespace c && not s.in_quotes
    then (if is_empty s.cur then s else record s {
      tokens =
          s.tokens
          ++ record { content = s.cur; unterminated = false; starts_quoted = s.starts_quoted } ∷ [];
      cur = [];
      starts_quoted = false;
    })
    else record s { cur = s.cur ++ c ∷ [] }

-- `in_quotes && c == '\\' && chars.peek() == Some(&'"')`.
unfoldable pub is_escape : Scan → ℕ → ℕ → Bool
is_escape s c d = s.in_quotes && (nat_eq c b'\\' && nat_eq d b'"')

-- The loop.
unfoldable pub scan : Scan → List ℕ → Scan
scan s [] = s
scan s (c ∷ []) = scan_char s c
scan s (c ∷ d ∷ q) =
    let escaped = scan (record s { cur = s.cur ++ b'"' ∷ [] }) q in
    let plain = scan (scan_char s c) (d ∷ q) in if is_escape s c d then escaped else plain

abbrev pub start : Scan
start = record { tokens = []; cur = []; in_quotes = false; starts_quoted = false }

-- The last token, after the loop.
unfoldable pub finish : Scan → List Token
finish s =
    if is_empty s.cur
    then s.tokens
    else s.tokens
      ++ record { content = s.cur; unterminated = s.in_quotes; starts_quoted = s.starts_quoted }
        ∷ []

unfoldable pub tokenize : Text → List Token
tokenize q = finish (scan start q)

-- `take_while(..).count()`.
unfoldable pub count_key_chars : Text → ℕ
count_key_chars [] = 0
count_key_chars (c ∷ s) = if is_key_char c then suc (count_key_chars s) else 0

-- `key_len`, in characters; they are ASCII, so this is the number of bytes too.
unfoldable pub key_len_of : Text → ℕ
key_len_of [] = 0
key_len_of (c ∷ s) = if is_key_start c then count_key_chars (c ∷ s) else 0

-- `OPS.iter().find(..)`.
unfoldable pub find_op : List (Text × Op) → Text → Option (Text × Op)
find_op [] rest = none
find_op ((prefix, op) ∷ os) rest =
    let later = find_op os rest in if starts_with rest prefix then some (prefix, op) else later

-- `matches!(op, Op::Eq | Op::Ne)`.
abbrev pub is_equality : Op → Bool
is_equality eq = true
is_equality ne = true
is_equality gt = false
is_equality gte = false
is_equality lt = false
is_equality lte = false

unfoldable pub status_term : Text → Op → Text → Result Text Term
status_term whole op value =
    if list_beq value (text "unset")
    then ok (status op (pos 0))
    else if list_beq value (text "ok")
    then ok (status op (pos 1))
    else if list_beq value (text "error")
    then ok (status op (pos 2))
    else err whole

-- The last `match`, on the key.
unfoldable pub keyed_term : Store → Text → Text → Op → Text → Result Text Term
keyed_term store whole key op value =
    if list_beq key (text "service")
    then (if is_equality op then ok (service op value) else err whole)
    else if list_beq key (text "status")
    then (if is_equality op then status_term whole op value else err whole)
    else if list_beq key (text "duration")
    then elim (parse_duration value) [ some nanos ↦ ok (duration op nanos) | none ↦ err whole ]
    else ok (attr op (attribute_key_id store key) value)

-- `matches!(rest.chars().next(), Some('!' | '~'))`.
abbrev pub is_bad_op : Text → Bool
is_bad_op [] = false
is_bad_op (c ∷ s) = nat_eq c b'!' || nat_eq c b'~'

-- From a key and the rest after it.
unfoldable pub rest_term : Store → Text → Text → Text → Result Text Term
rest_term store whole key [] = ok (substring whole)
rest_term store whole key (c ∷ rest) = elim (find_op ops (c ∷ rest)) [
  | none ↦ if is_bad_op (c ∷ rest) then err whole else ok (substring whole)
  | some (prefix, op) ↦ keyed_term store whole key op (drop (length prefix) (c ∷ rest))
]

unfoldable pub parse_term : Store → Text → Bool → Result Text Term
parse_term store whole starts_quoted =
    let n = key_len_of whole in
    if starts_quoted
    then ok (substring whole)
    else if nat_eq n 0
    then ok (substring whole)
    else rest_term store whole (take n whole) (drop n whole)

-- The loop of `parse_query`: the terms, and the dropped tokens.
unfoldable pub parse_tokens : Store → List Token → List Term × List Text
parse_tokens store [] = ([], [])
parse_tokens store (t ∷ ts) =
    let (terms, dropped) = parse_tokens store ts in
    if t.unterminated
    then (terms, t.content ∷ dropped)
    else elim (parse_term store t.content t.starts_quoted) [
      | ok term ↦ (term ∷ terms, dropped)
      | err raw ↦ (terms, raw ∷ dropped)
    ]

unfoldable pub parse_query : Text → Store → List Term × List Text
parse_query q store = parse_tokens store (tokenize q)
