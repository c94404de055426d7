-- ===== src/Api/Filter/Query/Printed.antt =====
-- The tokens of a printed query: `tokenize` of src/api/filter.rs on what is printed.
use spanfall.Prelude.{
  ℕ, zero, suc, ◌≡◌, ◌≢◌, refl, sym, ap, ◌∙◌, Bool, true, false, List, [], ◌∷◌, ◌++◌, append-nil,
  append_assoc, map, arith, ℕ_eq, All,
}
use spanfall.Prelude.Text.{Text, text}
use spanfall.Prelude.Strings.{is_whitespace, is_ascii_alphabetic, is_ascii_alphanumeric, to_string}
use spanfall.Api.Filter.{Op, eq, ne, gt, gte, lt, lte}
use spanfall.Api.Filter.Query.{
  is_key_start, Token, scan, scan_char, finish, tokenize, is_empty, is_key_char,
}
use spanfall.Api.Filter.Query.Words.{IsPlain, outside, scan-outside, scan-word, token}
use spanfall.Api.Filter.Query.Quoted.{escaped, IsClosed, inside, scan-escaped}
use spanfall.Api.Filter.Query.Durations.{suffix, printed-other}
use spanfall.Api.Filter.Query.Wanted.{
  IsKey, Wanted, by_service, by_status, by_duration, by_attr, phrase, op_text, status_text, quoted,
  keyed, print, print_query, IsPrintable,
}

-- The token of a printed term.
abbrev pub content : Wanted → Text
content (by_service op name) = text "service" ++ (op_text op ++ name)
content (by_status op code) = text "status" ++ (op_text op ++ status_text code)
content (by_duration op n u) = text "duration" ++ (op_text op ++ (to_string n ++ suffix u))
content (by_attr key op value) = key ++ (op_text op ++ value)
content (phrase s) = s

abbrev pub marked : Wanted → Bool
marked (phrase s) = true
marked (by_service op name) = false
marked (by_status op code) = false
marked (by_duration op n u) = false
marked (by_attr key op value) = false

key_char-IsPlain : (c : ℕ) → is_key_char c ≡ true → IsPlain c
unfolding is_key_char is_ascii_alphanumeric is_ascii_alphabetic is_whitespace
key_char-IsPlain c h = ground arith

key-IsPlain : (key : Text) → All (λ x. is_key_char x ≡ true) key → All IsPlain key
key-IsPlain [] h = tt
key-IsPlain (c ∷ s) h = (key_char-IsPlain c h.0, key-IsPlain s h.1)

op-IsPlain : (op : Op) → All IsPlain (op_text op)
unfolding is_whitespace
op-IsPlain eq = ((refl, refl), tt)
op-IsPlain ne = ((refl, refl), ((refl, refl), tt))
op-IsPlain gt = ((refl, refl), tt)
op-IsPlain gte = ((refl, refl), ((refl, refl), tt))
op-IsPlain lt = ((refl, refl), tt)
op-IsPlain lte = ((refl, refl), ((refl, refl), tt))

-- A quote opens.
pub scan-open :
    (tokens : List Token) (cur : Text) (rest : Text)
    → scan (outside tokens cur false) (b'"' ∷ rest) ≡ scan (inside tokens cur (is_empty cur)) rest
unfolding scan_char
scan-open tokens [] rest = scan-outside tokens [] false b'"' rest
scan-open tokens (c ∷ s) rest = scan-outside tokens (c ∷ s) false b'"' rest

scan-quoted :
    (tokens : List Token) (cur s rest : Text)
    → IsClosed s
    → scan (outside tokens cur false) (quoted s ++ rest)
      ≡ scan (outside tokens (cur ++ s) (is_empty cur)) rest
scan-quoted tokens cur s rest h =
    ap (λ t. scan (outside tokens cur false) (b'"' ∷ t)) (append_assoc (escaped s) (b'"' ∷ []) rest)
    ∙ scan-open tokens cur (escaped s ++ b'"' ∷ rest)
    ∙ scan-escaped tokens cur (is_empty cur) s rest h

scan-keyed :
    (tokens : List Token) (c : ℕ) (key : Text) (op : Op) (value rest : Text)
    → All (λ x. is_key_char x ≡ true) (c ∷ key)
    → IsClosed value
    → scan (outside tokens [] false) (keyed (c ∷ key) op value ++ rest)
      ≡ scan (outside tokens (c ∷ key ++ (op_text op ++ value)) false) rest
scan-keyed tokens c key op value rest k h =
    ap (scan (outside tokens [] false)) (
      append_assoc (c ∷ key) (op_text op ++ quoted value) rest
      ∙ ap (λ t. c ∷ key ++ t) (append_assoc (op_text op) (quoted value) rest))
    ∙ scan-word tokens [] false (c ∷ key) (op_text op ++ (quoted value ++ rest))
        (key-IsPlain (c ∷ key) k)
    ∙ scan-word tokens (c ∷ key) false (op_text op) (quoted value ++ rest) (op-IsPlain op)
    ∙ scan-quoted tokens (c ∷ key ++ op_text op) value rest h
    ∙ ap (λ t. scan (outside tokens t false) rest) (append_assoc (c ∷ key) (op_text op) value)

pub service-IsKey : IsKey (text "service")
unfolding is_key_start is_key_char is_ascii_alphanumeric is_ascii_alphabetic
service-IsKey = (refl, (refl, (refl, (refl, (refl, (refl, (refl, (refl, tt))))))))

pub status-IsKey : IsKey (text "status")
unfolding is_key_start is_key_char is_ascii_alphanumeric is_ascii_alphabetic
status-IsKey = (refl, (refl, (refl, (refl, (refl, (refl, (refl, tt)))))))

pub duration-IsKey : IsKey (text "duration")
unfolding is_key_start is_key_char is_ascii_alphanumeric is_ascii_alphabetic
duration-IsKey = (refl, (refl, (refl, (refl, (refl, (refl, (refl, (refl, (refl, tt)))))))))

-- A text without backslashes.
plain-IsClosed : (s : Text) → All (λ c. c ≢ b'\\') s → IsClosed s
plain-IsClosed [] h = tt
plain-IsClosed (c ∷ []) h = h.0
plain-IsClosed (c ∷ d ∷ s) h = plain-IsClosed (d ∷ s) h.1

status_text-IsClosed : (code : ℕ) → IsClosed (status_text code)
status_text-IsClosed zero = omega arith
status_text-IsClosed (suc zero) = omega arith
status_text-IsClosed (suc (suc code)) = omega arith

-- A printed term is scanned to its token, up to the space or the end behind it.
pub scan-print :
    (tokens : List Token) (w : Wanted) (rest : Text)
    → IsPrintable w
    → scan (outside tokens [] false) (print w ++ rest)
      ≡ scan (outside tokens (content w) (marked w)) rest
scan-print tokens (by_service op name) rest h =
    scan-keyed tokens b's' (text "ervice") op name rest service-IsKey.1 h.1
scan-print tokens (by_status op code) rest h =
    scan-keyed tokens b's' (text "tatus") op (status_text code) rest status-IsKey.1
      (status_text-IsClosed code)
scan-print tokens (by_duration op n u) rest h =
    scan-keyed tokens b'd' (text "uration") op (to_string n ++ suffix u) rest duration-IsKey.1 (
      plain-IsClosed (to_string n ++ suffix u)
        (printed-other n u b'\\' (omega arith) (omega arith)))
scan-print tokens (by_attr [] op value) rest h = absurd h.0
scan-print tokens (by_attr (c ∷ key) op value) rest h =
    scan-keyed tokens c key op value rest h.0.1 h.3
scan-print tokens (phrase []) rest h = absurd (cc)
scan-print tokens (phrase (c ∷ s)) rest h = scan-quoted tokens [] (c ∷ s) rest h.1

abbrev pub token_of : Wanted → Token
token_of w = token (marked w) (content w)

pub filled : (w : Wanted) → IsPrintable w → is_empty (content w) ≡ false
filled (by_service op name) h = refl
filled (by_status op code) h = refl
filled (by_duration op n u) h = refl
filled (by_attr [] op value) h = absurd h.0
filled (by_attr (c ∷ key) op value) h = refl
filled (phrase s) h = h.0

-- A space ends a token that is not empty.
pub scan-gap :
    (tokens : List Token) (cur : Text) (q : Bool) (rest : Text)
    → is_empty cur ≡ false
    → scan (outside tokens cur q) (b' ' ∷ rest)
      ≡ scan (outside (tokens ++ token q cur ∷ []) [] false) rest
unfolding scan_char is_whitespace
scan-gap tokens [] q rest h = absurd (cc)
scan-gap tokens (c ∷ s) q rest h = scan-outside tokens (c ∷ s) q b' ' rest

finish-print_query :
    (tokens : List Token) (ws : List Wanted)
    → All IsPrintable ws
    → finish (scan (outside tokens [] false) (print_query ws)) ≡ tokens ++ map token_of ws
unfolding finish scan
finish-print_query tokens [] h = sym (append-nil tokens)
finish-print_query tokens (w ∷ []) h =
    ap (λ t. finish (scan (outside tokens [] false) t)) (sym (append-nil (print w)))
    ∙ ap finish (scan-print tokens w [] h.0)
    ∙ rw (filled w h.0)
finish-print_query tokens (w ∷ v ∷ ws) h =
    ap finish (
      scan-print tokens w (b' ' ∷ print_query (v ∷ ws)) h.0
      ∙ scan-gap tokens (content w) (marked w) (print_query (v ∷ ws)) (filled w h.0))
    ∙ finish-print_query (tokens ++ token_of w ∷ []) (v ∷ ws) h.1
    ∙ append_assoc tokens (token_of w ∷ []) (map token_of (v ∷ ws))

-- The tokens of a printed query are those of its terms.
pub tokenize-print_query :
    (ws : List Wanted) → All IsPrintable ws → tokenize (print_query ws) ≡ map token_of ws
unfolding tokenize
tokenize-print_query ws h = finish-print_query [] ws h
