-- ===== src/Api/Filter/Query/Unclosed.antt =====
-- A query that ends in an open quote, in `parse_query` of src/api/filter.rs.
use spanfall.Prelude.{
  ◌≡◌, refl, sym, ap, ◌∙◌, true, false, List, [], ◌∷◌, ◌++◌, append-nil, append_assoc, map, All,
}
use spanfall.Prelude.Text.{Text}
use spanfall.Prelude.Strings.{is_whitespace}
use spanfall.Store.{Store}
use spanfall.Api.Filter.Query.{Token, scan, scan_char, finish, tokenize, parse_tokens, parse_query}
use spanfall.Api.Filter.Query.Words.{outside, scan-outside}
use spanfall.Api.Filter.Query.Quoted.{escaped, inside, scan-unclosed}
use spanfall.Api.Filter.Query.Wanted.{Wanted, print, print_query, term_of, IsPrintable}
use spanfall.Api.Filter.Query.Printed.{
  content, marked, token_of, filled, scan-print, scan-gap, scan-open,
}
use spanfall.Api.Filter.Query.RoundTrip.{parse_tokens-append}

-- A text behind a quote that is never closed.
abbrev pub unclosed : Text → Text
unclosed s = b'"' ∷ escaped s

scan-print_query :
    (tokens : List Token) (ws : List Wanted) (rest : Text)
    → All IsPrintable ws
    → scan (outside tokens [] false) (print_query ws ++ b' ' ∷ rest)
      ≡ scan (outside (tokens ++ map token_of ws) [] false) rest
unfolding scan_char is_whitespace
scan-print_query tokens [] rest h =
    scan-outside tokens [] false b' ' rest
    ∙ ap (λ ts. scan (outside ts [] false) rest) (sym (append-nil tokens))
scan-print_query tokens (w ∷ []) rest h =
    scan-print tokens w (b' ' ∷ rest) h.0
    ∙ scan-gap tokens (content w) (marked w) rest (filled w h.0)
scan-print_query tokens (w ∷ v ∷ ws) rest h =
    ap (scan (outside tokens [] false))
      (append_assoc (print w) (b' ' ∷ print_query (v ∷ ws)) (b' ' ∷ rest))
    ∙ scan-print tokens w (b' ' ∷ (print_query (v ∷ ws) ++ b' ' ∷ rest)) h.0
    ∙ scan-gap tokens (content w) (marked w) (print_query (v ∷ ws) ++ b' ' ∷ rest) (filled w h.0)
    ∙ scan-print_query (tokens ++ token_of w ∷ []) (v ∷ ws) rest h.1
    ∙ ap (λ ts. scan (outside ts [] false) rest)
        (append_assoc tokens (token_of w ∷ []) (map token_of (v ∷ ws)))

abbrev last_tokens : Text → List Token
last_tokens [] = []
last_tokens (c ∷ s) = record { content = c ∷ s; unterminated = true; starts_quoted = true } ∷ []

finish-unclosed :
    (tokens : List Token) (s : Text) → finish (inside tokens s true) ≡ tokens ++ last_tokens s
unfolding finish
finish-unclosed tokens [] = sym (append-nil tokens)
finish-unclosed tokens (c ∷ s) = refl

tokenize-unclosed :
    (ws : List Wanted) (s : Text)
    → All IsPrintable ws
    → tokenize (print_query ws ++ b' ' ∷ unclosed s) ≡ map token_of ws ++ last_tokens s
unfolding tokenize
tokenize-unclosed ws s h =
    ap finish (
      scan-print_query [] ws (unclosed s) h
      ∙ scan-open (map token_of ws) [] (escaped s)
      ∙ scan-unclosed (map token_of ws) [] true s)
    ∙ finish-unclosed (map token_of ws) s

abbrev pub dropped_text : Text → List Text
dropped_text [] = []
dropped_text (c ∷ s) = (c ∷ s) ∷ []

-- A query that is printed from printable terms and goes on with a space, a quote that is never
-- closed, and some escaped text keeps its terms; the text is dropped and reported, unless it is
-- empty: then nothing is reported, although the quote is not terminated.
pub parse_query-unclosed :
    (store : Store) (ws : List Wanted) (s : Text)
    → All IsPrintable ws
    → parse_query (print_query ws ++ b' ' ∷ unclosed s) store
      ≡ (map (term_of store) ws, dropped_text s)
unfolding parse_query parse_tokens
parse_query-unclosed store ws [] h =
    ap (parse_tokens store) (tokenize-unclosed ws [] h)
    ∙ parse_tokens-append store ws [] h
    ∙ ap (λ ts. (ts, [])) (append-nil (map (term_of store) ws))
parse_query-unclosed store ws (c ∷ s) h =
    ap (parse_tokens store) (tokenize-unclosed ws (c ∷ s) h)
    ∙ parse_tokens-append store ws (last_tokens (c ∷ s)) h
    ∙ ap (λ ts. (ts, (c ∷ s) ∷ [])) (append-nil (map (term_of store) ws))
