-- ===== src/Api/Filter/Query/Words.antt =====
-- The tokens and terms of simple queries, src/api/filter.rs.
use spanfall.Prelude.{
  ℕ, ◌≡◌, refl, sym, ap, ◌∙◌, Bool, true, false, List, [], ◌∷◌, ◌++◌, append-nil, append_assoc,
  nat_eq, All,
}
use spanfall.Prelude.Text.{Text, text}
use spanfall.Prelude.Strings.{is_whitespace}
use spanfall.Api.Filter.Query.{Token, Scan, scan, scan_char, is_escape, start, finish, tokenize}

-- A character that neither ends a token nor opens a quote.
abbrev pub IsPlain : ℕ → Type 0
IsPlain c = (nat_eq c b'"' ≡ false) × (is_whitespace c ≡ false)

-- A scan outside quotes.
abbrev pub outside : List Token → Text → Bool → Scan
outside tokens cur q = record { tokens = tokens; cur = cur; in_quotes = false; starts_quoted = q }

scan_char-plain :
    (tokens : List Token) (cur : Text) (q : Bool) (c : ℕ)
    → IsPlain c
    → scan_char (outside tokens cur q) c ≡ outside tokens (cur ++ c ∷ []) q
unfolding scan_char
scan_char-plain tokens cur q c p = rw (p.0, p.1)

-- Outside quotes every character is taken by itself.
pub scan-outside :
    (tokens : List Token) (cur : Text) (q : Bool) (c : ℕ) (rest : Text)
    → scan (outside tokens cur q) (c ∷ rest) ≡ scan (scan_char (outside tokens cur q) c) rest
unfolding scan is_escape
scan-outside tokens cur q c [] = refl
scan-outside tokens cur q c (d ∷ rest) = refl

pub scan-word :
    (tokens : List Token) (cur : Text) (q : Bool) (word rest : Text)
    → All IsPlain word
    → scan (outside tokens cur q) (word ++ rest) ≡ scan (outside tokens (cur ++ word) q) rest
scan-word tokens cur q [] rest p = rw (append-nil cur)
scan-word tokens cur q (c ∷ word) rest p =
    scan-outside tokens cur q c (word ++ rest)
    ∙ ap (λ s. scan s (word ++ rest)) (scan_char-plain tokens cur q c p.0)
    ∙ scan-word tokens (cur ++ c ∷ []) q word rest p.1
    ∙ ap (λ w. scan (outside tokens w q) rest) (append_assoc cur (c ∷ []) word)

abbrev pub token : Bool → Text → Token
token q word = record { content = word; unterminated = false; starts_quoted = q }

-- A nonempty word of plain characters.
abbrev pub IsWord : Text → Type 0
IsWord [] = ⊥
IsWord (c ∷ s) = All IsPlain (c ∷ s)

word-IsPlain : (word : Text) → IsWord word → All IsPlain word
word-IsPlain [] p = absurd p
word-IsPlain (c ∷ s) p = p

opening : (word : Text) → scan start (text "\"\" " ++ word) ≡ scan (outside [] [] true) word
unfolding scan scan_char is_escape is_whitespace
opening word = scan-outside [] [] true b' ' word

last_token : (q : Bool) (word : Text) → IsWord word → finish (outside [] word q) ≡ token q word ∷ []
unfolding finish
last_token q [] p = absurd p
last_token q (c ∷ s) p = refl

-- After an empty pair of quotes and a space, a nonempty word without quotes and white space is
-- taken for a quoted one, even though its first character is not a quote.
pub tokenize-empty_quotes :
    (word : Text) → IsWord word → tokenize (text "\"\" " ++ word) ≡ token true word ∷ []
unfolding tokenize scan
tokenize-empty_quotes word p =
    ap finish (
      opening word
      ∙ ap (λ w. scan (outside [] [] true) w) (sym (append-nil word))
      ∙ scan-word [] [] true word [] (word-IsPlain word p))
    ∙ last_token true word p
