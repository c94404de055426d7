-- ===== src/Api/Filter/Query/Quoted.antt =====
-- Quoted text in a query: `tokenize` of src/api/filter.rs inside a pair of quotes.
use spanfall.Prelude.{
  ℕ, ◌≡◌, ◌≢◌, refl, sym, ap, ◌∙◌, Bool, true, false, ◌&&◌, ◌||◌, List, [], ◌∷◌, ◌++◌, append-nil,
  append_assoc, arith, nat_eq, nat_eq_iff, Bool-cases, inl, inr, if◌then◌else◌,
}
use spanfall.Prelude.Text.{Text}
use spanfall.Prelude.Strings.{is_whitespace}
use spanfall.Api.Filter.Query.Words.{outside}
use spanfall.Api.Filter.Query.{Token, Scan, is_empty, scan, scan_char, is_escape}

-- A backslash before each quote.
unfoldable pub escaped : Text → Text
escaped [] = []
escaped (c ∷ s) = let rest = escaped s in if nat_eq c b'"' then b'\\' ∷ b'"' ∷ rest else c ∷ rest

-- A text that does not end in a backslash.
abbrev pub IsClosed : Text → Type 0
IsClosed [] = Unit
IsClosed (c ∷ []) = c ≢ b'\\'
IsClosed (c ∷ d ∷ s) = IsClosed (d ∷ s)

abbrev pub inside : List Token → Text → Bool → Scan
inside tokens cur q = record { tokens = tokens; cur = cur; in_quotes = true; starts_quoted = q }

-- Inside quotes every character but an escape is taken by itself.
scan-inside :
    (tokens : List Token) (cur : Text) (q : Bool) (c d : ℕ) (rest : Text)
    → nat_eq c b'\\' && nat_eq d b'"' ≡ false
    → scan (inside tokens cur q) (c ∷ d ∷ rest)
      ≡ scan (scan_char (inside tokens cur q) c) (d ∷ rest)
unfolding scan is_escape
scan-inside tokens cur q c d rest h = rw h

scan-escape :
    (tokens : List Token) (cur : Text) (q : Bool) (rest : Text)
    → scan (inside tokens cur q) (b'\\' ∷ b'"' ∷ rest)
      ≡ scan (inside tokens (cur ++ b'"' ∷ []) q) rest
unfolding scan is_escape
scan-escape tokens cur q rest = refl

-- A quote that is not the first character of a token leaves the mark of the token.
no_mark : (b q : Bool) → b && false || q ≡ q
no_mark true q = refl
no_mark false q = refl

scan-close :
    (tokens : List Token) (cur : Text) (q : Bool) (rest : Text)
    → scan (inside tokens cur q) (b'"' ∷ rest) ≡ scan (outside tokens cur q) rest
unfolding scan is_escape scan_char
scan-close tokens cur q [] = ap (outside tokens cur) (no_mark (is_empty cur) q)
scan-close tokens cur q (d ∷ rest) =
    ap (λ m. scan (outside tokens cur m) (d ∷ rest)) (no_mark (is_empty cur) q)

scan_char-inside :
    (tokens : List Token) (cur : Text) (q : Bool) (c : ℕ)
    → nat_eq c b'"' ≡ false
    → scan_char (inside tokens cur q) c ≡ inside tokens (cur ++ c ∷ []) q
unfolding scan_char
scan_char-inside tokens cur q c h = elim (Bool-cases (is_whitespace c)) [
  | inl space ↦ rw (h, space)
  | inr plain ↦ rw (h, plain)
]

-- What follows a character is no quote that it could escape.
not_escape :
    (c : ℕ) (s rest : Text)
    → IsClosed (c ∷ s)
    → (d : ℕ) × (r : Text) × (escaped s ++ b'"' ∷ rest ≡ d ∷ r)
      × (nat_eq c b'\\' && nat_eq d b'"' ≡ false)
unfolding escaped
not_escape c [] rest h = (b'"', rest, refl, ground arith)
not_escape c (e ∷ s) rest h = elim (Bool-cases (nat_eq e b'"')) [
  | inl quote ↦ (b'\\', b'"' ∷ (escaped s ++ b'"' ∷ rest), rw quote, ground arith)
  | inr other ↦ (e, escaped s ++ b'"' ∷ rest, rw other, ground arith)
]

later-IsClosed : (c : ℕ) (s : Text) → IsClosed (c ∷ s) → IsClosed s
later-IsClosed c [] h = tt
later-IsClosed c (d ∷ s) h = h

-- A text that does not end in a backslash is read back up to the closing quote.
pub scan-escaped :
    (tokens : List Token) (cur : Text) (q : Bool) (s rest : Text)
    → IsClosed s
    → scan (inside tokens cur q) (escaped s ++ b'"' ∷ rest)
      ≡ scan (outside tokens (cur ++ s) q) rest
unfolding escaped
scan-escaped tokens cur q [] rest h = rw (append-nil cur) (scan-close tokens cur q rest)
scan-escaped tokens cur q (c ∷ s) rest h =
    let again = scan-escaped tokens (cur ++ c ∷ []) q s rest (later-IsClosed c s h) in
    let end : scan (outside tokens ((cur ++ c ∷ []) ++ s) q) rest
        ≡ scan (outside tokens (cur ++ c ∷ s) q) rest =
      ap (λ w. scan (outside tokens w q) rest) (append_assoc cur (c ∷ []) s) in
    elim (Bool-cases (nat_eq c b'"')) [
      | inl quote ↦ rw quote (
          scan-escape tokens cur q (escaped s ++ b'"' ∷ rest)
          ∙ ap (λ x. scan (inside tokens (cur ++ x ∷ []) q) (escaped s ++ b'"' ∷ rest))
              (sym ((nat_eq_iff c b'"').0 quote))
          ∙ again
          ∙ end)
      | inr other ↦
          let (d, r, next, apart) = not_escape c s rest h in
          rw other (
            ap (λ t. scan (inside tokens cur q) (c ∷ t)) next
            ∙ scan-inside tokens cur q c d r apart
            ∙ ap (λ t. scan t (d ∷ r)) (scan_char-inside tokens cur q c other)
            ∙ ap (scan (inside tokens (cur ++ c ∷ []) q)) (sym next)
            ∙ again
            ∙ end)
    ]

-- An escaped text does not start with a quote.
first_escaped :
    (e : ℕ) (s : Text) → (d : ℕ) × (r : Text) × (escaped (e ∷ s) ≡ d ∷ r) × (nat_eq d b'"' ≡ false)
unfolding escaped
first_escaped e s = elim (Bool-cases (nat_eq e b'"')) [
  | inl quote ↦ (b'\\', b'"' ∷ escaped s, rw quote, refl)
  | inr other ↦ (e, escaped s, rw other, other)
]

no_escape : (c d : ℕ) → nat_eq d b'"' ≡ false → nat_eq c b'\\' && nat_eq d b'"' ≡ false
no_escape c d h = ground arith

-- Behind a quote that is never closed, the whole text is read.
pub scan-unclosed :
    (tokens : List Token) (cur : Text) (q : Bool) (s : Text)
    → scan (inside tokens cur q) (escaped s) ≡ inside tokens (cur ++ s) q
unfolding escaped scan
scan-unclosed tokens cur q [] = rw (append-nil cur)
scan-unclosed tokens cur q (c ∷ s) =
    let again = scan-unclosed tokens (cur ++ c ∷ []) q s in
    let end : inside tokens ((cur ++ c ∷ []) ++ s) q ≡ inside tokens (cur ++ c ∷ s) q =
      ap (λ w. inside tokens w q) (append_assoc cur (c ∷ []) s) in
    elim (Bool-cases (nat_eq c b'"')) [
      | inl quote ↦ rw quote (
          scan-escape tokens cur q (escaped s)
          ∙ ap (λ x. scan (inside tokens (cur ++ x ∷ []) q) (escaped s))
              (sym ((nat_eq_iff c b'"').0 quote))
          ∙ again
          ∙ end)
      | inr other ↦ rw other (go s other again ∙ end)
    ]
  where
    go :
        (s : Text)
        → nat_eq c b'"' ≡ false
        → scan (inside tokens (cur ++ c ∷ []) q) (escaped s)
          ≡ inside tokens ((cur ++ c ∷ []) ++ s) q
        → scan (inside tokens cur q) (c ∷ escaped s) ≡ inside tokens ((cur ++ c ∷ []) ++ s) q
    go [] other again = scan_char-inside tokens cur q c other ∙ again
    go (e ∷ s) other again =
        let (d, r, next, apart) = first_escaped e s in
        ap (λ t. scan (inside tokens cur q) (c ∷ t)) next
        ∙ scan-inside tokens cur q c d r (no_escape c d apart)
        ∙ ap (λ t. scan t (d ∷ r)) (scan_char-inside tokens cur q c other)
        ∙ ap (scan (inside tokens (cur ++ c ∷ []) q)) (sym next)
        ∙ again
