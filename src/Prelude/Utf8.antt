-- ===== src/Prelude/Utf8.antt =====
-- `String::from_utf8_lossy`, and the lines and words of a `str`, of Rust's standard library.
use spanfall.Prelude.{
  ℕ, zero, suc, ◌+◌, ◌-◌, ◌*◌, ◌<◌, ◌≡◌, ◌≢◌, refl, sym, ap, ◌∙◌, true, false, ◌&&◌, List, [], ◌∷◌,
  ◌++◌, arith, ltb, leb, nat_eq, if◌then◌else◌, All, append_assoc, append-nil,
}
use spanfall.Prelude.Text.{Text}
use spanfall.Prelude.Strings.{is_whitespace}

-- Between two characters, or inside one: the bits so far, the bytes still to come and the range of
-- the next one.
pub data Decoding : Type 0 where
  idle : Decoding
  pending : ℕ → ℕ → ℕ → ℕ → Decoding

abbrev pub replacement : ℕ
replacement = 0xfffd

-- The first byte of a character.
unfoldable pub lead_byte : ℕ → Text × Decoding
lead_byte b =
    if ltb b 0x80
    then (b ∷ [], idle)
    else if leb 0xc2 b && leb b 0xdf
    then ([], pending (b - 0xc0) 0 0x80 0xbf)
    else if nat_eq b 0xe0
    then ([], pending (b - 0xe0) 1 0xa0 0xbf)
    else if nat_eq b 0xed
    then ([], pending (b - 0xe0) 1 0x80 0x9f)
    else if leb 0xe1 b && leb b 0xef
    then ([], pending (b - 0xe0) 1 0x80 0xbf)
    else if nat_eq b 0xf0
    then ([], pending (b - 0xf0) 2 0x90 0xbf)
    else if leb 0xf1 b && leb b 0xf3
    then ([], pending (b - 0xf0) 2 0x80 0xbf)
    else if nat_eq b 0xf4
    then ([], pending (b - 0xf0) 2 0x80 0x8f)
    else (replacement ∷ [], idle)

-- A byte that cannot go on with the character begun stands for itself, after one replacement.
unfoldable pub next_byte : Decoding → ℕ → Text × Decoding
next_byte idle b = lead_byte b
next_byte (pending bits more low high) b =
    let (after, state) = lead_byte b in
    if leb low b && leb b high
    then elim more [
      | zero ↦ ((bits * 64 + (b - 0x80)) ∷ [], idle)
      | suc more' ↦ ([], pending (bits * 64 + (b - 0x80)) more' 0x80 0xbf)
    ]
    else (replacement ∷ after, state)

-- A character that the end cuts short.
unfoldable pub cut_short : Decoding → Text
cut_short idle = []
cut_short (pending bits more low high) = replacement ∷ []

unfoldable pub decode_lossy : Decoding → List ℕ → Text
decode_lossy state [] = cut_short state
decode_lossy state (b ∷ bs) = let (out, state') = next_byte state b in out ++ decode_lossy state' bs

unfoldable pub from_utf8_lossy : List ℕ → Text
from_utf8_lossy bytes = decode_lossy idle bytes

pub from_utf8_lossy-ascii : (bs : List ℕ) → All (λ b. b < 0x80) bs → from_utf8_lossy bs ≡ bs
unfolding from_utf8_lossy decode_lossy cut_short next_byte lead_byte
from_utf8_lossy-ascii [] h = refl
from_utf8_lossy-ascii (b ∷ bs) h =
    rw (let small : ltb b 0x80 ≡ true = ground (arith, h.0) in small)
      (ap (◌∷◌ b) (from_utf8_lossy-ascii bs h.1))

-- `strip_suffix('\r')` where there is one.
unfoldable pub strip_cr : Text → Text
strip_cr [] = []
strip_cr (c ∷ []) = if nat_eq c b'\r' then [] else c ∷ []
strip_cr (c ∷ d ∷ s) = c ∷ strip_cr (d ∷ s)

-- A line or word at the end of the text, which is none if nothing is there.
unfoldable pub unless_empty : Text → List Text → List Text
unless_empty [] rest = rest
unless_empty (c ∷ word) rest = (c ∷ word) ∷ rest

-- The lines of a text, the first of which goes on after `line`. Only a line that ends in a newline
-- loses a carriage return.
unfoldable pub lines_from : Text → Text → List Text
lines_from line [] = unless_empty line []
lines_from line (c ∷ s) =
    let next = lines_from [] s in
    let longer = lines_from (line ++ c ∷ []) s in
    if nat_eq c b'\n' then strip_cr line ∷ next else longer

unfoldable pub lines : Text → List Text
lines s = lines_from [] s

-- The words of a text, the first of which goes on after `word`.
unfoldable pub words_from : Text → Text → List Text
words_from word [] = unless_empty word []
words_from word (c ∷ s) =
    let next = words_from [] s in
    let longer = words_from (word ++ c ∷ []) s in
    if is_whitespace c then unless_empty word next else longer

unfoldable pub split_whitespace : Text → List Text
split_whitespace s = words_from [] s

-- A carriage return before the newline is no part of the line.
strip_cr_lem : (s : Text) → strip_cr (s ++ b'\r' ∷ []) ≡ s
unfolding strip_cr
strip_cr_lem [] = refl
strip_cr_lem (c ∷ []) = refl
strip_cr_lem (c ∷ d ∷ s) = ap (◌∷◌ c) (strip_cr_lem (d ∷ s))

-- Characters that end no line.
lines_from-append :
    (line s rest : Text)
    → All (λ c. c ≢ b'\n') s
    → lines_from line (s ++ rest) ≡ lines_from (line ++ s) rest
unfolding lines_from
lines_from-append line [] rest h = ap (λ l. lines_from l rest) (sym (append-nil line))
lines_from-append line (c ∷ s) rest h =
    rw (let other : nat_eq c b'\n' ≡ false = ground (arith, h.0) in other) (
      lines_from-append (line ++ c ∷ []) s rest h.1
      ∙ ap (λ l. lines_from l rest) (append_assoc line (c ∷ []) s))

-- The first line of a text is what stands before its first line break.
pub lines-first :
    (s rest : Text)
    → All (λ c. c ≢ b'\n') s
    → (more : List Text) × (lines (s ++ (b'\r' ∷ b'\n' ∷ rest)) ≡ s ∷ more)
unfolding lines lines_from
lines-first s rest h = (
  lines_from [] rest,
  lines_from-append [] s (b'\r' ∷ b'\n' ∷ rest) h
      ∙ ap (λ l. l ∷ lines_from [] rest) (strip_cr_lem s),
)

-- A text without a line break is its only line, if it is not empty.
pub lines-one : (s : Text) → All (λ c. c ≢ b'\n') s → lines s ≡ unless_empty s []
unfolding lines lines_from
lines-one s h = ap (lines_from []) (sym (append-nil s)) ∙ lines_from-append [] s [] h
