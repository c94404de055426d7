-- ===== src/Prelude/Text.antt =====
-- Rust's `str` as its list of characters (code points), with the functions of the standard library
-- that the program calls on it.
use spanfall.Prelude.{
  ℕ, ◌+◌, ◌-◌, ◌*◌, ◌/◌, ◌%◌, ◌<◌, ◌≡◌, refl, ◌&&◌, Option, none, some, List, [], ◌∷◌, ◌++◌, arith,
  ltb, leb, nat_eq, if◌then◌else◌, length, All, Option-cases, Bool-cases, inl, inr,
}
use Prim.Native.Char.{code}
use Prim.Native.String.{String}

abbrev pub Text : Type 0
Text = List ℕ

-- A literal of the source.
abbrev pub text : String → Text
text String.[] = []
text (String.◌∷◌ c s) = code c ∷ text s

-- The UTF-8 bytes of a character.
unfoldable pub utf8 : ℕ → List ℕ
utf8 c =
    if ltb c 0x80
    then c ∷ []
    else if ltb c 0x800
    then (0xc0 + c / 64) ∷ (0x80 + c % 64) ∷ []
    else if ltb c 0x10000
    then (0xe0 + c / 4096) ∷ (0x80 + c / 64 % 64) ∷ (0x80 + c % 64) ∷ []
    else (0xf0 + c / 262144) ∷ (0x80 + c / 4096 % 64) ∷ (0x80 + c / 64 % 64) ∷ (0x80 + c % 64) ∷ []

-- `s.as_bytes()`; `s.len()` counts these.
unfoldable pub as_bytes : Text → List ℕ
unfolding utf8
as_bytes [] = []
as_bytes (c ∷ s) = utf8 c ++ as_bytes s

unfoldable pub str_len : Text → ℕ
unfolding as_bytes
str_len s = length (as_bytes s)

pub as_bytes_ascii : (s : Text) → All (λ c. c < 0x80) s → as_bytes s ≡ s
unfolding as_bytes
as_bytes_ascii [] h = refl
as_bytes_ascii (c ∷ s) h = ground (arith, as_bytes_ascii s h.1)

-- `char::to_digit` on an ASCII character.
unfoldable pub to_digit : ℕ → ℕ → Option ℕ
to_digit radix c =
    let d =
      if leb b'0' c && leb c b'9'
      then some (c - b'0')
      else if leb b'a' c && leb c b'z'
      then some (c - b'a' + 10)
      else if leb b'A' c && leb c b'Z'
      then some (c - b'A' + 10)
      else none in
    elim d [ none ↦ none | some v ↦ if ltb v radix then some v else none ]

-- The digits of `from_str_radix` for an unsigned type with values below `limit`: `checked_mul` and
-- `checked_add` at every digit.
unfoldable pub parse_digits : ℕ → ℕ → ℕ → List ℕ → Option ℕ
parse_digits radix limit acc [] = some acc
parse_digits radix limit acc (c ∷ s) = elim (to_digit radix c) [
  | none ↦ none
  | some d ↦
      let rest = parse_digits radix limit (acc * radix + d) s in
      if ltb (acc * radix + d) limit then rest else none
]

-- One leading `+` is accepted; no digits at all is an error.
unfoldable pub from_str_radix : ℕ → ℕ → List ℕ → Option ℕ
unfolding parse_digits to_digit
from_str_radix radix limit [] = none
from_str_radix radix limit (c ∷ []) = parse_digits radix limit 0 (c ∷ [])
from_str_radix radix limit (c ∷ d ∷ s) =
    if nat_eq c b'+'
    then parse_digits radix limit 0 (d ∷ s)
    else parse_digits radix limit 0 (c ∷ d ∷ s)

pub parse_digits-lt :
    (radix limit acc : ℕ) (s : List ℕ) {v : ℕ}
    → acc < limit
    → parse_digits radix limit acc s ≡ some v
    → v < limit
unfolding parse_digits
parse_digits-lt radix limit acc [] h e = ground arith
parse_digits-lt radix limit acc (c ∷ s) {v} h e = elim (Option-cases (to_digit radix c)) [
  | inl p ↦ ground arith
  | inr (d, p) ↦ ground (arith, parse_digits-lt radix limit (acc * radix + d) s {v = v})
]

-- A parsed value is in the range of its type.
pub from_str_radix-lt :
    (radix limit : ℕ) (s : List ℕ) {v : ℕ}
    → 0 < limit
    → from_str_radix radix limit s ≡ some v
    → v < limit
unfolding from_str_radix
from_str_radix-lt radix limit [] h e = cc
from_str_radix-lt radix limit (c ∷ []) h e = parse_digits-lt radix limit 0 (c ∷ []) h e
from_str_radix-lt radix limit (c ∷ d ∷ s) h e = elim (Bool-cases (nat_eq c b'+')) [
  | inl p ↦ parse_digits-lt radix limit 0 (d ∷ s) h (rw p at e)
  | inr p ↦ parse_digits-lt radix limit 0 (c ∷ d ∷ s) h (rw p at e)
]
