-- ===== src/Prelude/Strings.antt =====
-- More of `str` and `char` of Rust's standard library: prefixes, search, numbers as text.
use spanfall.Prelude.{
  ℕ, zero, suc, ◌+◌, ◌/◌, ◌%◌, ◌^◌, Bool, true, false, ◌&&◌, ◌||◌, Option, none, some, [], ◌∷◌, ltb,
  leb, nat_eq, list_beq, ℕ_eq, if◌then◌else◌,
}
use spanfall.Prelude.Text.{Text, from_str_radix}

-- `s.starts_with(prefix)`.
unfoldable pub starts_with : Text → Text → Bool
starts_with s [] = true
starts_with [] (c ∷ prefix) = false
starts_with (d ∷ s) (c ∷ prefix) = nat_eq d c && starts_with s prefix

-- `s.contains(needle)`.
unfoldable pub contains : Text → Text → Bool
contains [] needle = starts_with [] needle
contains (c ∷ s) needle = starts_with (c ∷ s) needle || contains s needle

-- `s.strip_suffix(suffix)`.
unfoldable pub strip_suffix : Text → Text → Option Text
strip_suffix [] suffix = if list_beq [] suffix then some [] else none
strip_suffix (c ∷ s) suffix =
    let rest = strip_suffix s suffix in
    if list_beq (c ∷ s) suffix then some [] else elim rest [ none ↦ none | some t ↦ some (c ∷ t) ]

-- `s.parse::<u64>().ok()`.
unfoldable pub parse_u64 : Text → Option ℕ
parse_u64 s = from_str_radix 10 (2 ^ 64) s

-- `is_ascii_alphabetic`, `is_ascii_alphanumeric` and `is_whitespace` of a character.
unfoldable pub is_ascii_alphabetic : ℕ → Bool
is_ascii_alphabetic c = (leb b'a' c && leb c b'z') || (leb b'A' c && leb c b'Z')

unfoldable pub is_ascii_alphanumeric : ℕ → Bool
is_ascii_alphanumeric c = is_ascii_alphabetic c || (leb b'0' c && leb c b'9')

unfoldable pub is_whitespace : ℕ → Bool
is_whitespace c =
    (leb 9 c && leb c 13)
    || (nat_eq c 0x20
        || (nat_eq c 0x85
            || (nat_eq c 0xa0
                || (nat_eq c 0x1680
                    || ((leb 0x2000 c && leb c 0x200a)
                        || (nat_eq c 0x2028
                            || (nat_eq c 0x2029
                                || (nat_eq c 0x202f || (nat_eq c 0x205f || nat_eq c 0x3000)))))))))

-- The decimal digits of a number before `rest`; one round for each digit, at most `fuel` of them.
unfoldable pub decimal_from : ℕ → ℕ → Text → Text
decimal_from zero n rest = rest
decimal_from (suc fuel) n rest =
    let digits = decimal_from fuel (n / 10) ((b'0' + n % 10) ∷ rest) in
    if ltb n 10 then (b'0' + n) ∷ rest else digits

-- `n.to_string()`; a number has fewer digits than it counts, so the fuel is enough.
unfoldable pub to_string : ℕ → Text
unfolding decimal_from
to_string n = decimal_from (suc n) n []

-- Lexicographic order, as of `String`: UTF-8 keeps the order of the characters.
unfoldable pub text_lt : Text → Text → Bool
text_lt s [] = false
text_lt [] (d ∷ t) = true
text_lt (c ∷ s) (d ∷ t) = ltb c d || (nat_eq c d && text_lt s t)
