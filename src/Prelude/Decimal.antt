-- ===== src/Prelude/Decimal.antt =====
-- A number is read back from its decimal digits.
use spanfall.Prelude.{
  ℕ, zero, suc, ◌+◌, ◌*◌, ◌/◌, ◌%◌, ◌^◌, ◌≤◌, ◌<◌, ◌≡◌, refl, sym, ap, ◌∙◌, false, some, [], ◌∷◌,
  arith, ltb, nat_eq, ltb→lt, ltb-false→le, All, Bool-cases, inl, inr,
}
use spanfall.Prelude.Text.{Text, to_digit, parse_digits, from_str_radix}
use spanfall.Prelude.Strings.{decimal_from, to_string, parse_u64}

abbrev pub IsDigit : ℕ → Type 0
IsDigit c = (b'0' ≤ c) × (c ≤ b'9')

to_digit-digit : (d : ℕ) → d < 10 → to_digit 10 (b'0' + d) ≡ some d
unfolding to_digit
to_digit-digit d h = ground arith

parse_digits-digit :
    (limit acc d : ℕ) (rest : Text)
    → d < 10
    → acc * 10 + d < limit
    → parse_digits 10 limit acc ((b'0' + d) ∷ rest) ≡ parse_digits 10 limit (acc * 10 + d) rest
unfolding parse_digits
parse_digits-digit limit acc d rest h small = ground (arith, to_digit-digit d h)

parse_digits-decimal_from :
    (limit fuel n : ℕ) (rest : Text)
    → n < fuel
    → n < limit
    → parse_digits 10 limit 0 (decimal_from fuel n rest) ≡ parse_digits 10 limit n rest
unfolding decimal_from
parse_digits-decimal_from limit zero n rest h small = elim h [ ]
parse_digits-decimal_from limit (suc fuel) n rest h small = elim (Bool-cases (ltb n 10)) [
  | inl one ↦ rw one (
      parse_digits-digit limit 0 n rest (ltb→lt n 10 one) (omega arith)
      ∙ ap (λ k. parse_digits 10 limit k rest) (let same : 0 * 10 + n ≡ n = omega arith in same))
  | inr more ↦
      let least = ltb-false→le n 10 more in
      rw more (
        parse_digits-decimal_from limit fuel (n / 10) ((b'0' + n % 10) ∷ rest) (omega arith)
          (omega arith)
        ∙ parse_digits-digit limit (n / 10) (n % 10) rest (omega arith) (omega arith)
        ∙ ap (λ k. parse_digits 10 limit k rest)
            (let same : n / 10 * 10 + n % 10 ≡ n = omega arith in same))
]

-- There is a digit, and nothing but digits before the rest.
decimal_from-digits :
    (fuel n : ℕ) (rest : Text)
    → n < fuel
    → All IsDigit rest
    → (c : ℕ) × (s : Text) × (decimal_from fuel n rest ≡ c ∷ s) × IsDigit c × All IsDigit s
unfolding decimal_from
decimal_from-digits zero n rest h all = elim h [ ]
decimal_from-digits (suc fuel) n rest h all = elim (Bool-cases (ltb n 10)) [
  | inl one ↦
      let small = ltb→lt n 10 one in (b'0' + n, rest, rw one refl, (omega arith, omega arith), all)
  | inr more ↦
      let least = ltb-false→le n 10 more in
      let (c, s, e, digit, digits) =
        decimal_from-digits fuel (n / 10) ((b'0' + n % 10) ∷ rest) (omega arith)
          ((omega arith, omega arith), all) in
      (c, s, rw more e, digit, digits)
]

pub to_string-digits :
    (n : ℕ) → (c : ℕ) × (s : Text) × (to_string n ≡ c ∷ s) × IsDigit c × All IsDigit s
unfolding to_string
to_string-digits n = decimal_from-digits (suc n) n [] (omega arith) tt

from_str_radix-digits :
    (limit c : ℕ) (s : Text)
    → IsDigit c
    → from_str_radix 10 limit (c ∷ s) ≡ parse_digits 10 limit 0 (c ∷ s)
unfolding from_str_radix
from_str_radix-digits limit c [] digit = refl
from_str_radix-digits limit c (d ∷ s) digit =
    rw (let other : nat_eq c b'+' ≡ false = ground (arith, digit.0) in other) refl

-- A `u64` is read back from its digits.
pub parse_u64-to_string : (n : ℕ) → n < 2 ^ 64 → parse_u64 (to_string n) ≡ some n
unfolding parse_u64 to_string parse_digits
parse_u64-to_string n small =
    let (c, s, e, digit, digits) = to_string-digits n in
    ap (from_str_radix 10 (2 ^ 64)) e
    ∙ from_str_radix-digits (2 ^ 64) c s digit
    ∙ ap (parse_digits 10 (2 ^ 64) 0) (sym e)
    ∙ parse_digits-decimal_from (2 ^ 64) (suc n) n [] (omega arith) small
