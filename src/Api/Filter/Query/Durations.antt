-- ===== src/Api/Filter/Query/Durations.antt =====
-- What `parse_duration` of src/api/filter.rs reads: a number with a unit.
use spanfall.Prelude.{
  ℕ, ◌*◌, ◌^◌, ◌<◌, ◌≡◌, ◌≢◌, refl, sym, ap, ◌∙◌, subst, true, none, some, [], ◌∷◌, ◌++◌,
  append-nil, arith, ltb, lt→ltb, list_beq, list_beq_iff, ℕ_eq, if◌then◌else◌, All, All-append,
}
use spanfall.Prelude.Text.{Text, text}
use spanfall.Prelude.Strings.{strip_suffix, to_string}
use spanfall.Prelude.Decimal.{IsDigit, to_string-digits, parse_u64-to_string}
use spanfall.Api.Filter.Query.{checked_mul_u64, scaled, parse_duration}

-- The units, of which a number alone has the last.
pub data TimeUnit : Type 0 where
  milliseconds microseconds nanoseconds seconds bare : TimeUnit

abbrev pub suffix : TimeUnit → Text
suffix milliseconds = text "ms"
suffix microseconds = text "us"
suffix nanoseconds = text "ns"
suffix seconds = text "s"
suffix bare = []

abbrev pub nanos_of : TimeUnit → ℕ
nanos_of milliseconds = 1000000
nanos_of microseconds = 1000
nanos_of nanoseconds = 1
nanos_of seconds = 1000000000
nanos_of bare = 1

-- A suffix is stripped from a text that has not its first character elsewhere.
strip_suffix-append :
    (s : Text) (c : ℕ) (t : Text) → All (λ x. x ≢ c) s → strip_suffix (s ++ c ∷ t) (c ∷ t) ≡ some s
unfolding strip_suffix
strip_suffix-append [] c t h = rw (same c t) refl
  where
    same : (c : ℕ) (t : Text) → list_beq (c ∷ t) (c ∷ t) ≡ true
    same c t = (list_beq_iff (c ∷ t) (c ∷ t)).1 refl
strip_suffix-append (x ∷ s) c t h = ground (arith, strip_suffix-append s c t h.1, h.0)

-- There is no suffix to strip where its first character does not occur.
strip_suffix-absent :
    (s : Text) (c : ℕ) (t : Text) → All (λ x. x ≢ c) s → strip_suffix s (c ∷ t) ≡ none
unfolding strip_suffix
strip_suffix-absent [] c t h = refl
strip_suffix-absent (x ∷ s) c t h = ground (arith, strip_suffix-absent s c t h.1, h.0)

digits-other : (s : Text) (c : ℕ) → b'9' < c → All IsDigit s → All (λ x. x ≢ c) s
digits-other [] c h d = tt
digits-other (x ∷ s) c h d = (omega (arith, d.0), digits-other s c h d.1)

module _ (n : ℕ) where
  abbrev digits : Text
  digits = to_string n

  all_digits : All IsDigit digits
  all_digits = let (c, s, e, d, ds) = to_string-digits n in subst (All IsDigit) (sym e) (d, ds)

  no_suffix :
      (t : Text) (c : ℕ) (rest : Text)
      → b'9' < c
      → All (λ x. x ≢ c) t
      → strip_suffix (digits ++ t) (c ∷ rest) ≡ none
  no_suffix t c rest h other =
      strip_suffix-absent (digits ++ t) c rest
        (All-append (λ x. x ≢ c) digits t (digits-other digits c h all_digits) other)

  has_suffix :
      (c : ℕ) (rest : Text) → b'9' < c → strip_suffix (digits ++ c ∷ rest) (c ∷ rest) ≡ some digits
  has_suffix c rest h = strip_suffix-append digits c rest (digits-other digits c h all_digits)

  parse_duration-unit :
      (u : TimeUnit) → parse_duration (digits ++ suffix u) ≡ scaled digits (nanos_of u)
  unfolding parse_duration
  parse_duration-unit milliseconds =
      rw (parse_duration, has_suffix b'm' (text "s") (omega arith)) refl
  parse_duration-unit microseconds =
      rw
        (
          parse_duration,
          no_suffix (text "us") b'm' (text "s") (omega arith) (omega arith, (omega arith, tt)),
          has_suffix b'u' (text "s") (omega arith),
        )
        refl
  parse_duration-unit nanoseconds =
      rw
        (
          parse_duration,
          no_suffix (text "ns") b'm' (text "s") (omega arith) (omega arith, (omega arith, tt)),
          no_suffix (text "ns") b'u' (text "s") (omega arith) (omega arith, (omega arith, tt)),
          has_suffix b'n' (text "s") (omega arith),
        )
        refl
  parse_duration-unit seconds =
      rw
        (
          parse_duration,
          no_suffix (text "s") b'm' (text "s") (omega arith) (omega arith, tt),
          no_suffix (text "s") b'u' (text "s") (omega arith) (omega arith, tt),
          no_suffix (text "s") b'n' (text "s") (omega arith) (omega arith, tt),
          has_suffix b's' [] (omega arith),
        )
        refl
  parse_duration-unit bare =
      ap parse_duration (append-nil digits)
      ∙ rw
          (
            parse_duration,
            strip_suffix-absent digits b'm' (text "s")
                (digits-other digits b'm' (omega arith) all_digits),
            strip_suffix-absent digits b'u' (text "s")
                (digits-other digits b'u' (omega arith) all_digits),
            strip_suffix-absent digits b'n' (text "s")
                (digits-other digits b'n' (omega arith) all_digits),
            strip_suffix-absent digits b's' [] (digits-other digits b's' (omega arith) all_digits),
          )
          refl

-- The decimal digits of a `u64`, followed by "ms", "us", "ns", "s" or nothing, are read as that many
-- milliseconds, microseconds, nanoseconds, seconds or nanoseconds, in nanoseconds, if that is a
-- `u64`, and are refused otherwise.
pub parse_duration-to_string :
    (n : ℕ) (u : TimeUnit)
    → n < 2 ^ 64
    → parse_duration (to_string n ++ suffix u)
      ≡ (if ltb (n * nanos_of u) (2 ^ 64) then some (n * nanos_of u) else none)
unfolding scaled checked_mul_u64
parse_duration-to_string n u h = parse_duration-unit n u ∙ rw (scaled, parse_u64-to_string n h) refl

suffix-other : (u : TimeUnit) (c : ℕ) → c < b'a' → All (λ x. x ≢ c) (suffix u)
suffix-other milliseconds c h = (omega arith, (omega arith, tt))
suffix-other microseconds c h = (omega arith, (omega arith, tt))
suffix-other nanoseconds c h = (omega arith, (omega arith, tt))
suffix-other seconds c h = (omega arith, tt)
suffix-other bare c h = tt

-- A printed duration has no character between the digits and the letters.
pub printed-other :
    (n : ℕ) (u : TimeUnit) (c : ℕ)
    → b'9' < c
    → c < b'a'
    → All (λ x. x ≢ c) (to_string n ++ suffix u)
printed-other n u c h h' =
    All-append (λ x. x ≢ c) (to_string n) (suffix u) (digits-other (to_string n) c h (all_digits n))
      (suffix-other u c h')

number-small : (n : ℕ) (u : TimeUnit) → n * nanos_of u < 2 ^ 64 → n < 2 ^ 64
number-small n milliseconds h = omega arith
number-small n microseconds h = omega arith
number-small n nanoseconds h = omega arith
number-small n seconds h = omega arith
number-small n bare h = omega arith

-- A duration that is a `u64` is read back.
pub parse_duration-printed :
    (n : ℕ) (u : TimeUnit)
    → n * nanos_of u < 2 ^ 64
    → parse_duration (to_string n ++ suffix u) ≡ some (n * nanos_of u)
parse_duration-printed n u h =
    parse_duration-to_string n u (number-small n u h) ∙ rw (lt→ltb (n * nanos_of u) (2 ^ 64) h)
