-- ===== src/Types/Hex.antt =====
-- The hexadecimal form of a trace id: `to_hex` and `from_hex` of src/store/types.rs.
use spanfall.Prelude.{
  ℕ, zero, suc, ◌+◌, ◌/◌, ◌%◌, ◌<◌, ◌≡◌, refl, Bool, true, false, ◌&&◌, Option, none, some, List,
  [], ◌∷◌, ◌++◌, arith, nat_eq, length, All, nat_eq_iff, Bool-cases, Option-cases, inl, inr,
}
use spanfall.Prelude.Text.{Text, as_bytes, from_str_radix, as_bytes_ascii, from_str_radix-lt}
use spanfall.Types.{
  TraceId, IsBytes, format_02x, hex_of, to_hex, from_hex_chunks, from_hex, hex_digit,
  two_bytes_are_utf8,
}

check_upto : (ℕ → Bool) → ℕ → Bool
check_upto test zero = true
check_upto test (suc bound) = check_upto test bound && test bound

check_upto_lem :
    (test : ℕ → Bool) (bound b : ℕ) → check_upto test bound ≡ true → b < bound → test b ≡ true
unfolding check_upto
check_upto_lem test zero b h lt = elim lt [ ]
check_upto_lem test (suc bound) b h lt = ground (arith, check_upto_lem test bound b)

-- One byte, printed and read back.
reads_back : ℕ → Bool
unfolding format_02x from_hex_chunks two_bytes_are_utf8 from_str_radix
reads_back b = elim (from_hex_chunks (format_02x b)) [
  | none ↦ false
  | some bs ↦ elim bs [ [] ↦ false | v ∷ rest ↦ nat_eq v b ]
]

table : check_upto reads_back 256 ≡ true
unfolding check_upto reads_back
table = refl

hex_digit-lt : (d : ℕ) → d < 16 → hex_digit d < 0x80
unfolding hex_digit
hex_digit-lt d h = ground arith

hex_of-ascii : (bs : List ℕ) → All (λ b. b < 256) bs → All (λ c. c < 0x80) (hex_of bs)
unfolding hex_of format_02x
hex_of-ascii [] h = tt
hex_of-ascii (b ∷ bs) h = (
  hex_digit-lt (b / 16) (omega arith),
  (hex_digit-lt (b % 16) (omega arith), hex_of-ascii bs h.1),
)

length-hex_of : (bs : List ℕ) → length (hex_of bs) ≡ length bs + length bs
unfolding hex_of format_02x
length-hex_of [] = refl
length-hex_of (b ∷ bs) = omega (arith, length-hex_of bs)

reads_back-eq :
    (b : ℕ) (r : Option (List ℕ))
    → (elim r [ none ↦ false | some bs ↦ elim bs [ [] ↦ false | v ∷ rest ↦ nat_eq v b ] ]) ≡ true
    → (rest : List ℕ) × (r ≡ some (b ∷ rest))
reads_back-eq b none h = cc
reads_back-eq b (some []) h = cc
reads_back-eq b (some (v ∷ rest)) h = (rest, ground arith)

-- A byte's two digits are read back as the byte.
chunk-format_02x :
    (b : ℕ) (s : List ℕ) (vs : List ℕ)
    → b < 256
    → from_hex_chunks s ≡ some vs
    → from_hex_chunks (format_02x b ++ s) ≡ some (b ∷ vs)
unfolding from_hex_chunks format_02x
chunk-format_02x b s vs h e =
    let (rest, p) =
      reads_back-eq b (from_hex_chunks (format_02x b))
        (unfold reads_back in check_upto_lem reads_back 256 b table h) in
    ground arith

from_hex_chunks-hex_of :
    (bs : List ℕ) → All (λ b. b < 256) bs → from_hex_chunks (hex_of bs) ≡ some bs
unfolding hex_of from_hex_chunks
from_hex_chunks-hex_of [] h = refl
from_hex_chunks-hex_of (b ∷ bs) h =
    chunk-format_02x b (hex_of bs) bs h.0 (from_hex_chunks-hex_of bs h.1)

-- An id of sixteen bytes is read back from the hexadecimal form that `to_hex` gives it.
pub from_hex-to_hex : (id : TraceId) → IsBytes 16 id.bytes → from_hex (to_hex id) ≡ some id
unfolding from_hex to_hex
from_hex-to_hex id h = rw (as_bytes_ascii (hex_of id.bytes) (hex_of-ascii id.bytes h.1)) (
    rw ((nat_eq_iff (length (hex_of id.bytes)) 32).1 (omega (arith, length-hex_of id.bytes, h.0)))
      (rw (from_hex_chunks-hex_of id.bytes h.1)))

from_hex_chunks-IsBytes :
    (s : List ℕ) (n : ℕ) (bs : List ℕ)
    → length s ≡ n + n
    → from_hex_chunks s ≡ some bs
    → IsBytes n bs
unfolding from_hex_chunks
from_hex_chunks-IsBytes [] n bs l e = ground arith
from_hex_chunks-IsBytes (a ∷ []) n bs l e = absurd (omega arith)
from_hex_chunks-IsBytes (a ∷ b ∷ s) zero bs l e = absurd (omega arith)
from_hex_chunks-IsBytes (a ∷ b ∷ s) (suc n) bs l e = elim (Bool-cases (two_bytes_are_utf8 a b)) [
  | inr p ↦ ground arith
  | inl p ↦ elim (Option-cases (from_str_radix 16 256 (a ∷ b ∷ []))) [
    | inl q ↦ ground arith
    | inr (v, q) ↦ elim (Option-cases (from_hex_chunks s)) [
      | inl r ↦ ground arith
      | inr (vs, r) ↦
          let lt = from_str_radix-lt 16 256 (a ∷ b ∷ []) (omega arith) q in
          let rest = from_hex_chunks-IsBytes s n vs (omega arith) r in ground arith
    ]
  ]
]

-- Whatever `from_hex` accepts is an id of sixteen bytes.
pub from_hex-IsBytes : (s : Text) {id : TraceId} → from_hex s ≡ some id → IsBytes 16 id.bytes
unfolding from_hex
from_hex-IsBytes s {id} e = elim (Option-cases (from_hex_chunks (as_bytes s))) [
  | inl q ↦ ground arith
  | inr (bs, q) ↦ ground (arith, from_hex_chunks-IsBytes (as_bytes s) 16 bs)
]

plus_chunks : List ℕ → Text
unfolding hex_digit
plus_chunks [] = []
plus_chunks (b ∷ bs) = b'+' ∷ hex_digit b ∷ plus_chunks bs

-- The form `+d+d…`, which is not hexadecimal digits.
pub plus_form : TraceId → Text
unfolding plus_chunks
plus_form id = plus_chunks id.bytes

plus_chunks-ascii : (bs : List ℕ) → All (λ b. b < 16) bs → All (λ c. c < 0x80) (plus_chunks bs)
unfolding plus_chunks
plus_chunks-ascii [] h = tt
plus_chunks-ascii (b ∷ bs) h = (omega arith, (hex_digit-lt b h.0, plus_chunks-ascii bs h.1))

length-plus_chunks : (bs : List ℕ) → length (plus_chunks bs) ≡ length bs + length bs
unfolding plus_chunks
length-plus_chunks [] = refl
length-plus_chunks (b ∷ bs) = omega (arith, length-plus_chunks bs)

reads_plus : ℕ → Bool
unfolding hex_digit from_hex_chunks two_bytes_are_utf8 from_str_radix
reads_plus b = elim (from_hex_chunks (b'+' ∷ hex_digit b ∷ [])) [
  | none ↦ false
  | some bs ↦ elim bs [ [] ↦ false | v ∷ rest ↦ nat_eq v b ]
]

plus_table : check_upto reads_plus 16 ≡ true
unfolding check_upto reads_plus
plus_table = refl

chunk-plus :
    (b : ℕ) (s : List ℕ) (vs : List ℕ)
    → b < 16
    → from_hex_chunks s ≡ some vs
    → from_hex_chunks (b'+' ∷ hex_digit b ∷ s) ≡ some (b ∷ vs)
unfolding from_hex_chunks hex_digit
chunk-plus b s vs h e =
    let (rest, p) =
      reads_back-eq b (from_hex_chunks (b'+' ∷ hex_digit b ∷ []))
        (unfold reads_plus in check_upto_lem reads_plus 16 b plus_table h) in
    ground arith

from_hex_chunks-plus_chunks :
    (bs : List ℕ) → All (λ b. b < 16) bs → from_hex_chunks (plus_chunks bs) ≡ some bs
unfolding plus_chunks from_hex_chunks
from_hex_chunks-plus_chunks [] h = refl
from_hex_chunks-plus_chunks (b ∷ bs) h =
    chunk-plus b (plus_chunks bs) bs h.0 (from_hex_chunks-plus_chunks bs h.1)

-- A `+` before a single digit is accepted in place of two digits: the form `+d+d…` of an id whose
-- bytes are below sixteen, 32 characters of which half are no hexadecimal digits, is read as that
-- id.
pub from_hex-plus_form :
    (id : TraceId)
    → length id.bytes ≡ 16
    → All (λ b. b < 16) id.bytes
    → from_hex (plus_form id) ≡ some id
unfolding from_hex plus_form
from_hex-plus_form id l h =
    rw (as_bytes_ascii (plus_chunks id.bytes) (plus_chunks-ascii id.bytes h)) (
      rw
        ((nat_eq_iff (length (plus_chunks id.bytes)) 32).1
          (omega (arith, length-plus_chunks id.bytes, l)))
        (rw (from_hex_chunks-plus_chunks id.bytes h)))
