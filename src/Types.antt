-- ===== src/Types.antt =====
-- src/store/types.rs: the ids of traces and spans, their hexadecimal form, and attribute values.
pub mod Hex
use spanfall.Prelude.{
  ℕ, zero, suc, ◌+◌, ◌-◌, ◌/◌, ◌%◌, ◌≤◌, ◌<◌, ◌≡◌, ◌↔◌, refl, ap, Bool, true, false, ◌&&◌, ◌||◌,
  Option, none, some, List, [], ◌∷◌, ◌++◌, arith, ltb, leb, nat_eq, if◌then◌else◌, length, All, Eq,
  list_beq, list_beq_iff, ℕ_eq,
}
use spanfall.Prelude.Text.{Text, as_bytes, from_str_radix}

pub record TraceId : Type 0 where
  pub bytes : List ℕ

pub record SpanId : Type 0 where
  pub bytes : List ℕ

-- `[u8; n]`.
abbrev pub IsBytes : ℕ → List ℕ → Type 0
IsBytes n bs = (length bs ≡ n) × All (λ b. b < 256) bs

pub trace_id_beq_iff : (a b : TraceId) → (list_beq a.bytes b.bytes ≡ true) ↔ (a ≡ b)
trace_id_beq_iff a b = (
  (λ h. ap (λ bs. record { bytes = bs }) ((list_beq_iff a.bytes b.bytes).0 h)),
  λ h. (list_beq_iff a.bytes b.bytes).1 (ap (λ t. t.bytes) h),
)

pub span_id_beq_iff : (a b : SpanId) → (list_beq a.bytes b.bytes ≡ true) ↔ (a ≡ b)
span_id_beq_iff a b = (
  (λ h. ap (λ bs. record { bytes = bs }) ((list_beq_iff a.bytes b.bytes).0 h)),
  λ h. (list_beq_iff a.bytes b.bytes).1 (ap (λ t. t.bytes) h),
)

instance abbrev pub trace_id_eq : Eq TraceId
trace_id_eq = record { beq = λ a b. list_beq a.bytes b.bytes; beq_iff = trace_id_beq_iff }

instance abbrev pub span_id_eq : Eq SpanId
span_id_eq = record { beq = λ a b. list_beq a.bytes b.bytes; beq_iff = span_id_beq_iff }

-- A signed integer; `negsuc n` is -(n + 1).
pub data ℤ : Type 0 where
  pos : ℕ → ℤ
  negsuc : ℕ → ℤ

-- `AttrValue`; an `f64` is its 64 bits.
pub data AttrValue : Type 0 where
  str : Text → AttrValue
  int : ℤ → AttrValue
  double : ℕ → AttrValue
  bool : Bool → AttrValue

unfoldable pub hex_digit : ℕ → ℕ
hex_digit d = if ltb d 10 then d + b'0' else d - 10 + b'a'

-- `format!("{b:02x}")` for a byte.
unfoldable pub format_02x : ℕ → Text
unfolding hex_digit
format_02x b = hex_digit (b / 16) ∷ hex_digit (b % 16) ∷ []

unfoldable pub hex_of : List ℕ → Text
hex_of [] = []
hex_of (b ∷ bs) = format_02x b ++ hex_of bs

unfoldable pub to_hex : TraceId → Text
to_hex id = hex_of id.bytes

-- `std::str::from_utf8(chunk).is_ok()` for a chunk of two bytes.
unfoldable pub two_bytes_are_utf8 : ℕ → ℕ → Bool
two_bytes_are_utf8 a b =
    (ltb a 0x80 && ltb b 0x80) || ((leb 0xc2 a && ltb a 0xe0) && (leb 0x80 b && ltb b 0xc0))

-- The loop over `chunks(2)`; an odd byte at the end is a chunk of its own.
unfoldable pub from_hex_chunks : List ℕ → Option (List ℕ)
from_hex_chunks [] = some []
from_hex_chunks (a ∷ []) =
    if ltb a 0x80
    then elim (from_str_radix 16 256 (a ∷ [])) [ none ↦ none | some v ↦ some (v ∷ []) ]
    else none
from_hex_chunks (a ∷ b ∷ s) =
    let rest = from_hex_chunks s in
    if two_bytes_are_utf8 a b
    then elim (from_str_radix 16 256 (a ∷ b ∷ [])) [
      | none ↦ none
      | some v ↦ elim rest [ none ↦ none | some vs ↦ some (v ∷ vs) ]
    ]
    else none

unfoldable pub from_hex : Text → Option TraceId
from_hex s =
    if nat_eq (length (as_bytes s)) 32
    then elim (from_hex_chunks (as_bytes s)) [
      | none ↦ none
      | some bs ↦ some (record { bytes = bs })
    ]
    else none
