-- ===== src/Api/Filter.antt =====
-- src/api/filter.rs: the terms of a filter query and which spans they match. The functions on `f64`
-- and the text of an `i64` are parameters.
pub mod Query
pub mod Matches
use spanfall.Prelude.{
  ℕ, ◌-◌, Bool, true, false, not, ◌&&◌, ◌||◌, Option, none, some, List, [], ◌∷◌, ltb, leb, nat_eq,
  list_beq, ℕ_eq, if◌then◌else◌, Exec, ok, ◌>>=◌,
}
use spanfall.Prelude.Text.{Text, text}
use spanfall.Prelude.Strings.{contains}
use spanfall.Types.{AttrValue, str, int, double, bool, ℤ, pos, negsuc}
use spanfall.Trace.{
  Trace, checked_sub, attributes, attribute_keys, service_name_id, status_code,
  start_time_unix_nano, end_time_unix_nano, name,
}
use spanfall.Store.{Store, service_name}

pub data Op : Type 0 where
  eq ne gt gte lt lte : Op

pub data Term : Type 0 where
  service : Op → Text → Term
  status : Op → ℤ → Term
  duration : Op → ℕ → Term
  attr : Op → Option ℕ → Text → Term
  substring : Text → Term

-- What the code uses of numbers in the standard library, an `f64` being its 64 bits.
pub record Numbers : Type 0 where
  pub parse_i64 : Text → Option ℤ
  pub i64_to_string : ℤ → Text
  pub parse_f64 : Text → Option ℕ
  pub f64_to_string : ℕ → Text
  pub i64_as_f64 : ℤ → ℕ
  pub f64_eq : ℕ → ℕ → Bool
  pub f64_lt : ℕ → ℕ → Bool
  pub f64_le : ℕ → ℕ → Bool

-- `cmp`, at a type with these comparisons.
unfoldable pub cmp {ℓ} :
    {T : Type ℓ} → (T → T → Bool) → (T → T → Bool) → (T → T → Bool) → Op → T → T → Bool
cmp is_eq is_lt is_le eq got want = is_eq got want
cmp is_eq is_lt is_le ne got want = not (is_eq got want)
cmp is_eq is_lt is_le gt got want = is_lt want got
cmp is_eq is_lt is_le gte got want = is_le want got
cmp is_eq is_lt is_le lt got want = is_lt got want
cmp is_eq is_lt is_le lte got want = is_le got want

abbrev pub int_eq : ℤ → ℤ → Bool
int_eq (pos a) (pos b) = nat_eq a b
int_eq (pos a) (negsuc b) = false
int_eq (negsuc a) (pos b) = false
int_eq (negsuc a) (negsuc b) = nat_eq a b

abbrev pub bool_text : Bool → Text
bool_text true = text "true"
bool_text false = text "false"

-- `is_ok_and(..)` of a parsed number.
abbrev pub is_ok_and {ℓ} : {A : Type ℓ} → Option A → (A → Bool) → Bool
is_ok_and none p = false
is_ok_and (some a) p = p a

module _ (n : Numbers) where
  -- The comparison of the arm for `=` and `!=`.
  unfoldable pub attr_eq : AttrValue → Text → Bool
  attr_eq (str s) raw = list_beq s raw
  attr_eq (int i) raw = is_ok_and (n.parse_i64 raw) (λ v. int_eq v i)
  attr_eq (double d) raw = is_ok_and (n.parse_f64 raw) (λ v. n.f64_eq v d)
  attr_eq (bool b) raw = list_beq raw (bool_text b)

  -- The number of the arm for an order; a string and a Boolean have none.
  unfoldable pub attr_num : AttrValue → Option ℕ
  attr_num (int i) = some (n.i64_as_f64 i)
  attr_num (double d) = some d
  attr_num (str s) = none
  attr_num (bool b) = none

  -- The arm for an order.
  unfoldable pub attr_ordered : Op → AttrValue → Text → Bool
  attr_ordered op a raw =
      is_ok_and (attr_num a)
        (λ num. is_ok_and (n.parse_f64 raw) (λ want. cmp n.f64_eq n.f64_lt n.f64_le op num want))

  unfoldable pub attr_matches : Op → AttrValue → Text → Bool
  attr_matches eq a raw = attr_eq a raw
  attr_matches ne a raw = not (attr_eq a raw)
  attr_matches gt a raw = attr_ordered gt a raw
  attr_matches gte a raw = attr_ordered gte a raw
  attr_matches lt a raw = attr_ordered lt a raw
  attr_matches lte a raw = attr_ordered lte a raw

  unfoldable pub attr_contains : AttrValue → Text → Bool
  attr_contains (str s) needle = contains s needle
  attr_contains (int i) needle = contains (n.i64_to_string i) needle
  attr_contains (double d) needle = contains (n.f64_to_string d) needle
  attr_contains (bool b) needle = contains (bool_text b) needle

  -- `iter().any(..)`.
  abbrev pub any : (AttrValue → Bool) → List AttrValue → Bool
  any p [] = false
  any p (v ∷ vs) = p v || any p vs

  -- The values of the attributes with a key.
  unfoldable pub values_of : ℕ → List ℕ → List AttrValue → List AttrValue
  values_of key [] vs = []
  values_of key (k ∷ ks) [] = []
  values_of key (k ∷ ks) (v ∷ vs) =
      let rest = values_of key ks vs in if nat_eq k key then v ∷ rest else rest

  -- The arm of a service term.
  unfoldable pub service_matches : Op → Text → Option Text → Bool
  service_matches eq want (some got) = list_beq got want
  service_matches ne want (some got) = not (list_beq got want)
  service_matches ne want none = true
  service_matches eq want none = false
  service_matches gt want got = false
  service_matches gte want got = false
  service_matches lt want got = false
  service_matches lte want got = false

  unfoldable pub status_matches : Op → ℤ → ℤ → Bool
  status_matches eq want code = int_eq code want
  status_matches ne want code = not (int_eq code want)
  status_matches gt want code = false
  status_matches gte want code = false
  status_matches lt want code = false
  status_matches lte want code = false

  abbrev is_ne : Op → Bool
  is_ne ne = true
  is_ne eq = false
  is_ne gt = false
  is_ne gte = false
  is_ne lt = false
  is_ne lte = false

  -- The arm of an attribute term whose key is known, from the values with that key.
  unfoldable pub values_match : Op → Text → List AttrValue → Bool
  values_match op raw [] = is_ne op
  values_match op raw (v ∷ vs) = any (λ v. attr_matches op v raw) (v ∷ vs)

  unfoldable pub duration_matches : Op → ℕ → ℕ → ℕ → Bool
  duration_matches op want start end = elim (checked_sub end start) [
    | some d ↦ cmp nat_eq ltb leb op d want
    | none ↦ false
  ]

  -- `trace.service_name_id(idx).map(|id| store.service_name(id))`.
  unfoldable pub service_at : Trace → Store → ℕ → Exec (Option Text)
  service_at t store idx = do
    id ← service_name_id t idx
    elim id [ none ↦ ok none | some id ↦ do got ← service_name store id; ok (some got) ]

  unfoldable pub matches : Term → Trace → Store → ℕ → Exec Bool
  matches (service op want) t store idx = do
    got ← service_at t store idx
    ok (service_matches op want got)
  matches (status op want) t store idx = do
    code ← status_code t idx
    ok (status_matches op want code)
  matches (duration op want) t store idx = do
    end ← end_time_unix_nano t idx
    start ← start_time_unix_nano t idx
    ok (duration_matches op want start end)
  matches (attr op (some key) raw) t store idx = do
    keys ← attribute_keys t idx
    values ← attributes t idx
    ok (values_match op raw (values_of key keys values))
  matches (attr op none raw) t store idx = ok false
  matches (substring needle) t store idx = do
    span_name ← name t idx
    let rest = (do values ← attributes t idx; ok (any (λ v. attr_contains v needle) values)) in
        if contains span_name needle then ok true else rest
