-- ===== src/Api/Filter/Matches/Meaning.antt =====
-- What a query of src/api/filter.rs asks of a span, as propositions about the span as it was
-- sent, apart from how the code tests them.
use spanfall.Prelude.{
  ℕ, suc, ◌-◌, ◌*◌, ◌≤◌, ◌<◌, ◌≡◌, ◌≢◌, ◌⊎◌, true, false, some, List, [], ◌∷◌, ◌++◌, All, get_elem?,
}
use spanfall.Prelude.Text.{Text, text}
use spanfall.Types.{AttrValue, str, int, double, bool, pos}
use spanfall.Trace.{NewSpan}
use spanfall.Store.{Store}
use spanfall.Api.Filter.{Op, eq, ne, gt, gte, lt, lte, Numbers}
use spanfall.Api.Filter.Query.Durations.{nanos_of}
use spanfall.Api.Filter.Query.Wanted.{Wanted, by_service, by_status, by_duration, by_attr, phrase}

abbrev pub Any {ℓ} : {A : Type ℓ} → (A → Type 0) → List A → Type 0
Any P [] = ⊥
Any P (x ∷ xs) = P x ⊎ Any P xs

abbrev pub Compares : Op → ℕ → ℕ → Type 0
Compares eq a b = a ≡ b
Compares ne a b = a ≢ b
Compares gt a b = b < a
Compares gte a b = b ≤ a
Compares lt a b = a < b
Compares lte a b = a ≤ b

-- Only `=` and `!=` are asked of a service or a status.
abbrev pub Same : {A : Type 0} → Op → A → A → Type 0
Same eq a b = a ≡ b
Same ne a b = a ≢ b
Same _ a b = ⊥

abbrev pub Lasted : Op → ℕ → ℕ → ℕ → Type 0
Lasted op want start end = (start ≤ end) × Compares op (end - start) want

abbrev pub Occurs : Text → Text → Type 0
Occurs needle s = (before : Text) × (after : Text) × (s ≡ before ++ (needle ++ after))

module _ (n : Numbers) where
  -- The orders of `f64`.
  abbrev pub FloatCompares : Op → ℕ → ℕ → Type 0
  FloatCompares eq a b = n.f64_eq a b ≡ true
  FloatCompares ne a b = n.f64_eq a b ≡ false
  FloatCompares gt a b = n.f64_lt b a ≡ true
  FloatCompares gte a b = n.f64_le b a ≡ true
  FloatCompares lt a b = n.f64_lt a b ≡ true
  FloatCompares lte a b = n.f64_le a b ≡ true

  -- A value is the one that the text is for; text is read as the value's type.
  abbrev pub IsEqual : Text → AttrValue → Type 0
  IsEqual raw (str s) = s ≡ raw
  IsEqual raw (int i) = n.parse_i64 raw ≡ some i
  IsEqual raw (double d) = (want : ℕ) × (n.parse_f64 raw ≡ some want) × (n.f64_eq want d ≡ true)
  IsEqual raw (bool true) = raw ≡ text "true"
  IsEqual raw (bool false) = raw ≡ text "false"

  -- Numbers are ordered as floating-point numbers; nothing else has an order.
  abbrev pub IsOrdered : Op → Text → AttrValue → Type 0
  IsOrdered op raw (int i) =
      (want : ℕ) × (n.parse_f64 raw ≡ some want) × FloatCompares op (n.i64_as_f64 i) want
  IsOrdered op raw (double d) = (want : ℕ) × (n.parse_f64 raw ≡ some want) × FloatCompares op d want
  IsOrdered op raw (str s) = ⊥
  IsOrdered op raw (bool b) = ⊥

  abbrev pub IsWanted : Op → Text → AttrValue → Type 0
  IsWanted eq raw v = IsEqual raw v
  IsWanted ne raw v = ¬ IsEqual raw v
  IsWanted op raw v = IsOrdered op raw v

  -- Some attribute with the key is as wanted; under `!=` a span without the key matches as well.
  abbrev pub HasWanted : Text → Op → Text → List (Text × AttrValue) → Type 0
  HasWanted key ne raw kvs =
      All (λ kv. kv.0 ≢ key) kvs ⊎ Any (λ kv. (kv.0 ≡ key) × IsWanted ne raw kv.1) kvs
  HasWanted key op raw kvs = Any (λ kv. (kv.0 ≡ key) × IsWanted op raw kv.1) kvs

  abbrev pub Mentions : Text → AttrValue → Type 0
  Mentions needle (str s) = Occurs needle s
  Mentions needle (int i) = Occurs needle (n.i64_to_string i)
  Mentions needle (double d) = Occurs needle (n.f64_to_string d)
  Mentions needle (bool true) = Occurs needle (text "true")
  Mentions needle (bool false) = Occurs needle (text "false")

  module _ (s : Store) where
    -- The key of some span that the store took.
    abbrev pub IsKnown : Text → Type 0
    IsKnown key = (id : ℕ) × (get_elem? s.key_interner.values id ≡ some key)

    abbrev pub Meets : Wanted → NewSpan → Type 0
    Meets (by_service op name) x = Same op x.service_name (some name)
    Meets (by_status op code) x = Same op x.status_code (pos code)
    Meets (by_duration op k u) x =
        Lasted op (k * nanos_of u) x.start_time_unix_nano x.end_time_unix_nano
    Meets (by_attr key op raw) x = IsKnown key × HasWanted key op raw x.attributes
    Meets (phrase needle) x = Occurs needle x.name ⊎ Any (λ kv. Mentions needle kv.1) x.attributes

    abbrev pub MeetsAll : List Wanted → NewSpan → Type 0
    MeetsAll ws x = All (λ w. Meets w x) ws

    -- The indices, from `k` on, of the spans that meet all that is wanted, and of no others.
    abbrev pub Chosen : List Wanted → ℕ → List NewSpan → List ℕ → Type 0
    Chosen ws k [] indices = indices ≡ []
    Chosen ws k (x ∷ xs) indices =
        (MeetsAll ws x × (rest : List ℕ) × (indices ≡ k ∷ rest) × Chosen ws (suc k) xs rest)
        ⊎ ((¬ MeetsAll ws x) × Chosen ws (suc k) xs indices)
