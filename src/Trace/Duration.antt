-- ===== src/Trace/Duration.antt =====
-- `Trace::duration_nanos` of src/store/trace.rs.
use spanfall.Prelude.{
  ℕ, suc, ◌+◌, ◌-◌, ◌≤◌, ◌<◌, ◌≡◌, ◌⊎◌, refl, ap, ◌∙◌, Option, none, some, List, [], ◌∷◌, map, min,
  max, leb, get_elem?, All, arith, inl, inr, dec_le, true, false,
}
use spanfall.Trace.{Trace, minimum, maximum, checked_sub, duration_nanos}
use spanfall.Trace.Spec.{Row, Refines}

-- `m` is in the list and `P m x` holds of every `x` in it.
abbrev Extreme : (ℕ → ℕ → Type 0) → List ℕ → ℕ → Type 0
Extreme P xs m = All (P m) xs × ((i : ℕ) × (get_elem? xs i ≡ some m))

All-le : (m k : ℕ) (xs : List ℕ) → k ≤ m → All (λ x. m ≤ x) xs → All (λ x. k ≤ x) xs
All-le m k [] h a = tt
All-le m k (x ∷ xs) h a = (omega (arith, a.0), All-le m k xs h a.1)

All-ge : (m k : ℕ) (xs : List ℕ) → m ≤ k → All (λ x. x ≤ m) xs → All (λ x. x ≤ k) xs
All-ge m k [] h a = tt
All-ge m k (x ∷ xs) h a = (omega (arith, a.0), All-ge m k xs h a.1)

minimum-Extreme :
    (x : ℕ) (xs : List ℕ)
    → (m : ℕ) × (minimum (x ∷ xs) ≡ some m) × Extreme (λ m x. m ≤ x) (x ∷ xs) m
unfolding minimum
minimum-Extreme x [] = (x, refl, ((omega arith, tt), (0, refl)))
minimum-Extreme x (y ∷ xs) =
    let (m, e, (least, (i, there))) = minimum-Extreme y xs in
    elim (dec_le x m) [
      | yes h ↦ (
        x,
        rw e (ap some (let q : min x m ≡ x = omega arith in q)),
        ((omega arith, All-le m x (y ∷ xs) h least), (0, refl)),
      )
      | no h ↦ (
        m,
        rw e (ap some (let q : min x m ≡ m = omega arith in q)),
        ((omega arith, least), (suc i, there)),
      )
    ]

maximum-Extreme :
    (x : ℕ) (xs : List ℕ)
    → (m : ℕ) × (maximum (x ∷ xs) ≡ some m) × Extreme (λ m x. x ≤ m) (x ∷ xs) m
unfolding maximum
maximum-Extreme x [] = (x, refl, ((omega arith, tt), (0, refl)))
maximum-Extreme x (y ∷ xs) =
    let (m, e, (most, (i, there))) = maximum-Extreme y xs in
    elim (dec_le m x) [
      | yes h ↦ (
        x,
        rw e (ap some (let q : max x m ≡ x = omega arith in q)),
        ((omega arith, All-ge m x (y ∷ xs) h most), (0, refl)),
      )
      | no h ↦ (
        m,
        rw e (ap some (let q : max x m ≡ m = omega arith in q)),
        ((omega arith, most), (suc i, there)),
      )
    ]

-- The first start and the last end of some rows.
pub record Lasts (rows : List Row) (d : Option ℕ) : Type 0 where
  pub earliest : ℕ
  pub latest : ℕ
  pub first : All (λ x. earliest ≤ x) (map (λ r. r.start_time_unix_nano) rows)
  pub starts : (i : ℕ) × (get_elem? (map (λ r. r.start_time_unix_nano) rows) i ≡ some earliest)
  pub last : All (λ x. x ≤ latest) (map (λ r. r.end_time_unix_nano) rows)
  pub ends : (i : ℕ) × (get_elem? (map (λ r. r.end_time_unix_nano) rows) i ≡ some latest)
  pub duration :
      ((d ≡ none) × (latest < earliest)) ⊎ ((n : ℕ) × (d ≡ some n) × (earliest + n ≡ latest))

checked_sub-cases :
    (a b : ℕ)
    → ((checked_sub a b ≡ none) × (a < b)) ⊎ ((n : ℕ) × (checked_sub a b ≡ some n) × (b + n ≡ a))
unfolding checked_sub
checked_sub-cases a b = elim (dec_le b a) [
  | yes h ↦ inr (a - b, (let q : leb b a ≡ true = ground arith in rw q), omega arith)
  | no h ↦ inl ((let q : leb b a ≡ false = ground arith in rw q), omega arith)
]

duration_nanos_of :
    (t : Trace) (m k : ℕ)
    → minimum t.start_time_unix_nano ≡ some m
    → maximum t.end_time_unix_nano ≡ some k
    → duration_nanos t ≡ checked_sub k m
unfolding duration_nanos
duration_nanos_of t m k e f = rw (e, duration_nanos, f)

-- The duration of a trace that holds at least one row is the time from the earliest start of its
-- rows to their latest end, or none if that end is before that start.
pub duration_nanos-Lasts :
    (t : Trace) (r : Row) (rows : List Row)
    → Refines t (r ∷ rows)
    → Lasts (r ∷ rows) (duration_nanos t)
duration_nanos-Lasts t r rows ref =
    let (m, e, (least, at_least)) =
      minimum-Extreme r.start_time_unix_nano (map (λ r. r.start_time_unix_nano) rows) in
    let (k, f, (most, at_most)) =
      maximum-Extreme r.end_time_unix_nano (map (λ r. r.end_time_unix_nano) rows) in
    record {
      earliest = m;
      latest = k;
      first = least;
      starts = at_least;
      last = most;
      ends = at_most;
      duration =
          rw (duration_nanos_of t m k (ap minimum ref.starts ∙ e) (ap maximum ref.ends ∙ f))
            (checked_sub-cases k m);
    }
