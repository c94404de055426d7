-- ===== src/Api/Filter/Matches/Decided.antt =====
-- The tests of src/api/filter.rs on numbers, text and values decide what they are for.
use spanfall.Prelude.{
  ℕ, ◌-◌, ◌≡◌, ◌↔◌, ◌⊎◌, inl, inr, refl, sym, ap, ap₂, subst, Bool, true, false, not, ◌||◌, ◌&&◌,
  Option, none, some, [], ◌∷◌, ◌++◌, arith, ltb, leb, nat_eq, nat_eq_iff, ℕ_eq, list_eq, of_some,
  Bool-cases,
}
use spanfall.Prelude.Text.{Text}
use spanfall.Prelude.Strings.{starts_with, contains}
use spanfall.Types.{ℤ, pos, negsuc}
use spanfall.Trace.{checked_sub}
use spanfall.Api.Filter.{
  Op, eq, ne, gt, gte, lt, lte, Numbers, cmp, int_eq, is_ok_and, duration_matches,
}
use spanfall.Api.Filter.Matches.Meaning.{Compares, Lasted, Occurs}

abbrev pub Decides : Bool → Type 0 → Type 0
Decides b P = (b ≡ true) ↔ P

pub decides-not : (b : Bool) {P : Type 0} → Decides b P → Decides (not b) (¬ P)
decides-not true d = ((λ h. absurd (ground arith)), λ np. absurd (np (d.0 refl)))
decides-not false d = ((λ h p. let e = d.1 p in ground arith), λ np. refl)

pub decides-or : (a b : Bool) {P Q : Type 0} → Decides a P → Decides b Q → Decides (a || b) (P ⊎ Q)
decides-or true b d e = ((λ h. inl (d.0 refl)), λ pq. refl)
decides-or false b d e = (
  (λ h. inr (e.0 h)),
  λ pq. elim pq [ inl p ↦ absurd (let h = d.1 p in ground arith) | inr q ↦ e.1 q ],
)

pub decides-and : (a b : Bool) {P Q : Type 0} → Decides a P → Decides b Q → Decides (a && b) (P × Q)
decides-and true b d e = ((λ h. (d.0 refl, e.0 h)), λ pq. e.1 pq.1)
decides-and false b d e =
    ((λ h. absurd (ground arith)), λ pq. absurd (let h = d.1 pq.0 in ground arith))

-- Another way to say what is decided.
pub decides_as : (b : Bool) {P Q : Type 0} → Decides b P → (P → Q) → (Q → P) → Decides b Q
decides_as b d f g = ((λ h. f (d.0 h)), λ q. d.1 (g q))

pub int_eq_iff : (a b : ℤ) → Decides (int_eq a b) (a ≡ b)
int_eq_iff (pos a) (pos b) = decides_as _ (nat_eq_iff a b) (ap pos) (λ h. cc)
int_eq_iff (pos a) (negsuc b) = ((λ h. absurd (ground arith)), λ h. absurd (cc))
int_eq_iff (negsuc a) (pos b) = ((λ h. absurd (ground arith)), λ h. absurd (cc))
int_eq_iff (negsuc a) (negsuc b) = decides_as _ (nat_eq_iff a b) (ap negsuc) (λ h. cc)

pub cmp-Compares : (op : Op) (a b : ℕ) → Decides (cmp nat_eq ltb leb op a b) (Compares op a b)
unfolding cmp
cmp-Compares eq a b = ground arith
cmp-Compares ne a b = decides-not (nat_eq a b) (nat_eq_iff a b)
cmp-Compares gt a b = ground arith
cmp-Compares gte a b = ground arith
cmp-Compares lt a b = ground arith
cmp-Compares lte a b = ground arith

starts_with_iff : (s p : Text) → Decides (starts_with s p) ((after : Text) × (s ≡ p ++ after))
unfolding starts_with
starts_with_iff s [] = ((λ h. (s, refl)), λ h. refl)
starts_with_iff [] (c ∷ p) = ((λ h. absurd (ground arith)), λ (after, e). absurd (cc))
starts_with_iff (d ∷ s) (c ∷ p) =
    decides_as _ (decides-and (nat_eq d c) (starts_with s p) (nat_eq_iff d c) (starts_with_iff s p))
      (λ (e, rest). (rest.0, ap₂ (λ x xs. x ∷ xs) e rest.1)) (λ (after, h). (cc, (after, cc)))

Starts : Text → Text → Type 0
Starts needle s = (after : Text) × (s ≡ needle ++ after)

nil-Starts : (before after needle : Text) → [] ≡ before ++ (needle ++ after) → Starts needle []
unfolding Starts
nil-Starts [] after needle e = (after, e)
nil-Starts (x ∷ before) after needle e = absurd (cc)

cons-Occurs :
    (c : ℕ) (s before after needle : Text)
    → c ∷ s ≡ before ++ (needle ++ after)
    → Starts needle (c ∷ s) ⊎ Occurs needle s
unfolding Starts
cons-Occurs c s [] after needle e = inl (after, e)
cons-Occurs c s (x ∷ before) after needle e = inr (before, after, cc)

pub contains-Occurs : (s needle : Text) → Decides (contains s needle) (Occurs needle s)
unfolding contains Starts
contains-Occurs [] needle =
    decides_as _ (starts_with_iff [] needle) (λ h. ([], h.0, h.1))
      (λ (before, after, e). nil-Starts before after needle e)
contains-Occurs (c ∷ s) needle =
    decides_as _ (decides-or _ _ (starts_with_iff (c ∷ s) needle) (contains-Occurs s needle))
      (λ h. elim h [
        | inl here ↦ ([], here.0, here.1)
        | inr (before, after, e) ↦ (c ∷ before, after, ap (◌∷◌ c) e)
      ])
      (λ (before, after, e). cons-Occurs c s before after needle e)

pub is_ok_and-decides :
    {A : Type 0} (o : Option A) (test : A → Bool) (P : A → Type 0)
    → ((a : A) → Decides (test a) (P a))
    → Decides (is_ok_and o test) ((a : A) × (o ≡ some a) × P a)
is_ok_and-decides none test P d = ((λ h. absurd (ground arith)), λ (a, e, h). absurd (cc))
is_ok_and-decides (some a) test P d =
    ((λ h. (a, refl, (d a).0 h)), λ (b, e, h). (d a).1 (subst P (sym (of_some e)) h))

pub duration_matches-Lasted :
    (n : Numbers) (op : Op) (want start end : ℕ)
    → Decides (duration_matches n op want start end) (Lasted op want start end)
unfolding duration_matches checked_sub
duration_matches-Lasted n op want start end = elim (Bool-cases (leb start end)) [
  | inl long ↦
      rw (long, duration_matches, checked_sub)
        (decides_as _ (cmp-Compares op (end - start) want) (λ h. (ground arith, h)) (λ h. h.1))
  | inr short ↦
      rw (short, duration_matches, checked_sub)
        ((λ h. absurd (ground arith)), λ h. absurd (ground arith))
]
