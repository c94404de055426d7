-- ===== src/Trace/Attrs.antt =====
-- Interning a span's attribute keys: the `filter_map` of `Trace::insert` in src/store/trace.rs.
use spanfall.Prelude.{
  ℕ, zero, suc, ◌+◌, ◌≤◌, ◌<◌, ◌≡◌, refl, ◌∙◌, Option, none, some, List, [], ◌∷◌, map, length,
  get_elem?, get_elem?_lt, get_elem?_of_lt, arith, All, ℕ_eq, list_eq,
}
use spanfall.Prelude.Text.{Text}
use spanfall.Types.{AttrValue}
use spanfall.Interner.{Interner, intern}
use spanfall.Interner.Bounds.{IsValid, intern-Interns, intern-some}
use spanfall.Trace.Insert.{intern_attrs, keep_pair}

pub All-mono {ℓ κ ρ} :
    {A : Type ℓ} {P : A → Type κ} {Q : A → Type ρ} (xs : List A)
    → ((a : A) → P a → Q a)
    → All P xs
    → All Q xs
All-mono [] f h = tt
All-mono (x ∷ xs) f h = (f x h.0, All-mono xs f h.1)

pub record InternsAttrs (i : Interner) (kvs : List (Text × AttrValue)) (i' : Interner)
    (out : List (ℕ × AttrValue)) : Type 0 where
  pub valid : IsValid i'
  pub cap_kept : i'.cap ≡ i.cap
  pub keeps : (id : ℕ) (t : Text) → get_elem? i.values id ≡ some t → get_elem? i'.values id ≡ some t
  pub within : All (λ kv. kv.0 < length i'.values) out
  pub short : length out ≤ length kvs

lt_of_keeps :
    (xs ys : List Text) (id : ℕ) {s : Text}
    → ((j : ℕ) (t : Text) → get_elem? xs j ≡ some t → get_elem? ys j ≡ some t)
    → get_elem? xs id ≡ some s
    → id < length ys
lt_of_keeps xs ys id {s} keeps h = get_elem?_lt ys id (keeps id s h)

pub grows :
    (xs ys : List Text)
    → ((j : ℕ) (t : Text) → get_elem? xs j ≡ some t → get_elem? ys j ≡ some t)
    → length xs ≤ length ys
grows [] ys keeps = omega arith
grows (x ∷ xs) [] keeps = absurd (let h = keeps zero x refl in ground arith)
grows (x ∷ xs) (y ∷ ys) keeps = omega (arith, grows xs ys (λ j t h. keeps (suc j) t h))

keep_pair-All {κ} :
    (P : ℕ × AttrValue → Type κ) (r : Option ℕ) (v : AttrValue) (rest : List (ℕ × AttrValue))
    → ((id : ℕ) → r ≡ some id → P (id, v))
    → All P rest
    → All P (keep_pair r v rest)
keep_pair-All P none v rest h a = a
keep_pair-All P (some id) v rest h a = (h id refl, a)

length-keep_pair :
    (r : Option ℕ) (v : AttrValue) (rest : List (ℕ × AttrValue))
    → length (keep_pair r v rest) ≤ suc (length rest)
length-keep_pair none v rest = omega arith
length-keep_pair (some id) v rest = omega arith

-- Every key that is kept is an id of the table afterwards, no earlier id changes, and at most the
-- span's pairs are kept.
pub intern_attrs-InternsAttrs :
    (i : Interner) (kvs : List (Text × AttrValue))
    → IsValid i
    → InternsAttrs i kvs (intern_attrs i kvs).0 (intern_attrs i kvs).1
unfolding intern_attrs
intern_attrs-InternsAttrs i [] v = record {
  valid = v;
  cap_kept = refl;
  keeps = λ id t h. h;
  within = tt;
  short = omega arith;
}
intern_attrs-InternsAttrs i ((k, a) ∷ kvs) v =
    let o = intern-Interns i k v in
    let rest = intern_attrs-InternsAttrs (intern i k).0 kvs o.valid in
    record {
      valid = rest.valid;
      cap_kept = rest.cap_kept ∙ o.cap_kept;
      keeps = λ id t h. rest.keeps id t (o.keeps id t h);
      within =
          keep_pair-All (λ kv. kv.0 < length (intern_attrs (intern i k).0 kvs).0.values)
            (intern i k).1 a (intern_attrs (intern i k).0 kvs).1
            (λ id h. lt_of_keeps (intern i k).0.values _ id rest.keeps (o.resolves id h))
            rest.within;
      short = omega (
        arith,
        length-keep_pair (intern i k).1 a (intern_attrs (intern i k).0 kvs).1,
        rest.short,
      );
    }

-- Each kept pair with the string that its key stands for.
abbrev pub resolved : Interner → List (ℕ × AttrValue) → List (Option Text × AttrValue)
resolved i = map (λ kv. (get_elem? i.values kv.0, kv.1))

abbrev pub all_kept : List (Text × AttrValue) → List (Option Text × AttrValue)
all_kept = map (λ kv. (some kv.0, kv.1))

pub resolved-keeps :
    (i i' : Interner) (out : List (ℕ × AttrValue))
    → ((id : ℕ) (t : Text) → get_elem? i.values id ≡ some t → get_elem? i'.values id ≡ some t)
    → All (λ kv. kv.0 < length i.values) out
    → resolved i' out ≡ resolved i out
resolved-keeps i i' [] keeps h = refl
resolved-keeps i i' ((id, v) ∷ out) keeps h =
    let (t, e) = get_elem?_of_lt i.values id h.0 in
    cc (e, keeps id t e, resolved-keeps i i' out keeps h.1)

-- In a valid table with room for every pair of the span no pair is dropped: in order, each kept id
-- stands for the key that the span gave, beside the span's value.
pub resolved-intern_attrs :
    (i : Interner) (kvs : List (Text × AttrValue))
    → IsValid i
    → length i.values + length kvs ≤ i.cap
    → resolved (intern_attrs i kvs).0 (intern_attrs i kvs).1 ≡ all_kept kvs
unfolding intern_attrs
resolved-intern_attrs i [] v room = refl
resolved-intern_attrs i ((k, a) ∷ kvs) v room =
    let o = intern-Interns i k v in
    let (id, kept, small) = intern-some i k v (omega arith) in
    let more = intern_attrs-InternsAttrs (intern i k).0 kvs o.valid in
    let rest = resolved-intern_attrs (intern i k).0 kvs o.valid (omega (arith, o.cap_kept)) in
    rw (kept, keep_pair) (cc (more.keeps id k (o.resolves id kept), rest))
