-- ===== src/Prelude/MapLaws.antt =====
-- Laws of `Map` for invariants: properties of all values, distinct keys, the number of entries.
use spanfall.Prelude.{
  ◌+◌, ◌≡◌, refl, true, false, Option, none, some, [], ◌∷◌, length, arith, Bool-cases, inl, inr,
  ◌⊎◌, Eq, eq_refl,
}
use spanfall.Prelude.Map.{Map, get, insert, remove, get-insert, get-remove}

module _ {ℓ κ ρ} {K : Type ℓ} {V : Type κ} (P : V → Type ρ) where
  -- `P` of every value.
  abbrev pub AllValues : Map K V → Type ρ
  AllValues [] = Unit
  AllValues ((k, v) ∷ m) = P v × AllValues m

module _ {ℓ κ ρ} {K : Type ℓ} {V : Type κ} ⦃e : Eq K⦄ (P : V → Type ρ) where
  pub AllValues-get : (m : Map K V) (k : K) {v : V} → AllValues P m → get m k ≡ some v → P v
  AllValues-get [] k h p = absurd (ground arith)
  AllValues-get ((j, w) ∷ m) k {v} h p = elim (Bool-cases (e.beq j k)) [
    | inl eq ↦ let same : w ≡ v = ground arith in rw (← same) h.0
    | inr ne ↦ AllValues-get m k h.1 (rw ne at p)
  ]

  pub AllValues-insert :
      (m : Map K V) (k : K) (v : V) → AllValues P m → P v → AllValues P (insert m k v)
  unfolding insert
  AllValues-insert [] k v h p = (p, h)
  AllValues-insert ((j, w) ∷ m) k v h p = elim (Bool-cases (e.beq j k)) [
    | inl eq ↦ rw eq (p, h.1)
    | inr ne ↦ rw ne (h.0, AllValues-insert m k v h.1 p)
  ]

  pub AllValues-remove : (m : Map K V) (k : K) → AllValues P m → AllValues P (remove m k)
  unfolding remove
  AllValues-remove [] k h = h
  AllValues-remove ((j, w) ∷ m) k h = elim (Bool-cases (e.beq j k)) [
    | inl eq ↦ rw eq (AllValues-remove m k h.1)
    | inr ne ↦ rw ne (h.0, AllValues-remove m k h.1)
  ]

module _ {ℓ κ} {K : Type ℓ} {V : Type κ} ⦃e : Eq K⦄ where
  -- No key stands twice.
  abbrev pub Distinct : Map K V → Type κ
  Distinct [] = Unit
  Distinct ((k, v) ∷ m) = (get m k ≡ none) × Distinct m

  pub Distinct-insert : (m : Map K V) (k : K) (v : V) → Distinct m → Distinct (insert m k v)
  unfolding insert
  Distinct-insert [] k v d = (refl, tt)
  Distinct-insert ((j, w) ∷ m) k v d = elim (Bool-cases (e.beq j k)) [
    | inl eq ↦ rw eq (ground (arith, e.beq_iff j k, d.0), d.1)
    | inr ne ↦ rw ne (
      ground (arith, get-insert m k j v, e.beq_iff j k, e.beq_iff k j, d.0),
      Distinct-insert m k v d.1,
    )
  ]

  pub Distinct-remove : (m : Map K V) (k : K) → Distinct m → Distinct (remove m k)
  unfolding remove
  Distinct-remove [] k d = d
  Distinct-remove ((j, w) ∷ m) k d = elim (Bool-cases (e.beq j k)) [
    | inl eq ↦ rw eq (Distinct-remove m k d.1)
    | inr ne ↦ rw ne (ground (arith, get-remove m k j, d.0), Distinct-remove m k d.1)
  ]

  pub remove_absent : (m : Map K V) (k : K) → get m k ≡ none → remove m k ≡ m
  unfolding remove
  remove_absent [] k h = refl
  remove_absent ((j, w) ∷ m) k h = ground (arith, remove_absent m k)

  pub length-remove :
      (m : Map K V) (k : K) (v : V)
      → Distinct m
      → get m k ≡ some v
      → length (remove m k) + 1 ≡ length m
  unfolding remove
  length-remove [] k v d h = cc
  length-remove ((j, w) ∷ m) k v d h = elim (Bool-cases (e.beq j k)) [
    | inl eq ↦
        let gone : get m k ≡ none = ground (arith, e.beq_iff j k, d.0) in
        ground (arith, remove_absent m k gone)
    | inr ne ↦ ground (arith, length-remove m k v d.1)
  ]

  -- A look-up in a map with a first entry finds that entry, or goes on.
  pub get_cases :
      (k j : K) (v u : V) (m : Map K V)
      → get ((k, v) ∷ m) j ≡ some u
      → ((e.beq k j ≡ true) × (v ≡ u)) ⊎ ((e.beq k j ≡ false) × (get m j ≡ some u))
  get_cases k j v u m h = elim (Bool-cases (e.beq k j)) [
    | inl eq ↦ inl (eq, ground arith)
    | inr ne ↦ inr (ne, ground arith)
  ]

module _ {ℓ κ} {K : Type ℓ} {V : Type κ} ⦃e : Eq K⦄ where
  -- An entry that stands before those of other keys.
  pub get_later :
      (j : K) (w : V) (m : Map K V) (k : K) (v : V)
      → get m j ≡ none
      → get m k ≡ some v
      → get ((j, w) ∷ m) k ≡ some v
  get_later j w m k v d found = elim (Bool-cases (e.beq j k)) [
    | inl eq ↦ absurd (ground (arith, e.beq_iff j k, d))
    | inr ne ↦ rw ne found
  ]

pub none≢some {ℓ} : {A : Type ℓ} {o : Option A} {a : A} → o ≡ none → o ≡ some a → ⊥
none≢some h h' = cc

module _ {ℓ κ ρ} {K : Type ℓ} {V : Type κ} ⦃e : Eq K⦄ (P : V → Type ρ) where
  pub AllValues_of_get :
      (m : Map K V) → Distinct m → ((k : K) (v : V) → get m k ≡ some v → P v) → AllValues P m
  AllValues_of_get [] d h = tt
  AllValues_of_get ((j, w) ∷ m) d h = (
    h j w (let same : e.beq j j ≡ true = eq_refl j in rw same),
    AllValues_of_get m d.1 (λ k v found. h k v (get_later j w m k v d.0 found)),
  )

module _ {ℓ κ ρ σ} {K : Type ℓ} {V : Type κ} (P : V → Type ρ) (Q : V → Type σ) where
  pub AllValues-mono : (m : Map K V) → ((v : V) → P v → Q v) → AllValues P m → AllValues Q m
  AllValues-mono [] f a = tt
  AllValues-mono ((k, v) ∷ m) f a = (f v a.0, AllValues-mono m f a.1)
