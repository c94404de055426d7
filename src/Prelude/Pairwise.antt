-- ===== src/Prelude/Pairwise.antt =====
-- A relation between each element of a list and the later ones. A symmetric one does not depend on
-- the order of the list.
use mathlib.Core.Path.{ap₂, subst}
use mathlib.Core.List.{List, [], ◌∷◌, Permᴰ}
use spanfall.Prelude.{All}

abbrev pub Pairwise {ℓ κ} : {A : Type ℓ} → (A → A → Type κ) → List A → Type κ
Pairwise R [] = Unit
Pairwise R (x ∷ xs) = All (R x) xs × Pairwise R xs

module _ {ℓ κ} {A : Type ℓ} (P : A → Type κ) where
  pub All-Permᴰ : {xs ys : List A} → Permᴰ xs ys → All P xs → All P ys
  All-Permᴰ Permᴰ.nil h = tt
  All-Permᴰ (Permᴰ.cons e p) h = (subst P e h.0, All-Permᴰ p h.1)
  All-Permᴰ (Permᴰ.swap e f) h = (subst P f h.1.0, (subst P e h.0, h.1.1))
  All-Permᴰ (Permᴰ.trans p q) h = All-Permᴰ q (All-Permᴰ p h)

module _ {ℓ κ} {A : Type ℓ} (R : A → A → Type κ) (flip : (x y : A) → R x y → R y x) where
  Pairwise-swap : (x y : A) (l : List A) → Pairwise R (x ∷ y ∷ l) → Pairwise R (y ∷ x ∷ l)
  Pairwise-swap x y l h = ((flip x y h.0.0, h.1.0), (h.0.1, h.1.1))

  pub Pairwise-Permᴰ : {xs ys : List A} → Permᴰ xs ys → Pairwise R xs → Pairwise R ys
  Pairwise-Permᴰ Permᴰ.nil h = tt
  Pairwise-Permᴰ (Permᴰ.cons {a} {l₂} e p) h =
      (subst (λ x. All (R x) l₂) e (All-Permᴰ (R a) p h.0), Pairwise-Permᴰ p h.1)
  Pairwise-Permᴰ (Permᴰ.swap {a} {b} {l} e f) h =
      subst (Pairwise R) (ap₂ (λ x y. x ∷ y ∷ l) f e) (Pairwise-swap a b l h)
  Pairwise-Permᴰ (Permᴰ.trans p q) h = Pairwise-Permᴰ q (Pairwise-Permᴰ p h)
