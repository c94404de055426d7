-- ===== src/Prelude/Panics.antt =====
-- Code that may panic: Rust's indexing, assignment, slicing and `Vec::splice` on a vector.
use Prim.Native.Nat.{ℕ, zero, suc, ◌+◌, ◌-◌, ◌<◌}
use mathlib.Core.Path.{◌≡◌, refl, ap}
use mathlib.Core.Bool.{◌&&◌}
use mathlib.Core.Option.{Option, none, some}
use mathlib.Core.List.{List, [], ◌∷◌, ◌++◌, append_assoc}
use native.Mathlib.Omega.{arith}
use spanfall.Prelude.Tests.{leb, le→leb, if◌then◌else◌}
use spanfall.Prelude.Lists.{
  length, get_elem?, set, take, drop, length-append, take-append, drop-append,
}

pub data Exec {ℓ} (A : Type ℓ) : Type ℓ where
  ok : A → Exec A
  panic : Exec A

pub of_ok {ℓ} : {A : Type ℓ} {a b : A} → ok a ≡ ok b → a ≡ b
of_ok {a} h = ap (λ r. elim r [ ok x ↦ x | panic ↦ a ]) h

infixl 5 ◌>>=◌
abbrev pub ◌>>=◌ {ℓ κ} : {A : Type ℓ} {B : Type κ} → Exec A → (A → Exec B) → Exec B
ok a >>= f = f a
panic >>= f = panic

abbrev pub or_panic {ℓ} : {A : Type ℓ} → Option A → Exec A
or_panic none = panic
or_panic (some a) = ok a

pub add-sub_left : (n m : ℕ) → n + m - n ≡ m
add-sub_left n m = omega arith

module _ {ℓ} {A : Type ℓ} where
  -- `xs[i]`
  abbrev pub at : List A → ℕ → Exec A
  at xs i = or_panic (get_elem? xs i)

  -- `xs[i] = v`
  abbrev pub assign : List A → ℕ → A → Exec (List A)
  assign [] i v = panic
  assign (x ∷ xs) zero v = ok (v ∷ xs)
  assign (x ∷ xs) (suc i) v = do ys ← assign xs i v; ok (x ∷ ys)

  -- `xs[start..end]`
  unfoldable pub slice : List A → ℕ → ℕ → Exec (List A)
  slice xs start end =
      if leb start end && leb end (length xs)
      then ok (take (end - start) (drop start xs))
      else panic

  -- `xs.splice(start..end, new)`
  unfoldable pub splice : List A → ℕ → ℕ → List A → Exec (List A)
  splice xs start end new =
      if leb start end && leb end (length xs)
      then ok (take start xs ++ (new ++ drop end xs))
      else panic

  pub assign_lem : (xs : List A) (i : ℕ) (v : A) → i < length xs → assign xs i v ≡ ok (set xs i v)
  assign_lem [] i v h = elim h [ ]
  assign_lem (x ∷ xs) zero v h = refl
  assign_lem (x ∷ xs) (suc i) v h = ground (arith, assign_lem xs i v)

  pub at_lem : (xs : List A) (i : ℕ) {v : A} → get_elem? xs i ≡ some v → at xs i ≡ ok v
  at_lem xs i h = rw h

  -- The middle of a vector laid out in three parts.
  pub slice-append :
      (xs ys zs : List A) → slice (xs ++ (ys ++ zs)) (length xs) (length xs + length ys) ≡ ok ys
  unfolding slice
  slice-append xs ys zs = rw (
    le→leb (length xs) (length xs + length ys) (omega arith),
    le→leb (length xs + length ys) (length (xs ++ (ys ++ zs)))
        (omega (arith, length-append xs (ys ++ zs), length-append ys zs)),
    drop-append xs (ys ++ zs),
    add-sub_left (length xs) (length ys),
    take-append ys zs,
  )

  drop-append2 : (xs ys zs : List A) → drop (length xs + length ys) (xs ++ (ys ++ zs)) ≡ zs
  drop-append2 xs ys zs =
      rw (← append_assoc xs ys zs, ← length-append xs ys) (drop-append (xs ++ ys) zs)

  pub splice-append :
      (xs ys zs new : List A)
      → splice (xs ++ (ys ++ zs)) (length xs) (length xs + length ys) new ≡ ok (xs ++ (new ++ zs))
  unfolding splice
  splice-append xs ys zs new = rw (
    le→leb (length xs) (length xs + length ys) (omega arith),
    le→leb (length xs + length ys) (length (xs ++ (ys ++ zs)))
        (omega (arith, length-append xs (ys ++ zs), length-append ys zs)),
    take-append xs (ys ++ zs),
    drop-append2 xs ys zs,
  )
