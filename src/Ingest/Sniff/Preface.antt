-- ===== src/Ingest/Sniff/Preface.antt =====
-- When `looks_like_h2_preface` of src/ingest/sniff.rs says yes, and when it never answers.
use spanfall.Prelude.{
  ℕ, zero, suc, ◌+◌, ◌<◌, ◌≡◌, ◌≢◌, ◌↔◌, ◌⊎◌, inl, inr, refl, ap, ◌∙◌, subst, Bool, true, false,
  Option, none, some, of_some, length, nat_eq, list_beq_iff, ℕ_eq, arith, Bool-cases, nat_eq_iff,
}
use spanfall.Prelude.Text.{text}
use spanfall.Ingest.Sniff.{Peek, read, failed, silent, check_peek, attempts, looks_like_h2_preface}

-- An attempt that says nothing yet: some bytes, and not four.
abbrev pub IsShort : Peek → Type 0
IsShort failed = ⊥
IsShort silent = ⊥
IsShort (read buf) = (length buf ≢ 0) × (length buf ≢ 4)

-- An attempt among the `count` from `attempt` on gives `p`, and those before it are short.
abbrev pub Sees : Peek → (ℕ → Peek) → ℕ → ℕ → Type 0
Sees p peek attempt count =
    (i : ℕ) × (i < count)
    × (peek (attempt + i) ≡ p)
    × ((j : ℕ) → j < i → IsShort (peek (attempt + j)))

abbrev pub SeesPreface : (ℕ → Peek) → ℕ → ℕ → Type 0
SeesPreface = Sees (read (text "PRI "))

-- The client neither sends nor closes while an attempt waits for it.
abbrev pub Stalls : (ℕ → Peek) → ℕ → ℕ → Type 0
Stalls = Sees silent

preface_now :
    (q : Peek) (again : Option Bool)
    → check_peek q again ≡ some true
    → (q ≡ read (text "PRI ")) ⊎ (IsShort q × (again ≡ some true))
unfolding check_peek
preface_now failed again h = absurd (ground arith)
preface_now silent again h = absurd (ground arith)
preface_now (read buf) again h = elim (Bool-cases (nat_eq (length buf) 4)) [
  | inl four ↦ inl (ap read ((list_beq_iff buf (text "PRI ")).0 (of_some (rw four at h))))
  | inr other ↦ inr (ground (arith, nat_eq_iff (length buf) 4))
]

silent_now :
    (q : Peek) (again : Option Bool)
    → check_peek q again ≡ none
    → (q ≡ silent) ⊎ (IsShort q × (again ≡ none))
unfolding check_peek
silent_now failed again h = absurd (ground arith)
silent_now silent again h = inl refl
silent_now (read buf) again h = inr (ground (arith, nat_eq_iff (length buf) 4))

short_goes_on : (p : Peek) (again : Option Bool) → IsShort p → check_peek p again ≡ again
unfolding check_peek
short_goes_on failed again h = absurd h
short_goes_on silent again h = absurd h
short_goes_on (read buf) again h = ground arith

module _ (peek : ℕ → Peek) (attempt i : ℕ) where
  IsShort-before :
      IsShort (peek attempt)
      → ((j : ℕ) → j < i → IsShort (peek (suc attempt + j)))
      → (j : ℕ) → j < suc i
      → IsShort (peek (attempt + j))
  IsShort-before short later zero lt = rw (let e : attempt + 0 ≡ attempt = omega arith in e) short
  IsShort-before short later (suc j) lt =
      rw (let e : attempt + suc j ≡ suc attempt + j = omega arith in e) (later j (omega arith))

-- A peek `p` on which alone the loop ends with the answer `r`.
module _ (p : Peek) (r : Option Bool) (other : some false ≢ r)
    (ends : (again : Option Bool) → check_peek p again ≡ r)
    (only : (q : Peek) (again : Option Bool)
      → check_peek q again ≡ r
      → (q ≡ p) ⊎ (IsShort q × (again ≡ r))) where
  attempts-Sees :
      (peek : ℕ → Peek) (attempt count : ℕ)
      → attempts peek attempt count ≡ r
      → Sees p peek attempt count
  unfolding attempts
  attempts-Sees peek attempt zero h = absurd (other h)
  attempts-Sees peek attempt (suc count) h =
      elim (only (peek attempt) (attempts peek (suc attempt) count) h) [
        | inl now ↦ (
          0,
          omega arith,
          rw (let e : attempt + 0 ≡ attempt = omega arith in e) now,
          λ j lt. elim lt [ ],
        )
        | inr (short, later) ↦
            let (i, within, there, before) = attempts-Sees peek (suc attempt) count later in
            (
              suc i,
              omega arith,
              rw (let e : attempt + suc i ≡ suc attempt + i = omega arith in e) there,
              IsShort-before peek attempt i short before,
            )
      ]

  Sees-attempts :
      (peek : ℕ → Peek) (attempt count i : ℕ)
      → i < count
      → peek (attempt + i) ≡ p
      → ((j : ℕ) → j < i → IsShort (peek (attempt + j)))
      → attempts peek attempt count ≡ r
  unfolding attempts
  Sees-attempts peek attempt zero i lt there before = elim lt [ ]
  Sees-attempts peek attempt (suc count) zero lt there before =
      rw (ap peek (let e : attempt ≡ attempt + 0 = omega arith in e) ∙ there)
        (ends (attempts peek (suc attempt) count))
  Sees-attempts peek attempt (suc count) (suc i) lt there before =
      short_goes_on (peek attempt) (attempts peek (suc attempt) count) (
        subst (λ k. IsShort (peek k)) (let e : attempt + 0 ≡ attempt = omega arith in e)
          (before 0 (omega arith)))
      ∙ Sees-attempts peek (suc attempt) count i (omega arith)
          (ap peek (let e : suc attempt + i ≡ attempt + suc i = omega arith in e) ∙ there)
          (λ j lt'.
            subst (λ k. IsShort (peek k))
              (let e : attempt + suc j ≡ suc attempt + j = omega arith in e)
              (before (suc j) (omega arith)))

  answers_iff : (peek : ℕ → Peek) → (looks_like_h2_preface peek ≡ r) ↔ Sees p peek 0 5
  unfolding looks_like_h2_preface
  answers_iff peek = (
    attempts-Sees peek 0 5,
    λ (i, within, there, before). Sees-attempts peek 0 5 i within there before,
  )

-- `looks_like_h2_preface` says yes exactly when one of the first five peeks gives the four bytes
-- "PRI ", and each one before it gives some bytes and not four.
pub looks_like_h2_preface_iff :
    (peek : ℕ → Peek) → (looks_like_h2_preface peek ≡ some true) ↔ SeesPreface peek 0 5
unfolding check_peek
looks_like_h2_preface_iff =
    answers_iff (read (text "PRI ")) (some true) (λ h. absurd (ground arith)) (λ again. refl)
      preface_now

-- It never answers exactly when one of the first five peeks is never ready, and each one before it
-- gives some bytes and not four.
pub looks_like_h2_preface-none_iff :
    (peek : ℕ → Peek) → (looks_like_h2_preface peek ≡ none) ↔ Stalls peek 0 5
unfolding check_peek
looks_like_h2_preface-none_iff =
    answers_iff silent none (λ h. absurd (ground arith)) (λ again. refl) silent_now
