-- ===== src/Startup/Listening.antt =====
-- When `run_server` of src/main.rs says that it listens.
use spanfall.Prelude.{
  ℕ, ◌≡◌, ◌≢◌, ◌⊎◌, inl, inr, refl, ap, ◌∙◌, Bool, Option, List, [], ◌∷◌, ◌++◌, All,
}
use spanfall.Prelude.Text.{Text}
use spanfall.Startup.{
  Bind, bound, addr_in_use, bind_error, listener, bind_or_exit, bind_all, banner, start_server,
}

-- A bind, its port, and what names the port's holder.
abbrev pub Attempt : Type 0
Attempt = Bind × ℕ × Option Text

abbrev pub IsBound : Attempt → Type 0
IsBound a = a.0 ≡ bound

-- How the binding ended: every bind gave a listener, or the first that did not ended it.
abbrev pub EndsAt : List Attempt → Attempt → Type 0
EndsAt attempts a =
    (before : List Attempt) × (after : List Attempt) × (attempts ≡ before ++ a ∷ after)
    × All IsBound before
    × (a.0 ≢ bound)

abbrev pub Starts : List Attempt → Bool → Type 0
Starts attempts seed_demo =
    (All IsBound attempts × (start_server attempts seed_demo ≡ (listener, banner seed_demo)))
    ⊎ ((a : Attempt) × EndsAt attempts a
        × (start_server attempts seed_demo ≡ (bind_or_exit a.0 a.1 a.2, [])))

-- An attempt that fails ends the binding.
fails_here :
    (b : Bind) (port : ℕ) (holder : Option Text) (rest : List Attempt) (seed_demo : Bool)
    → b ≢ bound
    → start_server ((b, port, holder) ∷ rest) seed_demo ≡ (bind_or_exit b port holder, [])
unfolding start_server bind_all bind_or_exit
fails_here bound port holder rest seed_demo h = absurd (h refl)
fails_here addr_in_use port holder rest seed_demo h = refl
fails_here (bind_error e) port holder rest seed_demo h = refl

bound_first :
    (port : ℕ) (holder : Option Text) (rest : List Attempt) (seed_demo : Bool)
    → start_server ((bound, port, holder) ∷ rest) seed_demo ≡ start_server rest seed_demo
unfolding start_server bind_all bind_or_exit
bound_first port holder rest seed_demo = refl

later :
    (port : ℕ) (holder : Option Text) (rest : List Attempt) (seed_demo : Bool)
    → Starts rest seed_demo
    → Starts ((bound, port, holder) ∷ rest) seed_demo
later port holder rest seed_demo (inl (all, ret)) =
    inl ((refl, all), bound_first port holder rest seed_demo ∙ ret)
later port holder rest seed_demo (inr (a, (before, after, whole, all, not_bound), ret)) = inr (
  a,
  (
    (bound, port, holder) ∷ before,
    after,
    ap (λ xs. (bound, port, holder) ∷ xs) whole,
    (refl, all),
    not_bound,
  ),
  bound_first port holder rest seed_demo ∙ ret,
)

-- `run_server` prints its lines, the two on the ports and the one on the demo with `--demo`, if
-- every port is bound. Otherwise nothing is printed, and the process ends as `bind_or_exit` does at
-- the first port that is not bound.
pub start_server-Starts : (attempts : List Attempt) (seed_demo : Bool) → Starts attempts seed_demo
unfolding start_server bind_all
start_server-Starts [] seed_demo = inl (tt, refl)
start_server-Starts ((bound, port, holder) ∷ rest) seed_demo =
    later port holder rest seed_demo (start_server-Starts rest seed_demo)
start_server-Starts ((addr_in_use, port, holder) ∷ rest) seed_demo = inr (
  (addr_in_use, port, holder),
  ([], rest, refl, tt, (λ h. cc)),
  fails_here addr_in_use port holder rest seed_demo (λ h. cc),
)
start_server-Starts ((bind_error e, port, holder) ∷ rest) seed_demo = inr (
  (bind_error e, port, holder),
  ([], rest, refl, tt, (λ h. cc)),
  fails_here (bind_error e) port holder rest seed_demo (λ h. cc),
)
