-- ===== src/Interner/Bounds.antt =====
-- What interning keeps: ids are positions in the table, the table stays within its cap, and no id
-- ever changes its string (src/store/interner.rs).
use spanfall.Prelude.{
  ℕ, zero, suc, ◌+◌, ◌%◌, ◌^◌, ◌≤◌, ◌<◌, ◌≡◌, ◌⊎◌, inl, inr, refl, Option, none, some, List, [],
  ◌∷◌, ◌++◌, leb, length, get_elem?, arith, Bool-cases, Option-cases, ◌↔◌, ℕ_eq, list_eq, list_beq,
  list_beq_iff, length-append, get_elem?-append_left, get_elem?-append_end, leb→le, false, true,
}
use spanfall.Prelude.Map
use spanfall.Prelude.Text.{Text}
use spanfall.Interner.{Interner, new, intern_new, intern, lookup}

-- The map and the vector are inverse to one another. A cap of at most 2^32 keeps the cast to `u32`
-- from wrapping.
pub record IsValid (i : Interner) : Type 0 where
  pub capped : length i.values ≤ i.cap
  pub small : i.cap ≤ 2 ^ 32
  pub sound : (s : Text) (id : ℕ) → Map.get i.map s ≡ some id → get_elem? i.values id ≡ some s
  pub complete : (s : Text) (id : ℕ) → get_elem? i.values id ≡ some s → Map.get i.map s ≡ some id

pub new-IsValid : (cap : ℕ) → cap ≤ 2 ^ 32 → IsValid (new cap)
unfolding new
new-IsValid cap h = record {
  capped = omega arith;
  small = h;
  sound = λ s id e. ground arith;
  complete = λ s id e. ground arith;
}

get_elem?-snoc {ℓ} :
    {A : Type ℓ} (xs : List A) (x : A) (i : ℕ) {v : A}
    → get_elem? (xs ++ x ∷ []) i ≡ some v
    → (get_elem? xs i ≡ some v) ⊎ ((i ≡ length xs) × (v ≡ x))
get_elem?-snoc [] x zero h = inr (refl, ground arith)
get_elem?-snoc [] x (suc i) h = ground arith
get_elem?-snoc (y ∷ xs) x zero h = inl h
get_elem?-snoc (y ∷ xs) x (suc i) h = ground (arith, get_elem?-snoc xs x i h)

-- What a call promises. `r` is the id it returned.
pub record Interns (i : Interner) (s : Text) (i' : Interner) (r : Option ℕ) : Type 0 where
  pub valid : IsValid i'
  pub cap_kept : i'.cap ≡ i.cap
  pub resolves : (id : ℕ) → r ≡ some id → get_elem? i'.values id ≡ some s
  pub keeps : (id : ℕ) (t : Text) → get_elem? i.values id ≡ some t → get_elem? i'.values id ≡ some t

-- The table with `s` appended.
abbrev grown : Interner → Text → Interner
grown i s = record i { values = i.values ++ s ∷ []; map = Map.insert i.map s (length i.values) }

module _ (i : Interner) (s : Text) (v : IsValid i) (missing : Map.get i.map s ≡ none) where
  grown_sound :
      (t : Text) (id : ℕ)
      → Map.get (grown i s).map t ≡ some id
      → get_elem? (grown i s).values id ≡ some t
  grown_sound t id e = elim (Bool-cases (list_beq s t)) [
    | inl p ↦
        let q = (list_beq_iff s t).0 p in
        let at_end = get_elem?-append_end i.values s in
        let here : some (length i.values) ≡ some id =
          rw (Map.get-insert i.map s t (length i.values), p) at e in
        cc
    | inr p ↦
        get_elem?-append_left i.values (s ∷ []) id
          (v.sound t id (rw (Map.get-insert i.map s t (length i.values), p) at e))
  ]

  grown_complete :
      (t : Text) (id : ℕ)
      → get_elem? (grown i s).values id ≡ some t
      → Map.get (grown i s).map t ≡ some id
  grown_complete t id e = elim (get_elem?-snoc i.values s id e) [
    | inl old ↦ elim (Bool-cases (list_beq s t)) [
      | inl p ↦ absurd (ground (arith, v.complete t id old, (list_beq_iff s t).0 p, missing))
      | inr p ↦ rw (Map.get-insert i.map s t (length i.values), p) (v.complete t id old)
    ]
    | inr (here, same) ↦ rw (here, same) (Map.get-insert_self i.map s (length i.values))
  ]

  grown-Interns :
      leb i.cap (length i.values) ≡ false → Interns i s (grown i s) (some (length i.values))
  grown-Interns room = record {
    valid = record {
      capped = ground (arith, length-append i.values (s ∷ []));
      small = v.small;
      sound = grown_sound;
      complete = grown_complete;
    };
    cap_kept = refl;
    resolves = λ id e. cc (get_elem?-append_end i.values s);
    keeps = λ id t e. get_elem?-append_left i.values (s ∷ []) id e;
  }

  -- The cast to `u32` does not wrap where there is room.
  intern_new-room :
      leb i.cap (length i.values) ≡ false → intern_new i s ≡ (grown i s, some (length i.values))
  unfolding intern_new
  intern_new-room room =
      let e : length i.values % 2 ^ 32 ≡ length i.values = ground (arith, v.small) in rw room (rw e)

  intern_new-full :
      leb i.cap (length i.values) ≡ true
      → intern_new i s ≡ (record i { cap_hit_count = (i.cap_hit_count + 1) % 2 ^ 64 }, none)
  unfolding intern_new
  intern_new-full full = rw full

-- Interning into a valid table keeps it valid and within its cap, gives an id, if any, that
-- resolves to the string, and leaves every id handed out before with the string that it had.
pub intern-Interns :
    (i : Interner) (s : Text) → IsValid i → Interns i s (intern i s).0 (intern i s).1
unfolding intern
intern-Interns i s v = elim (Option-cases (Map.get i.map s)) [
  | inr (id, e) ↦
      rw (e, intern)
        (record {
          valid = v;
          cap_kept = refl;
          resolves = λ id' e'. ground (arith, v.sound s id e);
          keeps = λ id t e. e;
        })
  | inl e ↦ elim (Bool-cases (leb i.cap (length i.values))) [
    | inl full ↦
        rw (e, intern, intern_new-full i s v e full)
          (record {
            valid = record {
              capped = v.capped;
              small = v.small;
              sound = v.sound;
              complete = v.complete;
            };
            cap_kept = refl;
            resolves = λ id' e'. ground arith;
            keeps = λ id t e. e;
          })
    | inr room ↦ rw (e, intern, intern_new-room i s v e room) (grown-Interns i s v e room)
  ]
]

-- While a valid table is below its cap no string is refused, and the table is left with one entry
-- more at most.
pub intern-some :
    (i : Interner) (s : Text)
    → IsValid i
    → length i.values < i.cap
    → (id : ℕ) × ((intern i s).1 ≡ some id) × (length (intern i s).0.values ≤ suc (length i.values))
unfolding intern
intern-some i s v room = elim (Option-cases (Map.get i.map s)) [
  | inr (id, e) ↦ (id, rw (e, intern), rw (e, intern) (omega arith))
  | inl e ↦
      let left = intern_new-room i s v e (ground arith) in
      (
        length i.values,
        rw (e, intern, left),
        rw (e, intern, left) (omega (arith, length-append i.values (s ∷ []))),
      )
]

-- A valid table refuses a string exactly when the string is new and the table is full, and then
-- the refusal is counted, modulo 2^64, and nothing else changes.
pub intern-refused_iff :
    (i : Interner) (s : Text)
    → IsValid i
    → ((intern i s).1 ≡ none) ↔ (
        (lookup i s ≡ none)
        × (i.cap ≤ length i.values)
        × ((intern i s).0 ≡ record i { cap_hit_count = (i.cap_hit_count + 1) % 2 ^ 64 }))
unfolding intern lookup
intern-refused_iff i s v = elim (Option-cases (Map.get i.map s)) [
  | inr (id, e) ↦ ground (arith, e)
  | inl e ↦ elim (Bool-cases (leb i.cap (length i.values))) [
    | inl full ↦
        rw (e, intern, intern_new-full i s v e full)
          ((λ h. (refl, leb→le i.cap (length i.values) full, refl)), λ h. refl)
    | inr room ↦
        rw (e, intern, intern_new-room i s v e room)
          ((λ h. absurd (ground arith)), λ h. absurd (let full = h.1 in ground arith))
  ]
]
