-- ===== src/Interner.antt =====
-- src/store/interner.rs: the capped table of attribute keys and service names.
pub mod Bounds
use spanfall.Prelude.{
  ℕ, Bool, nat_eq, ◌+◌, ◌%◌, ◌^◌, Option, none, some, List, [], ◌∷◌, ◌++◌, leb, if◌then◌else◌,
  length, Exec, at, ℕ_eq, list_eq,
}
use spanfall.Prelude.Map
use spanfall.Prelude.Map.{Map}
use spanfall.Prelude.Text.{Text}

-- A `Box<str>` is its text.
pub record Interner : Type 0 where
  pub map : Map Text ℕ
  pub values : List Text
  pub cap : ℕ
  pub cap_hit_count : ℕ

unfoldable pub new : ℕ → Interner
new cap = record { map = []; values = []; cap = cap; cap_hit_count = 0 }

-- A string that is not in the table: refused and counted (a `u64`) if `values.len() >= cap`.
unfoldable pub intern_new : Interner → Text → Interner × Option ℕ
intern_new i s =
    if leb i.cap (length i.values)
    then (record i { cap_hit_count = (i.cap_hit_count + 1) % 2 ^ 64 }, none)
    else (
      record i { values = i.values ++ s ∷ []; map = Map.insert i.map s (length i.values % 2 ^ 32) },
      some (length i.values % 2 ^ 32),
    )

unfoldable pub intern : Interner → Text → Interner × Option ℕ
intern i s = elim (Map.get i.map s) [ some id ↦ (i, some id) | none ↦ intern_new i s ]

-- An id out of range panics.
unfoldable pub get : Interner → ℕ → Exec Text
get i id = at i.values id

unfoldable pub lookup : Interner → Text → Option ℕ
lookup i s = Map.get i.map s

unfoldable pub len : Interner → ℕ
len i = length i.values

unfoldable pub cap_hit_count : Interner → ℕ
cap_hit_count i = i.cap_hit_count

unfoldable pub is_empty : Interner → Bool
is_empty i = nat_eq (length i.values) 0
