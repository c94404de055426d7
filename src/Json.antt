-- ===== src/Json.antt =====
-- `serde_json::Value`, with the accessors that src/dump.rs calls. Those of the crate are documented:
-- an index into what is no object, or for a key that it has not, gives `Null`.
use spanfall.Prelude.{ℕ, Bool, Option, none, some, List, [], ◌∷◌, list_beq, ℕ_eq, if◌then◌else◌}
use spanfall.Prelude.Text.{Text}

mutual
  pub data Value : Type 0 where
    null : Value
    boolean : Bool → Value
    -- A number that is a `u64`, and any other by its text.
    unsigned : ℕ → Value
    other_number : Text → Value
    string : Text → Value
    array : Values → Value
    object : Members → Value

  pub data Values : Type 0 where
    no_values : Values
    item : Value → Values → Values

  pub data Members : Type 0 where
    no_members : Members
    member : Text → Value → Members → Members

abbrev pub items : Values → List Value
items no_values = []
items (item v vs) = v ∷ items vs

abbrev pub values : List Value → Values
values [] = no_values
values (v ∷ vs) = item v (values vs)

unfoldable pub get_member : Members → Text → Value
get_member no_members key = null
get_member (member k v ms) key = let rest = get_member ms key in if list_beq k key then v else rest

-- `value[key]`.
unfoldable pub index : Value → Text → Value
index (object ms) key = get_member ms key
index null key = null
index (boolean b) key = null
index (unsigned n) key = null
index (other_number t) key = null
index (string t) key = null
index (array vs) key = null

unfoldable pub as_str : Value → Option Text
as_str (string t) = some t
as_str null = none
as_str (boolean b) = none
as_str (unsigned n) = none
as_str (other_number t) = none
as_str (array vs) = none
as_str (object ms) = none

unfoldable pub as_u64 : Value → Option ℕ
as_u64 (unsigned n) = some n
as_u64 null = none
as_u64 (boolean b) = none
as_u64 (string t) = none
as_u64 (other_number t) = none
as_u64 (array vs) = none
as_u64 (object ms) = none

unfoldable pub as_array : Value → Option (List Value)
as_array (array vs) = some (items vs)
as_array null = none
as_array (boolean b) = none
as_array (unsigned n) = none
as_array (string t) = none
as_array (other_number t) = none
as_array (object ms) = none
