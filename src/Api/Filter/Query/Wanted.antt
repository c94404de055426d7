-- ===== src/Api/Filter/Query/Wanted.antt =====
-- What a user may ask for by a query, and a text for it, after the grammar of src/api/filter.rs.
use spanfall.Prelude.{
  ℕ, zero, suc, ◌*◌, ◌<◌, ◌^◌, ◌≡◌, ◌≢◌, Bool, true, false, ◌||◌, List, [], ◌∷◌, ◌++◌, list_beq,
  ℕ_eq, All,
}
use spanfall.Prelude.Text.{Text, text}
use spanfall.Prelude.Strings.{to_string}
use spanfall.Types.{pos}
use spanfall.Store.{Store, attribute_key_id}
use spanfall.Api.Filter.{
  Op, eq, ne, gt, gte, lt, lte, Term, service, status, duration, attr, substring,
}
use spanfall.Api.Filter.Query.{is_empty, is_key_start, is_key_char, is_equality}
use spanfall.Api.Filter.Query.Quoted.{escaped, IsClosed}
use spanfall.Api.Filter.Query.Durations.{TimeUnit, suffix, nanos_of}

-- What a user may ask for; 0, 1 and 2 are the status codes.
pub data Wanted : Type 0 where
  by_service : Op → Text → Wanted
  by_status : Op → ℕ → Wanted
  by_duration : Op → ℕ → TimeUnit → Wanted
  by_attr : Text → Op → Text → Wanted
  phrase : Text → Wanted

abbrev pub op_text : Op → Text
op_text eq = text "="
op_text ne = text "!="
op_text gt = text ">"
op_text gte = text ">="
op_text lt = text "<"
op_text lte = text "<="

abbrev pub status_text : ℕ → Text
status_text zero = text "unset"
status_text (suc zero) = text "ok"
status_text (suc (suc code)) = text "error"

abbrev pub quoted : Text → Text
quoted s = b'"' ∷ (escaped s ++ b'"' ∷ [])

abbrev pub keyed : Text → Op → Text → Text
keyed key op value = key ++ (op_text op ++ quoted value)

abbrev pub print : Wanted → Text
print (by_service op name) = keyed (text "service") op name
print (by_status op code) = keyed (text "status") op (status_text code)
print (by_duration op n u) = keyed (text "duration") op (to_string n ++ suffix u)
print (by_attr key op value) = keyed key op value
print (phrase s) = quoted s

-- The terms with a space between two.
abbrev pub print_query : List Wanted → Text
print_query [] = []
print_query (w ∷ []) = print w
print_query (w ∷ v ∷ ws) = print w ++ b' ' ∷ print_query (v ∷ ws)

-- The term that is asked for, the key resolved in the store.
abbrev pub term_of : Store → Wanted → Term
term_of store (by_service op name) = service op name
term_of store (by_status op code) = status op (pos code)
term_of store (by_duration op n u) = duration op (n * nanos_of u)
term_of store (by_attr key op value) = attr op (attribute_key_id store key) value
term_of store (phrase s) = substring s

-- A key as the grammar has it.
abbrev pub IsKey : Text → Type 0
IsKey [] = ⊥
IsKey (c ∷ s) = (is_key_start c ≡ true) × All (λ x. is_key_char x ≡ true) (c ∷ s)

-- After `>` or `<` a value that starts with `=` would be read into the operator.
abbrev pub IsApart : Op → Text → Type 0
IsApart gt (c ∷ s) = c ≢ b'='
IsApart lt (c ∷ s) = c ≢ b'='
IsApart _ s = Unit

abbrev pub is_reserved : Text → Bool
is_reserved key =
    list_beq key (text "service")
    || (list_beq key (text "status") || list_beq key (text "duration"))

abbrev pub IsPrintable : Wanted → Type 0
IsPrintable (by_service op name) = (is_equality op ≡ true) × IsClosed name
IsPrintable (by_status op code) = (is_equality op ≡ true) × (code < 3)
IsPrintable (by_duration op n u) = n * nanos_of u < 2 ^ 64
IsPrintable (by_attr key op value) =
    IsKey key × (is_reserved key ≡ false) × IsApart op value × IsClosed value
IsPrintable (phrase s) = (is_empty s ≡ false) × IsClosed s
