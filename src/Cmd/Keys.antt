-- ===== src/Cmd/Keys.antt =====
-- cmd/config.go: the values that `dsm config get` and `dsm config set` find and change in the map that the
-- configuration is turned into.
pub mod Others
pub mod Setting
use dot_sync_manager.Base.{
  ℕ, ◌==◌, List, [], ◌∷◌, Option, none, some, Bool, true, false, ◌&&◌, if◌then◌else◌, Text, codes,
  eq_text, is_empty,
}

-- A value that encoding/json decodes; a number, a Boolean or an array is a leaf with its text.
mutual
  pub data Json : Type 0 where
    null : Json
    string : Text → Json
    leaf : Text → Json
    object : Fields → Json

  pub data Fields : Type 0 where
    no_fields : Fields
    field : Text → Json → Fields → Fields

unfoldable pub get_field : Text → Fields → Option Json
unfolding eq_text
get_field k no_fields = none
get_field k (field j v fs) = if eq_text j k then some v else get_field k fs

unfoldable pub set_field : Text → Json → Fields → Fields
unfolding eq_text
set_field k v no_fields = field k v no_fields
set_field k v (field j w fs) =
    let rest = set_field k v fs in if eq_text j k then field k v fs else field j w rest

-- Put a byte in front of the first part.
unfoldable pub cons_first : ℕ → List Text → List Text
cons_first b [] = (b ∷ []) ∷ []
cons_first b (part ∷ parts) = (b ∷ part) ∷ parts

-- strings.Split(key, ".")
unfoldable pub split_dot : Text → List Text
unfolding cons_first
split_dot [] = [] ∷ []
split_dot (b ∷ key) = let rest = split_dot key in if b == b'.' then [] ∷ rest else cons_first b rest

unfoldable pub is_machine_name : List Text → Bool
unfolding eq_text
is_machine_name (section ∷ name ∷ []) =
    eq_text section (codes "machine") && eq_text name (codes "name")
is_machine_name [] = false
is_machine_name (_ ∷ []) = false
is_machine_name (_ ∷ _ ∷ _ ∷ _) = false

abbrev pub is_string : Option Json → Bool
is_string (some (string _)) = true
is_string (some null) = false
is_string (some (leaf _)) = false
is_string (some (object _)) = false
is_string none = false

-- A value that is not nil.
unfoldable pub solid : Option Json → Option Json
solid none = none
solid (some null) = none
solid (some (string s)) = some (string s)
solid (some (leaf s)) = some (leaf s)
solid (some (object fs)) = some (object fs)

-- The loop of getNestedValue; `none` is nil.
unfoldable pub get_parts : List Text → Json → Option Json
unfolding get_field solid
get_parts [] j = some j
get_parts (part ∷ parts) null = none
get_parts (part ∷ parts) (string s) = none
get_parts (part ∷ parts) (leaf s) = none
get_parts (part ∷ parts) (object fs) =
    elim (if is_empty part then none else solid (get_field part fs)) [
      | none ↦ none
      | some next ↦ get_parts parts next
    ]

-- getNestedValue of a map: getMachineName finds a name in a SyncConfig only.
unfoldable pub get_nested_value : Json → Text → Option Json
unfolding split_dot is_machine_name get_parts
get_nested_value j key =
    if is_empty key
    then none
    else if is_machine_name (split_dot key)
    then some (string [])
    else get_parts (split_dot key) j

-- setNestedValueRecursive: the value with the map changed, unless it answers false.
unfoldable pub set_nested_value : List Text → Json → Json → Option Json
unfolding is_machine_name get_field set_field
set_nested_value [] v j = none
set_nested_value (part ∷ parts) v null = none
set_nested_value (part ∷ parts) v (string s) = none
set_nested_value (part ∷ parts) v (leaf s) = none
set_nested_value (part ∷ []) v (object fs) = some (object (set_field part v fs))
set_nested_value (part ∷ next ∷ parts) v (object fs) =
    let inner : Json = elim (get_field part fs) [ none ↦ object no_fields | some j ↦ j ] in
    let rest = set_nested_value (next ∷ parts) v inner in
    if is_machine_name (part ∷ next ∷ parts) && is_string (get_field part fs) && is_string (some v)
    then some (object (set_field part v fs))
    else elim rest [ none ↦ none | some j ↦ some (object (set_field part j fs)) ]
