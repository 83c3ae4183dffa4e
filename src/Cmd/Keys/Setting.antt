-- ===== src/Cmd/Keys/Setting.antt =====
-- What setNestedValueRecursive changes.
use dot_sync_manager.Base.{
  List, [], ◌∷◌, none, some, Bool, true, false, not, ◌&&◌, if◌then◌else◌, Text, eq_text,
  eq_text_iff, eq_text_refl, is_empty, ◌≡◌, ◌≢◌, refl, arith, inl, inr, Option-cases, Bool-cases,
}
use dot_sync_manager.Cmd.Keys.{
  Json, null, string, leaf, object, Fields, no_fields, field, get_field, set_field, is_machine_name,
  is_string, solid, get_parts, set_nested_value,
}

pub get_field-set_field :
    (q k : Text) (v : Json) (fs : Fields)
    → get_field q (set_field k v fs) ≡ (if eq_text k q then some v else get_field q fs)
unfolding get_field set_field
get_field-set_field q k v no_fields = ground arith
get_field-set_field q k v (field j w fs) =
    ground (arith, get_field-set_field q k v fs, eq_text_iff j k, eq_text_iff k q, eq_text_iff j q)

-- No part of a key is empty.
unfoldable pub is_solid : List Text → Bool
is_solid [] = true
is_solid (part ∷ parts) = not (is_empty part) && is_solid parts

solid_object : (v : Json) → v ≢ null → solid (some v) ≡ some v
unfolding solid
solid_object null other = absurd (other refl)
solid_object (string s) other = refl
solid_object (leaf s) other = refl
solid_object (object fs) other = refl

-- A turn of the loop through a part that was just set.
pub get_parts-set_field :
    (part : Text) (parts : List Text) (j : Json) (fs : Fields)
    → is_empty part ≡ false
    → j ≢ null
    → get_parts (part ∷ parts) (object (set_field part j fs)) ≡ get_parts parts j
unfolding get_parts
get_parts-set_field part parts j fs named other =
    rw
      (
        get_field-set_field part part j fs,
        eq_text_refl part,
        solid_object j other,
        named,
        get_parts,
      )
      refl

-- The value inside a map under the first part of a key.
unfoldable pub inner_of : Text → Fields → Json
inner_of part fs = elim (get_field part fs) [ none ↦ object no_fields | some j ↦ j ]

-- The ways in which a value is set.
pub set_cases :
    (part next : Text) (parts : List Text) (v : Json) (fs : Fields) (j' : Json)
    → is_machine_name (part ∷ next ∷ parts) ≡ false
    → set_nested_value (part ∷ next ∷ parts) v (object fs) ≡ some j'
    → (j : Json) × (set_nested_value (next ∷ parts) v (inner_of part fs) ≡ some j)
      × (j' ≡ object (set_field part j fs))
unfolding set_nested_value inner_of
set_cases part next parts v fs j' plain done =
    elim (Option-cases (set_nested_value (next ∷ parts) v (inner_of part fs))) [
      | inl failed ↦ absurd (ground arith)
      | inr (j, e) ↦ (j, e, ground arith)
    ]

-- No tail of a key is machine.name, which setNestedValueRecursive treats apart.
unfoldable pub is_plain : List Text → Bool
unfolding is_machine_name
is_plain [] = true
is_plain (part ∷ parts) = not (is_machine_name (part ∷ parts)) && is_plain parts

-- What is set is a map.
set_object :
    (parts : List Text) (v j j' : Json)
    → set_nested_value parts v j ≡ some j'
    → (fs : Fields) × (j' ≡ object fs)
unfolding set_nested_value inner_of
set_object [] v j j' done = absurd (ground arith)
set_object (part ∷ parts) v null j' done = absurd (ground arith)
set_object (part ∷ parts) v (string s) j' done = absurd (ground arith)
set_object (part ∷ parts) v (leaf s) j' done = absurd (ground arith)
set_object (part ∷ []) v (object fs) j' done = (set_field part v fs, ground arith)
set_object (part ∷ next ∷ parts) v (object fs) j' done =
    elim (Bool-cases (
      is_machine_name (part ∷ next ∷ parts)
      && is_string (get_field part fs)
      && is_string (some v))) [
        | inl direct ↦ (set_field part v fs, ground arith)
        | inr nested ↦ elim (Option-cases (set_nested_value (next ∷ parts) v (inner_of part fs))) [
          | inl failed ↦ absurd (ground arith)
          | inr (j, e) ↦ (set_field part j fs, ground arith)
        ]
      ]

pub set_not_null :
    (parts : List Text) (v j j' : Json) → set_nested_value parts v j ≡ some j' → j' ≢ null
set_not_null parts v j j' done = let (fs, e) = set_object parts v j j' done in ground arith
