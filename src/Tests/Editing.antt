-- ===== src/Tests/Editing.antt =====
-- cmd/config.go on a map with one section.
use dot_sync_manager.Base.{[], some, ◌≡◌, refl, codes, eq_text}
use dot_sync_manager.Cmd.Keys.{
  Json, string, object, no_fields, field, get_nested_value, split_dot, is_machine_name,
}

abbrev settings : Json
settings = object (
    field (codes "ui") (object (field (codes "theme") (string (codes "dark")) no_fields)) no_fields)

abbrev light : Json
light = object (
    field (codes "ui") (object (field (codes "theme") (string (codes "light")) no_fields))
      no_fields)

-- The name of the machine is never shown.
machine_name_empty : get_nested_value light (codes "machine.name") ≡ some (string [])
unfolding get_nested_value split_dot is_machine_name eq_text
machine_name_empty = refl
