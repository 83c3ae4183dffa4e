-- ===== src/Symlink/Mappings.antt =====
-- internal/symlink/mappings.go: the mappings of the configuration, in memory and as they were saved.
pub mod Sound
use dot_sync_manager.Base.{
  [], ◌∷◌, Option, none, some, Bool, true, false, not, ◌||◌, ◌&&◌, if◌then◌else◌, Text, codes,
  eq_text, is_empty, has_prefix, is_some,
}
use dot_sync_manager.Base.Dict.{Dict, lookup, insert, erase}
use dot_sync_manager.Base.Paths.{is_abs, clean}
use dot_sync_manager.Base.Result.{Result, ok, err, ◌>>=◌, ◌>>◌, reject}
use dot_sync_manager.Ignore.{rel_path}

-- The part of Manager's configuration that changes: the mappings, and what the last save that worked wrote of
-- them. Targets are absolute, so that SaveToFile does not expand them further. A nil map has no
-- entries.
pub record Mapped : Type 0 where
  pub mappings : Dict Text
  pub saved : Dict Text

pub data MappingError : Type 0 where
  not_relative escapes not_absolute inside_repository : MappingError
  already_mapped target_taken not_found save_failed : MappingError

-- checkTargetConflict
unfoldable pub check_target_conflict : Text → Text → Dict Text → Bool
unfolding eq_text
check_target_conflict target exclude [] = false
check_target_conflict target exclude ((repo, t) ∷ rest) =
    let later = check_target_conflict target exclude rest in
    if eq_text repo exclude then later else if eq_text t target then true else later

-- ValidateMapping
unfoldable pub validate_mapping : Text → Text → Text → Result MappingError (Unit {0})
unfolding is_abs clean has_prefix rel_path
validate_mapping root repo_path target = do
  reject (is_empty repo_path || is_abs repo_path) not_relative
  reject (has_prefix (clean repo_path) (codes "..")) escapes
  reject (not (is_abs target)) not_absolute
  reject (is_abs root && not (has_prefix (rel_path root target) (codes ".."))) inside_repository
  ok tt

-- The last lines of each method: SaveToFile, where `saves` says whether it works.
unfoldable pub add_mapping : Bool → Text → Text → Text → Mapped → Option MappingError × Mapped
unfolding validate_mapping check_target_conflict lookup insert erase
add_mapping saves root repo_path target m = elim (validate_mapping root repo_path target) [
  | err e ↦ (some e, m)
  | ok _ ↦
      let added = insert repo_path target m.mappings in
      if is_some (lookup repo_path m.mappings)
      then (some already_mapped, m)
      else if check_target_conflict target [] m.mappings
      then (some target_taken, m)
      else if saves
      then (none, record { mappings = added; saved = added })
      else (some save_failed, record m { mappings = erase repo_path added })
]

unfoldable pub update_mapping : Bool → Text → Text → Text → Mapped → Option MappingError × Mapped
unfolding validate_mapping check_target_conflict lookup insert eq_text
update_mapping saves root repo_path target m = elim (lookup repo_path m.mappings) [
  | none ↦ (some not_found, m)
  | some current ↦
      if eq_text current target then (none, m) else elim (validate_mapping root repo_path target) [
        | err e ↦ (some e, m)
        | ok _ ↦
            let updated = insert repo_path target m.mappings in
            if check_target_conflict target repo_path m.mappings
            then (some target_taken, m)
            else if saves
            then (none, record { mappings = updated; saved = updated })
            else (some save_failed, record m { mappings = updated })
      ]
]

unfoldable pub remove_mapping : Bool → Text → Mapped → Option MappingError × Mapped
unfolding lookup erase
remove_mapping saves repo_path m = elim (lookup repo_path m.mappings) [
  | none ↦ (some not_found, m)
  | some _ ↦
      let rest = erase repo_path m.mappings in
      if saves
      then (none, record { mappings = rest; saved = rest })
      else (some save_failed, record m { mappings = rest })
]
