-- ===== src/Cmd/Remove.antt =====
-- cmd/remove.go: `dsm remove`. `abs` is filepath.Abs, which may have no answer.
pub mod Losing
use dot_sync_manager.Base.{
  ℕ, [], ◌∷◌, Option, none, some, Bool, true, false, not, if◌then◌else◌, Text, eq_text, has_prefix,
}
use dot_sync_manager.Base.Dict.{Dict, lookup, insert, erase}
use dot_sync_manager.Base.Paths.{is_abs, join_path}
use dot_sync_manager.Base.Result.{Result, ok, err, ◌>>=◌}
use dot_sync_manager.Files.{
  file, dir, link, FileSystem, Fault, max_links, follow, read_file, copy_file, link_path, remove,
}
use dot_sync_manager.Ignore.{rel_path}

pub data RemoveError : Type 0 where
  no_absolute_path no_link not_tracked : RemoveError
  restore_failed link_not_removed file_not_removed save_failed : RemoveError

-- What the calls of the system do.
pub record RemoveWorld : Type 0 where
  pub opens : Bool
  pub copies : Fault
  pub chmods : Bool
  pub removes_link : Bool
  pub removes_file : Bool
  pub saves : Bool

abbrev pub or_fail {ℓ} : {A : Type ℓ} → RemoveError → Option A → Result RemoveError A
or_fail e none = err e
or_fail e (some a) = ok a

-- The map from targets to repository paths, asked for one target; a target without an absolute path is
-- skipped.
unfoldable pub reverse_lookup : (Text → Option Text) → Text → Dict Text → Option Text → Option Text
unfolding eq_text
reverse_lookup abs wanted [] found = found
reverse_lookup abs wanted ((source, target) ∷ rest) found =
    reverse_lookup abs wanted rest (elim (abs target) [
      | none ↦ found
      | some t ↦ if eq_text t wanted then some source else found
    ])

unfoldable pub read_link : Text → FileSystem → Option Text
unfolding lookup
read_link p fs = elim (lookup p fs) [
  | none ↦ none
  | some node ↦ elim node [ file _ _ ↦ none | dir _ ↦ none | link t ↦ some t ]
]

-- findTrackedFile: the key of the mapping and the tracked file, if the link is tracked.
unfoldable pub find_tracked_file :
    (Text → Option Text)
    → Dict Text
    → Text
    → Text
    → FileSystem
    → Result RemoveError (Option (Text × Text))
unfolding reverse_lookup read_link join_path rel_path link_path is_abs has_prefix
find_tracked_file abs mappings repo path fs = do
  wanted ← or_fail no_absolute_path (abs path)
  elim (reverse_lookup abs wanted mappings none) [
    | some source ↦ (do
      root ← or_fail no_absolute_path (abs repo)
      ok (some (source, join_path root source)))
    | none ↦ (do
      dest ← or_fail no_link (read_link path fs)
      root ← or_fail no_absolute_path (abs repo)
      let target = if is_abs dest then dest else link_path path dest
      ok (if has_prefix target root then some (rel_path root target, target) else none))
  ]

-- os.Chmod, which follows links
unfoldable pub chmod : Text → ℕ → FileSystem → FileSystem
unfolding follow lookup insert
chmod p mode fs = elim (follow max_links p fs) [
  | none ↦ fs
  | some q ↦ elim (lookup q fs) [
    | none ↦ fs
    | some node ↦ elim node [
      | file c _ ↦ insert q (file c mode) fs
      | dir _ ↦ insert q (dir mode) fs
      | link _ ↦ fs
    ]
  ]
]

-- restoreOriginalFile, for a tracked file that is no directory
unfoldable pub restore_original_file : RemoveWorld → Text → Text → FileSystem → Bool × FileSystem
unfolding read_file copy_file chmod
restore_original_file w tracked path fs = elim (read_file tracked fs) [
  | none ↦ (false, fs)
  | some (_, mode) ↦
      let (copied, fs') = copy_file w.opens w.copies tracked path fs in
      if copied then (true, if w.chmods then chmod path mode fs' else fs') else (false, fs')
]

-- executeRemoval
unfoldable pub execute_removal :
    RemoveWorld → Bool → Text → Text → FileSystem → Option RemoveError × FileSystem
unfolding restore_original_file remove
execute_removal w delete_all path tracked fs =
    let (restored, fs₁) =
      if delete_all then (true, fs) else restore_original_file w tracked path fs in
    let (unlinked, fs₂) = remove w.removes_link path fs₁ in
    if not restored
    then (some restore_failed, fs₁)
    else if not unlinked
    then (some link_not_removed, fs₁)
    else if not delete_all
    then (none, fs₂)
    else if w.removes_file
    then (none, erase tracked fs₂)
    else (some file_not_removed, fs₂)

-- updateConfigAfterRemoval, for mappings that are not nil, and the mappings that are in the file then.
unfoldable pub update_config_after_removal :
    Bool → Text → Dict Text → Option RemoveError × Dict Text
unfolding erase
update_config_after_removal saves key mappings =
    if saves then (none, erase key mappings) else (some save_failed, mappings)

-- runRemove, once the path is known to be a link and the removal was confirmed.
unfoldable pub run_remove :
    (Text → Option Text)
    → RemoveWorld
    → Bool
    → Text
    → Text
    → Dict Text
    → FileSystem
    → Option RemoveError × FileSystem × Dict Text
unfolding find_tracked_file execute_removal update_config_after_removal
run_remove abs w delete_all repo path mappings fs =
    elim (find_tracked_file abs mappings repo path fs) [
      | err e ↦ (some e, fs, mappings)
      | ok found ↦ elim found [
        | none ↦ (some not_tracked, fs, mappings)
        | some (key, tracked) ↦
            let (failed, fs') = execute_removal w delete_all path tracked fs in
            let (unsaved, mappings') = update_config_after_removal w.saves key mappings in
            elim failed [ some e ↦ (some e, fs', mappings) | none ↦ (unsaved, fs', mappings') ]
      ]
    ]
