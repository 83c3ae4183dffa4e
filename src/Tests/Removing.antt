-- ===== src/Tests/Removing.antt =====
-- cmd/remove.go on one link.
use dot_sync_manager.Base.{
  ℕ, [], ◌∷◌, none, some, true, false, ◌≡◌, refl, codes, eq_text, has_prefix,
}
use dot_sync_manager.Base.Dict.{lookup}
use dot_sync_manager.Base.Paths.{is_abs}
use dot_sync_manager.Files.{file, link, FileSystem, follow, link_path}
use dot_sync_manager.Cmd.Remove.{reverse_lookup, execute_removal, run_remove}
use dot_sync_manager.Cmd.Remove.Losing.{smooth, execute_removal_empties, run_remove_outside}

abbrev linked : FileSystem
linked =
    (codes "/h/.vimrc", link (codes "/r/vimrc")) ∷ (codes "/r/vimrc", file (codes "set") 0o644) ∷ []

execute_removal_empties_example :
    let r = execute_removal smooth false (codes "/h/.vimrc") (codes "/r/vimrc") linked in
    (r.0 ≡ none)
    × (lookup (codes "/h/.vimrc") r.1 ≡ none)
    × ((m : ℕ) × (lookup (codes "/r/vimrc") r.1 ≡ some (file [] m)))
unfolding lookup eq_text follow link_path
execute_removal_empties_example =
    execute_removal_empties (codes "/h/.vimrc") (codes "/r/vimrc") (codes "/r/vimrc") (codes "set")
      0o644 linked refl refl refl

-- The link leads to a directory next to the repository.
abbrev outside : FileSystem
outside =
    (codes "/h/.vimrc", link (codes "/r-old/vimrc"))
    ∷ (codes "/r-old/vimrc", file (codes "set") 0o644)
    ∷ []

run_remove_outside_example :
    lookup
      (codes "/r-old/vimrc")
      (run_remove some smooth true (codes "/r") (codes "/h/.vimrc") [] outside).1
    ≡ none
unfolding lookup eq_text is_abs has_prefix reverse_lookup
run_remove_outside_example =
    run_remove_outside some smooth (codes "/r") (codes "/h/.vimrc") (codes "/r")
      (codes "-old/vimrc") [] outside refl refl refl refl refl refl refl
