-- ===== src/Tests/Adding.antt =====
-- cmd/add.go on one file of a home directory.
use dot_sync_manager.Base.{
  ℕ, zero, suc, [], ◌∷◌, none, some, Bool, true, false, ◌&&◌, ◌≡◌, refl, Text, codes, eq_text,
  is_some,
}
use dot_sync_manager.Base.Dict.{lookup, insert}
use dot_sync_manager.Base.Paths.{is_abs, join_path}
use dot_sync_manager.Files.{file, dir, link, FileSystem, fine, refused, link_path}
use dot_sync_manager.Ignore.{rel_path}
use dot_sync_manager.Symlink.{mapping_state, valid}
use dot_sync_manager.Symlink.Backup.{BackupWorld}
use dot_sync_manager.Symlink.Mappings.{Mapped}
use dot_sync_manager.Cmd.Add.{
  AddWorld, execute_add_transaction, rollback_after_config_failure, run_add,
}
use dot_sync_manager.Cmd.Add.Moving.{run_add_places}
use dot_sync_manager.Cmd.Add.Rollback.{rollback_restores, rollback_loses}

unfoldable all_below : ℕ → (ℕ → Bool) → Bool
all_below zero p = true
all_below (suc n) p = p n && all_below n p

abbrev smooth_backup : BackupWorld
smooth_backup = record {
  stamp = codes "20240102_030405.000006";
  makes_dir = true;
  claims = true;
  opens = true;
  copies = fine;
  removes = true;
}

abbrev smooth_add : AddWorld
smooth_add = record {
  backs_up = smooth_backup;
  makes_dir = true;
  reads = true;
  creates = true;
  removes_original = true;
  links = true;
  restores = smooth_backup;
  removes_copy = true;
  saves = true;
  removes_link = true;
  opens_backup = true;
  copies_backup = fine;
  removes_backup = true;
  opens_copy = true;
  copies_copy = fine;
}

-- Nothing works from the link on.
abbrev unlinked_add : AddWorld
unlinked_add = record smooth_add {
  links = false;
  restores = record smooth_backup { copies = refused };
}

abbrev stuck_add : AddWorld
stuck_add = record smooth_add { saves = false; removes_link = false }

abbrev vimrc : Text
vimrc = codes "/h/.vimrc"

abbrev kept : Text
kept = codes "/r/vimrc"

abbrev backups : Text
backups = codes "/b"

abbrev home_files : FileSystem
home_files =
    (codes "/h", dir 0o755) ∷ (codes "/r", dir 0o755) ∷ (vimrc, file (codes "set") 0o755) ∷ []

abbrev unmapped : Mapped
unmapped = record { mappings = []; saved = [] }

run_add_places_example :
    let source = rel_path (codes "/r") kept in
    let (_, m', fs') = run_add smooth_add (codes "/r") backups vimrc kept unmapped home_files in
    (lookup kept fs' ≡ some (file (codes "set") 0o644))
    × (lookup vimrc fs' ≡ some (link (join_path (codes "/r") source)))
    × (mapping_state (codes "/r") source vimrc fs' ≡ valid)
    × (lookup source m'.mappings ≡ some vimrc)
    × (m'.saved ≡ m'.mappings)
unfolding run_add execute_add_transaction lookup insert eq_text is_abs
run_add_places_example =
    run_add_places smooth_add (codes "/r") backups vimrc kept (codes "set") 0o755 unmapped
      home_files refl refl refl

abbrev linked_files : FileSystem
linked_files =
    (codes "/b/old", file (codes "set") 0o644)
    ∷ (kept, file (codes "set") 0o644)
    ∷ (vimrc, link kept)
    ∷ []

rollback_restores_example :
    let (restored, _, fs') =
      rollback_after_config_failure smooth_add vimrc kept (codes "/b/old") true linked_files in
    (restored ≡ true)
    × (lookup vimrc fs' ≡ some (file (codes "set") 0o644))
    × ((smooth_add.removes_copy && is_some (lookup kept fs')) ≡ false)
unfolding lookup eq_text
rollback_restores_example =
    rollback_restores smooth_add vimrc kept (codes "/b/old") (codes "set") 0o644 linked_files refl
      refl refl refl refl refl

rollback_loses_example :
    let (restored, retained, fs') =
      rollback_after_config_failure stuck_add vimrc kept (codes "/b/old") true linked_files in
    (restored ≡ true)
    × (retained ≡ false)
    × (lookup vimrc fs' ≡ some (link kept))
    × (lookup kept fs' ≡ none)
    × (lookup (codes "/b/old") fs' ≡ none)
unfolding lookup eq_text link_path
rollback_loses_example =
    rollback_loses stuck_add vimrc kept (codes "/b/old") (codes "set") (codes "set") 0o644 0o644
      linked_files refl refl refl refl refl refl refl refl refl refl
