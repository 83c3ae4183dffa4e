-- ===== src/Tests/Linking.antt =====
-- internal/symlink on a few links, mappings and backups.
use dot_sync_manager.Base.{
  List, [], ◌∷◌, none, true, false, ◌≡◌, ◌↔◌, refl, Text, codes, eq_text, has_prefix, contains_byte,
}
use dot_sync_manager.Base.Dict.{lookup, insert, erase}
use dot_sync_manager.Base.Paths.{is_abs, clean, join_path, dir_name}
use dot_sync_manager.Files.{file, dir, link, FileSystem, fine, stat, lstat, make_link}
use dot_sync_manager.Ignore.{rel_path}
use dot_sync_manager.Symlink.{create_link, link_outcome}
use dot_sync_manager.Symlink.Mappings.{Mapped, validate_mapping}
use dot_sync_manager.Symlink.Mappings.Sound.{
  IsSound, MappingCall, add, update, run_calls, run_calls-IsSound,
}
use dot_sync_manager.Symlink.Backup.{BackupWorld, backup_name, underscore}
use dot_sync_manager.Symlink.Backup.Listing.{original_path}
use dot_sync_manager.Symlink.Backup.Naming.{IsStamp, original_path_iff}

abbrev tracked : FileSystem
tracked =
    (codes "/h", dir 0o755)
    ∷ (codes "/r", dir 0o755)
    ∷ (codes "/r/vimrc", file (codes "set") 0o600)
    ∷ []

abbrev linked : FileSystem
linked =
    (codes "/h", dir 0o755)
    ∷ (codes "/r", dir 0o755)
    ∷ (codes "/r/vimrc", file (codes "set") 0o600)
    ∷ (codes "/h/.vimrc", link (codes "/r/vimrc"))
    ∷ []

creates : create_link true (codes "/r") (codes "vimrc") (codes "/h/.vimrc") tracked ≡ (none, linked)
unfolding create_link link_outcome stat lstat make_link join_path dir_name lookup insert eq_text
creates = refl

abbrev no_mappings : Mapped
no_mappings = record { mappings = []; saved = [] }

empty-IsSound : IsSound (codes "/r") []
unfolding lookup
empty-IsSound = record {
  each = λ r t found. absurd (cc);
  once = λ r r' t found found'. absurd (cc);
}

abbrev calls : List MappingCall
calls =
    add true (codes "vimrc") (codes "/h/.vimrc")
    ∷ add true (codes "other") (codes "/h/.vimrc")
    ∷ add false (codes "zshrc") (codes "/h/.zshrc")
    ∷ update false (codes "vimrc") (codes "/h/.exrc")
    ∷ []

run_calls-IsSound_example : IsSound (codes "/r") (run_calls (codes "/r") calls no_mappings).mappings
run_calls-IsSound_example = run_calls-IsSound (codes "/r") calls no_mappings empty-IsSound

-- The second call is refused, the third is taken back, the fourth is not.
runs : (run_calls (codes "/r") calls no_mappings).mappings ≡ (codes "vimrc", codes "/h/.exrc") ∷ []
unfolding run_calls validate_mapping lookup insert erase eq_text is_abs has_prefix clean rel_path
runs = refl

abbrev mapped : Mapped
mapped = record {
  mappings = (codes "vimrc", codes "/h/.vimrc") ∷ [];
  saved = (codes "vimrc", codes "/h/.vimrc") ∷ [];
}

abbrev world : BackupWorld
world = record {
  stamp = codes "20240102_030405.000006";
  makes_dir = true;
  claims = true;
  opens = true;
  copies = fine;
  removes = true;
}

abbrev backup : Text
backup = codes "/b/backup_20240102_030405.000006__h_.vimrc"

abbrev script : FileSystem
script = (codes "/h/.vimrc", file (codes "set") 0o755) ∷ []

abbrev backed_up : FileSystem
backed_up = (codes "/h/.vimrc", file (codes "set") 0o755) ∷ (backup, file (codes "set") 0o644) ∷ []

abbrev stamp-IsStamp : IsStamp world.stamp
stamp-IsStamp = record {
  day = codes "20240102";
  time = codes "030405";
  fraction = codes "000006";
  laid_out = refl;
  day_digits = (refl, refl);
  time_digits = (refl, refl);
  fraction_digits = (refl, refl);
}

original_path_iff_example :
    (original_path (backup_name world.stamp 0 (codes "/h/.vimrc")) ≡ codes "/h/.vimrc")
    ↔ (contains_byte (codes "/h/.vimrc") underscore ≡ false)
unfolding contains_byte
original_path_iff_example = original_path_iff world.stamp (codes "h/.vimrc") 0 stamp-IsStamp refl
