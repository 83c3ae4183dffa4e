-- ===== src/Cmd/Add.antt =====
-- cmd/add.go: `dsm add`, which moves a file into the repository and leaves a link in its place.
-- Paths are absolute, so that filepath.Rel has an answer.
pub mod Keeping
pub mod Moving
pub mod Others
pub mod Rollback
use dot_sync_manager.Base.{
  List, [], ◌∷◌, Option, none, some, Bool, true, false, not, ◌&&◌, ◌||◌, if◌then◌else◌, Text, codes,
  has_prefix, is_empty, drop, length,
}
use dot_sync_manager.Base.Paths.{slash, clean, join_path, split_slash, join_slash}
use dot_sync_manager.Base.Result.{ok, err}
use dot_sync_manager.Files.{FileSystem, Fault, read_file, create_exclusive, remove, copy_file}
use dot_sync_manager.Ignore.{rel_path}
use dot_sync_manager.Symlink.{LinkError, create_link}
use dot_sync_manager.Symlink.Backup.{BackupWorld, BackupError, backup_existing, restore_from_backup}
use dot_sync_manager.Symlink.Mappings.{Mapped, MappingError, add_mapping}

pub data AddError : Type 0 where
  backup_failed : BackupError → AddError
  dir_failed read_failed create_failed remove_failed : AddError
  link_failed : LinkError → AddError
  mapping_failed : MappingError → AddError

-- What the calls of the system do.
pub record AddWorld : Type 0 where
  pub backs_up : BackupWorld
  pub makes_dir : Bool
  pub reads : Bool
  pub creates : Bool
  pub removes_original : Bool
  pub links : Bool
  pub restores : BackupWorld
  pub removes_copy : Bool
  pub saves : Bool
  pub removes_link : Bool
  pub opens_backup : Bool
  pub copies_backup : Fault
  pub removes_backup : Bool
  pub opens_copy : Bool
  pub copies_copy : Fault

-- What executeAddTransaction returns, with the file system after it.
pub record Added : Type 0 where
  pub error : Option AddError
  pub backup_created : Bool
  pub backup_path : Text
  pub files : FileSystem

abbrev stopped : AddError → Text → FileSystem → Added
stopped e backup fs = record {
  error = some e;
  backup_created = true;
  backup_path = backup;
  files = fs;
}

-- The link, and what becomes of the files when it cannot be made.
unfoldable pub link_or_restore : AddWorld → Text → Text → Text → Text → FileSystem → Added
unfolding rel_path create_link restore_from_backup remove
link_or_restore w repo path target backup fs =
    let (failed, linked) = create_link w.links repo (rel_path repo target) path fs in
    let (unrestored, restored) = restore_from_backup w.restores backup path linked in
    elim failed [
      | none ↦ record { error = none; backup_created = true; backup_path = backup; files = linked }
      | some e ↦ record {
        error = some (link_failed e);
        backup_created = elim unrestored [ none ↦ false | some _ ↦ true ];
        backup_path = backup;
        files = (remove w.removes_copy target restored).1;
      }
    ]

-- The copy into the repository and the removal of the original, from the backup on.
unfoldable pub move_file : AddWorld → Text → Text → Text → Text → FileSystem → Added
unfolding read_file create_exclusive remove link_or_restore
move_file w repo path target backup fs =
    if not w.makes_dir
    then stopped dir_failed backup fs
    else elim (if w.reads then read_file path fs else none) [
      | none ↦ stopped read_failed backup fs
      | some (content, _) ↦
          let (created, copied) = create_exclusive w.creates target content 0o644 fs in
          let (removed, moved) = remove w.removes_original path copied in
          if not created
          then stopped create_failed backup fs
          else if not removed
          then stopped remove_failed backup (remove w.removes_copy target copied).1
          else link_or_restore w repo path target backup moved
    ]

-- executeAddTransaction
unfoldable pub execute_add_transaction : AddWorld → Text → Text → Text → Text → FileSystem → Added
unfolding backup_existing move_file
execute_add_transaction w repo backup_dir path target fs =
    let (saved, fs') = backup_existing w.backs_up backup_dir path fs in
    elim saved [
      | err e ↦ record {
        error = some (backup_failed e);
        backup_created = false;
        backup_path = [];
        files = fs';
      }
      | ok backup ↦ move_file w repo path target backup fs'
    ]

-- rollbackAfterConfigFailure: whether the original was restored, and whether a backup is left.
unfoldable pub rollback_after_config_failure :
    AddWorld → Text → Text → Text → Bool → FileSystem → Bool × Bool × FileSystem
unfolding remove copy_file
rollback_after_config_failure w path target backup created fs =
    let unlinked = (remove w.removes_link path fs).1 in
    let (from_backup, fs₁) =
      if created
      then copy_file w.opens_backup w.copies_backup backup path unlinked
      else (false, unlinked) in
    let (gone, fs₂) = if from_backup then remove w.removes_backup backup fs₁ else (false, fs₁) in
    let (from_copy, fs₃) =
      if from_backup then (false, fs₂) else copy_file w.opens_copy w.copies_copy target path fs₂ in
    let restored = from_backup || from_copy in
    (restored, created && not gone, if restored then (remove w.removes_copy target fs₃).1 else fs₃)

-- updateAndSaveConfig
unfoldable pub update_and_save_config :
    AddWorld
    → Text
    → Text
    → Text
    → Text
    → Bool
    → Mapped
    → FileSystem
    → Option MappingError × Mapped × FileSystem
unfolding add_mapping rel_path rollback_after_config_failure
update_and_save_config w repo path target backup created m fs =
    let (failed, m') = add_mapping w.saves repo (rel_path repo target) path m in
    elim failed [
      | none ↦ (none, m', fs)
      | some e ↦ (some e, m', (rollback_after_config_failure w path target backup created fs).2)
    ]

-- runAdd, from the transaction on.
unfoldable pub run_add :
    AddWorld
    → Text
    → Text
    → Text
    → Text
    → Mapped
    → FileSystem
    → Option AddError × Mapped × FileSystem
unfolding execute_add_transaction update_and_save_config
run_add w repo backup_dir path target m fs =
    let added = execute_add_transaction w repo backup_dir path target fs in
    let (failed, m', fs') =
      update_and_save_config w repo path target added.backup_path added.backup_created m
        added.files in
    elim added.error [
      | some e ↦ (some e, m, added.files)
      | none ↦ elim failed [ none ↦ (none, m', fs') | some e ↦ (some (mapping_failed e), m', fs') ]
    ]

-- strings.TrimPrefix
unfoldable pub trim_prefix : Text → Text → Text
unfolding has_prefix
trim_prefix s p = if has_prefix s p then drop (length p) s else s

-- The first part of a path below the home directory loses its dot.
unfoldable pub undot : List Text → List Text
unfolding trim_prefix
undot [] = []
undot (part ∷ parts) = trim_prefix part (codes ".") ∷ parts

-- filepath.Join of the parts of a path
unfoldable pub join_parts : List Text → Text
unfolding join_slash clean
join_parts parts = let body = join_slash parts in if is_empty body then [] else clean body

-- getTargetPath, on Unix
unfoldable pub get_target_path : Option Text → Text → Text → Option Text
unfolding has_prefix trim_prefix clean undot split_slash join_parts join_path
get_target_path home repo source = elim home [
  | none ↦ none
  | some home_dir ↦ some (
      if has_prefix source home_dir
      then join_path repo (
          join_parts
            (undot (split_slash (clean (trim_prefix (trim_prefix source home_dir) (slash ∷ []))))))
      else join_path repo (clean (trim_prefix source (slash ∷ []))))
]
