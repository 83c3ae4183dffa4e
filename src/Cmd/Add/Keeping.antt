-- ===== src/Cmd/Add/Keeping.antt =====
-- The content of a file is never lost by `dsm add`.
use dot_sync_manager.Base.{
  ℕ, [], ◌∷◌, ◌++◌, some, Bool, false, not, ◌&&◌, Text, eq_text, has_prefix, ◌≡◌, refl,
}
use dot_sync_manager.Base.Dict.{lookup}
use dot_sync_manager.Base.Paths.{slash}
use dot_sync_manager.Base.Result.{ok, err}
use dot_sync_manager.Files.{file, FileSystem}
use dot_sync_manager.Symlink.Backup.{BackupError, backup_existing}
use dot_sync_manager.Cmd.Add.{AddWorld, backup_failed, move_file, execute_add_transaction}

-- A path holds a content.
abbrev pub Holds : Text → Text → FileSystem → Type 0
Holds p c fs = (m : ℕ) × (lookup p fs ≡ some (file c m))

-- A backup apart from the file and its place in the repository.
pub record IsApart (path target backup : Text) : Type 0 where
  pub not_file : eq_text path backup ≡ false
  pub not_below : has_prefix backup (path ++ slash ∷ []) ≡ false
  pub not_target : eq_text target backup ≡ false

-- The same as a test, and the backup is no directory above the file.
unfoldable pub is_apart : Text → Text → Text → Bool
unfolding eq_text has_prefix
is_apart path target backup =
    not (eq_text path backup)
    && not (has_prefix backup (path ++ slash ∷ []))
    && not (eq_text target backup)
    && not (has_prefix path (backup ++ slash ∷ []))

-- The two ways on from the backup.
pub execute_add_backed :
    (w : AddWorld) (repo backup_dir path target backup : Text) (fs : FileSystem)
    → (backup_existing w.backs_up backup_dir path fs).0 ≡ ok backup
    → execute_add_transaction w repo backup_dir path target fs
      ≡ move_file w repo path target backup (backup_existing w.backs_up backup_dir path fs).1
unfolding execute_add_transaction
execute_add_backed w repo backup_dir path target backup fs backed =
    rw (backed, execute_add_transaction) refl

pub execute_add_unbacked :
    (w : AddWorld) (repo backup_dir path target : Text) (e : BackupError) (fs : FileSystem)
    → (backup_existing w.backs_up backup_dir path fs).0 ≡ err e
    → let added = execute_add_transaction w repo backup_dir path target fs in
      (added.files ≡ (backup_existing w.backs_up backup_dir path fs).1)
      × (added.error ≡ some (backup_failed e))
unfolding execute_add_transaction
execute_add_unbacked w repo backup_dir path target e fs unbacked =
    rw (unbacked, execute_add_transaction) (refl, refl)
