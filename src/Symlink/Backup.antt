-- ===== src/Symlink/Backup.antt =====
-- internal/symlink/backup.go: backups of what a link replaces, and their names.
-- A stamp is the text that the clock's time is formatted to.
pub mod Claiming
pub mod Failing
pub mod Keeping
pub mod Listing
pub mod Naming
use dot_sync_manager.Base.{
  ℕ, zero, suc, ◌+◌, ◌/◌, ◌%◌, ◌==◌, [], ◌∷◌, ◌++◌, Option, none, some, Bool, true, false, not,
  ◌||◌, if◌then◌else◌, Text, codes, is_some, has_prefix, length, take, drop,
}
use dot_sync_manager.Base.Dict.{lookup, insert}
use dot_sync_manager.Base.Paths.{slash, is_abs, dir_name, join_path}
use dot_sync_manager.Base.Result.{Result, ok, err}
use dot_sync_manager.Files.{
  Node, file, dir, link, FileSystem, Fault, fine, refused, torn, max_links, follow, stat, lstat,
  copy_file, remove_all,
}

abbrev pub underscore : ℕ
underscore = b'_'

-- strings.ReplaceAll of one byte by another
unfoldable pub replace_byte : ℕ → ℕ → Text → Text
replace_byte a b [] = []
replace_byte a b (c ∷ s) = (if c == a then b else c) ∷ replace_byte a b s

-- %03d
unfoldable pub three_digits : ℕ → Text
three_digits n = (48 + n / 100 % 10) ∷ (48 + n / 10 % 10) ∷ (48 + n % 10) ∷ []

unfoldable pub backup_name : Text → ℕ → Text → Text
unfolding replace_byte three_digits
backup_name stamp attempt target =
    let encoded = replace_byte slash underscore target in
    if attempt == 0
    then codes "backup_" ++ (stamp ++ underscore ∷ encoded)
    else codes "backup_" ++ (stamp ++ underscore ∷ (three_digits attempt ++ underscore ∷ encoded))

abbrev pub max_attempts : ℕ
max_attempts = 100

-- generateUniqueBackupPath from an attempt on, with the attempts that are left. A name that is taken leads
-- to the next one, and `claims` says whether the system makes a file or directory of a free name.
unfoldable pub unique_path :
    ℕ → ℕ → Bool → Text → Text → Text → Node → FileSystem → Option Text × FileSystem
unfolding backup_name join_path lookup insert
unique_path zero attempt claims backup_dir stamp target node fs = (none, fs)
unique_path (suc left) attempt claims backup_dir stamp target node fs =
    let path = join_path backup_dir (backup_name stamp attempt target) in
    elim (lookup path fs) [
      | some _ ↦ unique_path left (suc attempt) claims backup_dir stamp target node fs
      | none ↦ if claims then (some path, insert path node fs) else (none, fs)
    ]

-- The entries below a directory, by what follows its path.
unfoldable pub below : Text → FileSystem → FileSystem
unfolding has_prefix
below p [] = []
below p ((q, node) ∷ fs) =
    let rest = below p fs in
    if has_prefix q (p ++ slash ∷ []) then (drop (length p) q, node) ∷ rest else rest

-- What copyDir makes of an entry: a relative link becomes absolute.
unfoldable pub copied_node : Text → Node → Node
unfolding is_abs dir_name join_path
copied_node path (file content mode) = file content mode
copied_node path (dir mode) = dir mode
copied_node path (link t) = link (if is_abs t then t else join_path (dir_name path) t)

unfoldable pub place : Text → Text → FileSystem → FileSystem → FileSystem
unfolding copied_node insert
place src dst [] fs = fs
place src dst ((rest, node) ∷ entries) fs =
    place src dst entries (insert (dst ++ rest) (copied_node (src ++ rest) node) fs)

-- copyDir from a directory to one that is there or not.
unfoldable pub copy_dir : Fault → Text → Text → FileSystem → Bool × FileSystem
unfolding stat follow below place insert
copy_dir fault src dst fs = elim (stat src fs) [
  | none ↦ (false, fs)
  | some node ↦ elim node [
    | file _ _ ↦ (false, fs)
    | link _ ↦ (false, fs)
    | dir mode ↦ elim (follow max_links src fs) [
      | none ↦ (false, fs)
      | some from ↦
          let made = if is_some (lookup dst fs) then fs else insert dst (dir mode) fs in
          let entries = below from fs in
          elim fault [
            | fine ↦ (true, place src dst entries made)
            | refused ↦ (false, made)
            | torn n ↦ (false, place src dst (take n entries) made)
          ]
    ]
  ]
]

-- A source that cannot be reached counts as missing.
pub data BackupError : Type 0 where
  source_missing dir_failed no_name copy_failed : BackupError
  backup_missing remove_failed invalid_retention : BackupError

-- What the calls of the system do.
pub record BackupWorld : Type 0 where
  pub stamp : Text
  pub makes_dir : Bool
  pub claims : Bool
  pub opens : Bool
  pub copies : Fault
  pub removes : Bool

-- The copy of a file or of a directory, by what was found at its source.
unfoldable pub copy_node : BackupWorld → Node → Text → Text → FileSystem → Bool × FileSystem
unfolding copy_file copy_dir
copy_node w (file _ _) src dst fs = copy_file w.opens w.copies src dst fs
copy_node w (dir _) src dst fs = copy_dir w.copies src dst fs
copy_node w (link _) src dst fs = (false, fs)

unfoldable pub placeholder : Node → Node
placeholder (file _ _) = file [] 0o644
placeholder (dir _) = dir 0o755
placeholder (link t) = file [] 0o644

-- The second half of BackupExisting, from the claimed name on.
unfoldable pub finish_backup :
    BackupWorld → Node → Text → Option Text × FileSystem → Result BackupError Text × FileSystem
unfolding copy_node remove_all
finish_backup w node target (none, fs) = (err no_name, fs)
finish_backup w node target (some path, fs) =
    let (copied, fs') = copy_node w node target path fs in
    if copied
    then (ok path, fs')
    else (err copy_failed, if w.removes then remove_all path fs' else fs')

-- BackupExisting
unfoldable pub backup_existing :
    BackupWorld → Text → Text → FileSystem → Result BackupError Text × FileSystem
unfolding stat unique_path placeholder finish_backup
backup_existing w backup_dir target fs = elim (stat target fs) [
  | none ↦ (err source_missing, fs)
  | some node ↦
      let claimed =
        unique_path max_attempts 0 w.claims backup_dir w.stamp target (placeholder node) fs in
      if w.makes_dir then finish_backup w node target claimed else (err dir_failed, fs)
]

-- How RestoreFromBackup ends, once its backup was found: whether a target that was there could be removed,
-- whether the directory could be made, what the copy did, and the files before it and before all.
unfoldable pub restore_outcome :
    Bool → Bool → Bool × FileSystem → FileSystem → FileSystem → Option BackupError × FileSystem
restore_outcome cleared_ok makes_dir (copied, fs') cleared fs =
    if not cleared_ok
    then (some remove_failed, fs)
    else if not makes_dir
    then (some dir_failed, cleared)
    else if copied
    then (none, fs')
    else (some copy_failed, fs')

-- The files once a target that is there was removed.
unfoldable pub cleared_files : Text → FileSystem → FileSystem
unfolding lstat remove_all
cleared_files target fs = if is_some (lstat target fs) then remove_all target fs else fs

-- RestoreFromBackup
unfoldable pub restore_from_backup :
    BackupWorld → Text → Text → FileSystem → Option BackupError × FileSystem
unfolding stat lstat cleared_files copy_node restore_outcome
restore_from_backup w backup target fs = elim (stat backup fs) [
  | none ↦ (some backup_missing, fs)
  | some node ↦
      restore_outcome (not (is_some (lstat target fs)) || w.removes) w.makes_dir
        (copy_node w node backup target (cleared_files target fs)) (cleared_files target fs) fs
]
