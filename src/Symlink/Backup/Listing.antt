-- ===== src/Symlink/Backup/Listing.antt =====
-- internal/symlink/backup.go: the cleanup of old backups, and the paths that ListBackups shows.
use dot_sync_manager.Base.{
  ℕ, zero, suc, ◌==◌, List, [], ◌∷◌, Option, none, some, Bool, false, ◌&&◌, if◌then◌else◌, ltb, leb,
  Text, codes, is_empty, has_prefix, contains_byte, drop,
}
use dot_sync_manager.Base.Int.{ℤ, is_negative}
use dot_sync_manager.Base.Paths.{slash, is_abs, join_path}
use dot_sync_manager.Base.Result.{Result, ok, err}
use dot_sync_manager.Files.{FileSystem, remove_all}
use dot_sync_manager.Symlink.Backup.{underscore, replace_byte, BackupError, invalid_retention}

-- The loop of CleanupOldBackups over the names in the directory; `modified` and `removes` are what the
-- system answers for each.
unfoldable pub cleanup_loop :
    (Text → Option ℕ) → (Text → Bool) → ℕ → Text → List Text → FileSystem → ℕ × FileSystem
unfolding join_path remove_all
cleanup_loop modified removes cutoff backup_dir [] fs = (0, fs)
cleanup_loop modified removes cutoff backup_dir (name ∷ names) fs =
    let old : Bool = elim (modified name) [ none ↦ false | some t ↦ ltb t cutoff ] in
    let gone = old && removes name in
    let (deleted, fs') =
      cleanup_loop modified removes cutoff backup_dir names
        (if gone then remove_all (join_path backup_dir name) fs else fs) in
    (if gone then suc deleted else deleted, fs')

-- CleanupOldBackups; `cutoff` is what time.AddDate answers.
unfoldable pub cleanup_old_backups :
    (Text → Option ℕ)
    → (Text → Bool)
    → ℤ
    → ℕ
    → Text
    → List Text
    → FileSystem
    → Result BackupError ℕ × FileSystem
unfolding cleanup_loop
cleanup_old_backups modified removes retention cutoff backup_dir names fs =
    let (deleted, fs') = cleanup_loop modified removes cutoff backup_dir names fs in
    if is_negative retention then (err invalid_retention, fs) else (ok deleted, fs')

abbrev pub is_digit : ℕ → Bool
is_digit b = leb 48 b && leb b 57

unfoldable pub skip_digits : ℕ → Text → Option Text
skip_digits zero s = some s
skip_digits (suc n) [] = none
skip_digits (suc n) (b ∷ s) = let rest = skip_digits n s in if is_digit b then rest else none

unfoldable pub skip_byte : ℕ → Text → Option Text
skip_byte b [] = none
skip_byte b (c ∷ s) = if c == b then some s else none

abbrev pub and_then : Option Text → (Text → Option Text) → Option Text
and_then none f = none
and_then (some s) f = f s

-- `_(.+)$`
unfoldable pub rest_of_name : Text → Option Text
unfolding skip_byte contains_byte
rest_of_name s = elim (skip_byte underscore s) [
  | none ↦ none
  | some rest ↦ if is_empty rest then none else if contains_byte rest 10 then none else some rest
]

-- `(?:\.\d{6})?`
unfoldable pub after_fraction : Text → Option Text
unfolding skip_digits skip_byte
after_fraction s = elim (and_then (skip_byte b'.' s) (skip_digits 6)) [
  | none ↦ some s
  | some r ↦ some r
]

-- The stamp, `\d{8}_\d{6}(?:\.\d{6})?`
unfoldable pub after_stamp : Text → Option Text
unfolding skip_digits skip_byte after_fraction
after_stamp s =
    and_then (and_then (and_then (skip_digits 8 s) (skip_byte underscore)) (skip_digits 6))
      after_fraction

-- `(?:_\d{3})?_(.+)$`
unfoldable pub after_counter : Text → Option Text
unfolding skip_digits skip_byte rest_of_name
after_counter s = elim (and_then (and_then (skip_byte underscore s) (skip_digits 3)) rest_of_name) [
  | some encoded ↦ some encoded
  | none ↦ rest_of_name s
]

-- backupPattern, with the text of its second group.
unfoldable pub encoded_part : Text → Option Text
unfolding after_stamp after_counter has_prefix
encoded_part name =
    if has_prefix name (codes "backup_")
    then and_then (after_stamp (drop 7 name)) after_counter
    else none

-- The original path that ListBackups shows for a name.
unfoldable pub original_path : Text → Text
unfolding encoded_part replace_byte is_abs
original_path name = elim (encoded_part name) [
  | none ↦ []
  | some encoded ↦
      let decoded = replace_byte underscore slash encoded in
      if is_abs decoded then decoded else encoded
]
