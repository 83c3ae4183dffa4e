-- ===== src/Cmd/Add/Others.antt =====
-- The paths that CreateLink and RestoreFromBackup leave alone.
use dot_sync_manager.Base.{
  ℕ, [], ◌∷◌, ◌++◌, none, some, Bool, false, not, ◌||◌, Text, eq_text, eq_text_iff, eq_text_refl,
  has_prefix, is_some, ◌≡◌, ◌∙◌, arith, inl, inr, Option-cases,
}
use dot_sync_manager.Base.Dict.{lookup, lookup-insert}
use dot_sync_manager.Base.Paths.{slash, join_path, dir_name}
use dot_sync_manager.Files.{file, link, FileSystem, copy_file, stat, lstat, make_link}
use dot_sync_manager.Files.Finding.{stat_at}
use dot_sync_manager.Files.Laws.{copy_file_others, lookup-remove_all}
use dot_sync_manager.Symlink.{create_link, link_outcome}
use dot_sync_manager.Symlink.Backup.{
  BackupWorld, restore_outcome, cleared_files, restore_from_backup, copy_node,
}

-- A path holds a content.
abbrev pub Holds : Text → Text → FileSystem → Type 0
Holds p c fs = (m : ℕ) × (lookup p fs ≡ some (file c m))

Holds-same :
    (p c : Text) (fs fs' : FileSystem) → lookup p fs' ≡ lookup p fs → Holds p c fs → Holds p c fs'
Holds-same p c fs fs' e (m, at) = (m, e ∙ at)

link_outcome_others :
    (s p t : Bool) (made : Bool × FileSystem) (q : Text) (fs : FileSystem)
    → lookup q made.1 ≡ lookup q fs
    → lookup q (link_outcome s p t made fs).1 ≡ lookup q fs
unfolding link_outcome
link_outcome_others s p t (made, g) q fs e = ground arith

make_link_others :
    (works : Bool) (dest target q : Text) (fs : FileSystem)
    → eq_text target q ≡ false
    → lookup q (make_link works dest target fs).1 ≡ lookup q fs
unfolding make_link
make_link_others works dest target q fs other =
    ground (arith, lookup-insert q target (link dest) fs)

-- CreateLink changes the path of the link only.
pub create_link_others :
    (works : Bool) (repo source target q : Text) (fs : FileSystem)
    → eq_text target q ≡ false
    → lookup q (create_link works repo source target fs).1 ≡ lookup q fs
unfolding create_link
create_link_others works repo source target q fs other =
    link_outcome_others (is_some (stat (join_path repo source) fs))
      (is_some (stat (dir_name target) fs)) (is_some (lstat target fs))
      (make_link works (join_path repo source) target fs) q fs
      (make_link_others works (join_path repo source) target q fs other)

restore_outcome_others :
    (cleared_ok makes_dir : Bool) (made : Bool × FileSystem) (cleared : FileSystem) (q : Text)
    (fs : FileSystem)
    → lookup q made.1 ≡ lookup q fs
    → lookup q cleared ≡ lookup q fs
    → lookup q (restore_outcome cleared_ok makes_dir made cleared fs).1 ≡ lookup q fs
unfolding restore_outcome
restore_outcome_others cleared_ok makes_dir (copied, fs') cleared q fs e e' = ground arith

cleared_free : (target : Text) (fs : FileSystem) → lookup target (cleared_files target fs) ≡ none
unfolding cleared_files lstat
cleared_free target fs = elim (Option-cases (lookup target fs)) [
  | inl free ↦ ground arith
  | inr (node, e) ↦ ground (arith, lookup-remove_all target target fs, eq_text_refl target)
]

cleared_others :
    (target q : Text) (fs : FileSystem)
    → eq_text target q ≡ false
    → has_prefix q (target ++ slash ∷ []) ≡ false
    → lookup q (cleared_files target fs) ≡ lookup q fs
unfolding cleared_files lstat
cleared_others target q fs other apart =
    ground (arith, lookup-remove_all target q fs, eq_text_iff q target, eq_text_iff target q)

-- RestoreFromBackup of a file changes its target only, and what is below it.
pub restore_others :
    (w : BackupWorld) (backup target q c : Text) (m : ℕ) (fs : FileSystem)
    → lookup backup fs ≡ some (file c m)
    → eq_text target q ≡ false
    → has_prefix q (target ++ slash ∷ []) ≡ false
    → lookup q (restore_from_backup w backup target fs).1 ≡ lookup q fs
unfolding restore_from_backup copy_node
restore_others w backup target q c m fs at other apart =
    let cleared = cleared_files target fs in
    let same = cleared_others target q fs other apart in
    let copied =
      copy_file_others w.opens w.copies backup target q cleared (cleared_free target fs) other in
    rw (restore_from_backup, stat_at backup c m fs at)
      (restore_outcome_others (not (is_some (lstat target fs)) || w.removes) w.makes_dir
        (copy_file w.opens w.copies backup target cleared) cleared q fs (copied ∙ same) same)
