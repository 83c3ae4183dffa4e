-- ===== src/Conflict.antt =====
-- internal/conflict/service.go and actions.go: the conflicts that wait for the user, and their resolution.
-- The conflict directory holds one directory for each sync that ran into conflicts; `time` is what its name
-- parses to, if it is a timestamp. A file name is one path element, and every directory can be read.
pub mod Listed
pub mod Newest
pub mod Removing
pub mod Resolving
use dot_sync_manager.Base.{
  ℕ, ◌-◌, ◌==◌, List, [], ◌∷◌, ◌++◌, Option, none, some, Bool, false, not, ◌&&◌, if◌then◌else◌, ltb,
  Text, codes, is_empty, is_some, eq_text, has_suffix, length, take, map,
}
use dot_sync_manager.Base.Dict.{Dict, lookup, insert, erase}
use dot_sync_manager.Base.Paths.{join_path}
use dot_sync_manager.Base.Result.{Result, ok, err, ◌>>=◌}
use dot_sync_manager.Base.Sort.{sort}
use dot_sync_manager.Git.Stash.{local_tombstone}

-- A directory below the conflict directory: its files with their contents, and how many directories.
pub record ConflictDir : Type 0 where
  pub name : Text
  pub time : Option ℕ
  pub files : Dict Text
  pub directories : ℕ

-- ConflictInfo, less the modification times.
pub record ConflictInfo : Type 0 where
  pub file : Text
  pub detected_at : ℕ
  pub has_base : Bool
  pub is_deleted : Bool

abbrev pub remote_suffix : Text
remote_suffix = codes ".remote"

abbrev pub local_suffix : Text
local_suffix = codes ".local"

abbrev pub base_suffix : Text
base_suffix = codes ".base"

-- strings.TrimSuffix(name, ".remote"), where the name has the suffix.
unfoldable pub trim_remote : Text → Text
trim_remote name = take (length name - length remote_suffix) name

unfoldable pub is_tombstone : Option Text → Bool
unfolding eq_text
is_tombstone none = false
is_tombstone (some content) = eq_text content local_tombstone

unfoldable pub conflict_info : ℕ → Dict Text → Text → ConflictInfo
unfolding is_tombstone lookup
conflict_info time files file = record {
  file = file;
  detected_at = time;
  has_base = is_some (lookup (file ++ base_suffix) files);
  is_deleted = is_tombstone (lookup (file ++ local_suffix) files);
}

-- The map of conflicts after one of another directory: the most recent one of a file stays.
unfoldable pub keep_recent : ConflictInfo → Dict ConflictInfo → Dict ConflictInfo
unfolding lookup insert
keep_recent info found = elim (lookup info.file found) [
  | none ↦ insert info.file info found
  | some old ↦ if ltb old.detected_at info.detected_at then insert info.file info found else found
]

-- The loop over the names of a directory's files.
unfoldable pub scan_names : ℕ → Dict Text → Dict Text → Dict ConflictInfo → Dict ConflictInfo
unfolding trim_remote conflict_info keep_recent has_suffix
scan_names time files [] found = found
scan_names time files ((name, _) ∷ rest) found = scan_names time files rest (
    if has_suffix name remote_suffix
    then keep_recent (conflict_info time files (trim_remote name)) found
    else found)

-- The loop over the directories, which skips those whose names are no timestamps.
unfoldable pub scan_dirs : List ConflictDir → Dict ConflictInfo → Dict ConflictInfo
unfolding scan_names
scan_dirs [] found = found
scan_dirs (d ∷ dirs) found =
    scan_dirs dirs (elim d.time [ none ↦ found | some t ↦ scan_names t d.files d.files found ])

unfoldable pub values : Dict ConflictInfo → List ConflictInfo
values [] = []
values ((_, info) ∷ rest) = info ∷ values rest

unfoldable pub get_conflicts : List ConflictDir → List ConflictInfo
unfolding scan_dirs values
get_conflicts dirs = sort (λ info. info.file) (values (scan_dirs dirs []))

unfoldable pub has_conflicts : List ConflictDir → Bool
unfolding get_conflicts
has_conflicts dirs = not (is_empty (get_conflicts dirs))

-- Whether a directory has the remote copy of a file.
unfoldable pub holds : Text → ConflictDir → Bool
unfolding lookup
holds file d = is_some (lookup (file ++ remote_suffix) d.files)

-- The loop of findLatestConflictDir with the directory found so far and its time.
unfoldable pub find_latest :
    Text → List ConflictDir → Option (ConflictDir × ℕ) → Option (ConflictDir × ℕ)
unfolding holds
find_latest file [] best = best
find_latest file (d ∷ dirs) best = find_latest file dirs (elim d.time [
  | none ↦ best
  | some t ↦ if not (holds file d) then best else elim best [
    | none ↦ some (d, t)
    | some (old, u) ↦ if ltb u t then some (d, t) else some (old, u)
  ]
])

pub data ConflictError : Type 0 where
  not_found no_version no_target copy_failed remove_failed : ConflictError

-- findLatestConflictDir
unfoldable pub find_latest_conflict_dir : Text → List ConflictDir → Result ConflictError ConflictDir
unfolding find_latest
find_latest_conflict_dir file dirs = elim (find_latest file dirs none) [
  | none ↦ err not_found
  | some (d, _) ↦ ok d
]

-- removeConflictArtifacts: the files of one conflict, and their directory if nothing is left in it.
unfoldable pub without : Text → ConflictDir → ConflictDir
unfolding erase
without file d = record d {
  files =
      erase (file ++ base_suffix)
        (erase (file ++ remote_suffix) (erase (file ++ local_suffix) d.files));
}

unfoldable pub is_vacant : ConflictDir → Bool
is_vacant d = is_empty d.files && d.directories == 0

unfoldable pub remove_conflict_artifacts : Text → Text → List ConflictDir → List ConflictDir
unfolding eq_text without is_vacant
remove_conflict_artifacts name file [] = []
remove_conflict_artifacts name file (d ∷ dirs) =
    let rest = remove_conflict_artifacts name file dirs in
    let d' = without file d in
    if eq_text d.name name then if is_vacant d' then rest else d' ∷ rest else d ∷ rest

-- The calls of the notifier.
pub data ConflictEvent : Type 0 where
  conflict_detected : List ConflictInfo → ConflictEvent
  conflict_resolved : Text → ConflictEvent
  all_conflicts_resolved : ConflictEvent

-- Service with a notifier, and the files outside of the repository that it writes.
pub record ConflictService : Type 0 where
  pub dirs : List ConflictDir
  pub mappings : Dict Text
  pub home : Option Text
  pub targets : Dict Text
  pub events : List ConflictEvent

unfoldable pub get_target_path : ConflictService → Text → Result ConflictError Text
unfolding lookup join_path
get_target_path s file = elim (lookup file s.mappings) [
  | some target ↦ ok target
  | none ↦ elim s.home [ none ↦ err no_target | some home ↦ ok (join_path home file) ]
]

unfoldable pub check_for_conflicts : ConflictService → ConflictService × List ConflictInfo
unfolding get_conflicts
check_for_conflicts s =
    let found = get_conflicts s.dirs in
    (
      if is_empty found then s else record s { events = s.events ++ conflict_detected found ∷ [] },
      found,
    )

-- The last lines of the methods that resolve.
unfoldable pub announce_all : ConflictService → ConflictService
unfolding has_conflicts
announce_all s =
    if has_conflicts s.dirs
    then s
    else record s { events = s.events ++ all_conflicts_resolved ∷ [] }

unfoldable pub resolved : Text → Text → ConflictService → ConflictService
unfolding remove_conflict_artifacts
resolved name file s = record s {
  dirs = remove_conflict_artifacts name file s.dirs;
  events = s.events ++ conflict_resolved file ∷ [];
}

-- UseLocal and UseRemote, by the suffix of the version. `copy_ok` and `remove_ok` say whether the calls of
-- the system succeed; a failed copy may leave any target, and a failed removal any artifacts.
unfoldable pub use_version :
    Text → Bool → Bool → Text → ConflictService → Result ConflictError ConflictService
unfolding find_latest_conflict_dir get_target_path resolved announce_all insert
use_version suffix copy_ok remove_ok file s = do
  d ← find_latest_conflict_dir file s.dirs
  elim (lookup (file ++ suffix) d.files) [
    | none ↦ err no_version
    | some content ↦ (do
      target ← get_target_path s file
      if not copy_ok
          then err copy_failed
          else if not remove_ok
          then err remove_failed
          else ok (
              announce_all
                (resolved d.name file (record s { targets = insert target content s.targets }))))
  ]

unfoldable pub use_local :
    Bool → Bool → Text → ConflictService → Result ConflictError ConflictService
unfolding use_version
use_local copy_ok remove_ok file s = use_version local_suffix copy_ok remove_ok file s

unfoldable pub use_remote :
    Bool → Bool → Text → ConflictService → Result ConflictError ConflictService
unfolding use_version
use_remote copy_ok remove_ok file s = use_version remote_suffix copy_ok remove_ok file s

-- The loop of MarkResolved, where every removal succeeds.
unfoldable pub mark_each : List Text → ConflictService → ConflictService
unfolding find_latest_conflict_dir resolved
mark_each [] s = s
mark_each (file ∷ files) s =
    mark_each files
      (elim (find_latest_conflict_dir file s.dirs) [ err _ ↦ s | ok d ↦ resolved d.name file s ])

unfoldable pub mark_resolved : List Text → ConflictService → ConflictService
unfolding mark_each announce_all
mark_resolved files s = announce_all (mark_each files s)

unfoldable pub mark_all_resolved : ConflictService → ConflictService
unfolding mark_resolved get_conflicts
mark_all_resolved s =
    let found = get_conflicts s.dirs in
    if is_empty found then s else mark_resolved (map (λ info. info.file) found) s
