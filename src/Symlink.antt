-- ===== src/Symlink.antt =====
-- internal/symlink/manager.go and types.go: links from the home directory into the repository.
pub mod Backup
pub mod Links
pub mod Mappings
use dot_sync_manager.Base.{
  List, [], ◌∷◌, Option, none, some, Bool, not, if◌then◌else◌, Text, eq_text, is_some,
}
use dot_sync_manager.Base.Dict.{Dict}
use dot_sync_manager.Base.Paths.{is_abs, clean, dir_name, join_path}
use dot_sync_manager.Files.{file, dir, link, FileSystem, stat, lstat, link_path, make_link, remove}

pub data LinkError : Type 0 where
  source_missing parent_missing target_exists create_failed : LinkError
  target_missing not_a_link remove_failed : LinkError

-- The file system after a method, with its error if it has one.
abbrev pub Outcome : Type 0 → Type 0
Outcome E = Option E × FileSystem

-- The tests of CreateLink, in their order, and what the call of the system made.
unfoldable pub link_outcome :
    Bool → Bool → Bool → Bool × FileSystem → FileSystem → Outcome LinkError
link_outcome has_source has_parent has_target (made, fs') fs =
    if not has_source
    then (some source_missing, fs)
    else if not has_parent
    then (some parent_missing, fs)
    else if has_target
    then (some target_exists, fs)
    else if made
    then (none, fs')
    else (some create_failed, fs)

-- CreateLink; `works` says whether the system makes the link.
unfoldable pub create_link : Bool → Text → Text → Text → FileSystem → Outcome LinkError
unfolding stat lstat dir_name join_path make_link link_outcome
create_link works repo source target fs =
    let source_path = join_path repo source in
    link_outcome (is_some (stat source_path fs)) (is_some (stat (dir_name target) fs))
      (is_some (lstat target fs)) (make_link works source_path target fs) fs

-- RemoveLink
unfoldable pub remove_link : Bool → Text → FileSystem → Outcome LinkError
unfolding lstat remove
remove_link works target fs = elim (lstat target fs) [
  | none ↦ (some target_missing, fs)
  | some node ↦ elim node [
    | file _ _ ↦ (some not_a_link, fs)
    | dir _ ↦ (some not_a_link, fs)
    | link _ ↦
        let removed = remove works target fs in
        if removed.0 then (none, removed.1) else (some remove_failed, fs)
  ]
]

pub data MappingState : Type 0 where
  valid broken missing not_symlink : MappingState

-- MappingStatus, less the message.
pub record MappingStatus : Type 0 where
  pub repo_path : Text
  pub target_path : Text
  pub status : MappingState

-- What VerifyMappings finds at one target.
unfoldable pub mapping_state : Text → Text → Text → FileSystem → MappingState
unfolding lstat stat link_path join_path eq_text is_abs clean
mapping_state repo repo_path target fs = elim (lstat target fs) [
  | none ↦ missing
  | some node ↦ elim node [
    | file _ _ ↦ not_symlink
    | dir _ ↦ not_symlink
    | link dest ↦
        let resolved = if is_abs dest then dest else link_path target dest in
        let expected = join_path repo repo_path in
        if not (eq_text resolved expected)
        then broken
        else if is_some (stat expected fs)
        then valid
        else broken
  ]
]

-- VerifyMappings; the order of a Go map is any.
unfoldable pub verify_mappings : Text → Dict Text → FileSystem → List MappingStatus
unfolding mapping_state
verify_mappings repo [] fs = []
verify_mappings repo ((repo_path, target) ∷ rest) fs =
    record {
      repo_path = repo_path;
      target_path = target;
      status = mapping_state repo repo_path target fs;
    }
    ∷ verify_mappings repo rest fs
