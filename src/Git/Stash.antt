-- ===== src/Git/Stash.antt =====
-- internal/gitmanager/stash.go: applyStash, which puts the stashed local changes back on what was pulled.
-- A snapshot holds for each file what os.ReadFile answers for its local and its base copy. Of the calls of
-- the system only the read of the local copy is taken to fail.
pub mod Kept
pub mod Remote
use dot_sync_manager.Base.{
  ℕ, ◌==◌, List, [], ◌∷◌, ◌++◌, Option, none, some, Bool, true, false, not, ◌&&◌, ◌||◌,
  if◌then◌else◌, Text, codes, is_empty, eq_text,
}
use dot_sync_manager.Base.Dict.{Dict, lookup, insert, erase}
use dot_sync_manager.Base.Sort.{sort}

-- A file of the repository; the content of a symbolic link is what os.Readlink answers.
pub record File : Type 0 where
  pub content : Text
  pub mode : ℕ
  pub is_link : Bool

-- stashFile, with the copies of the snapshot; `none` is a copy that is not there.
pub record StashFile : Type 0 where
  pub path : Text
  pub mode : ℕ
  pub deleted : Bool
  pub had_base : Bool
  pub local : Option Text
  pub base : Option Text

-- The three files that persistConflictArtifacts writes for a path.
pub record Artifacts : Type 0 where
  pub remote : Text
  pub base : Option Text
  pub local : Text

-- The repository, the conflict directory of this snapshot, and what was written through links.
pub record Applied : Type 0 where
  pub files : Dict File
  pub conflicts : Dict Artifacts
  pub followed : List (Text × Text)

unfoldable pub normalized_perm : ℕ → ℕ
normalized_perm mode = if mode == 0 then 0o644 else mode

abbrev pub remote_tombstone : Text
remote_tombstone = codes "<<remote deleted>>\n"

abbrev pub local_tombstone : Text
local_tombstone = codes "<<local deleted file>>\n"

-- persistConflictArtifacts; `local` is `none` for a file that was deleted locally.
unfoldable pub artifacts : Text → Text → Option Text → Artifacts
artifacts remote base local = record {
  remote = if is_empty remote then remote_tombstone else remote;
  base = if is_empty base then none else some base;
  local = elim local [ none ↦ local_tombstone | some l ↦ l ];
}

-- os.WriteFile: an existing file keeps its mode, and a link is followed.
unfoldable pub write_file : Text → Text → ℕ → Applied → Applied
write_file path content mode a = elim (lookup path a.files) [
  | none ↦ record a {
    files = insert path (record { content = content; mode = mode; is_link = false }) a.files;
  }
  | some f ↦
      if f.is_link
      then record a { followed = a.followed ++ (f.content, content) ∷ [] }
      else record a { files = insert path (record f { content = content }) a.files }
]

-- The content of an optional copy: a copy that is not there reads as no bytes.
unfoldable pub bytes_of : Option Text → Text
bytes_of none = []
bytes_of (some t) = t

-- The branch of a file that was deleted locally; `f` is the file of the repository.
unfoldable pub apply_deleted : StashFile → File → Applied → Applied
unfolding artifacts bytes_of eq_text
apply_deleted s f a =
    let base = bytes_of s.base in
    let unchanged = s.had_base && eq_text f.content base in
    if unchanged || (not s.had_base && is_empty f.content)
    then record a { files = erase s.path a.files }
    else record a { conflicts = insert s.path (artifacts f.content base none) a.conflicts }

-- Whether the pulled state of the path conflicts with the local one, which differs from it.
unfoldable pub remote_changed : StashFile → Option File → Bool
unfolding bytes_of eq_text
remote_changed s none = s.had_base
remote_changed s (some f) =
    let base = bytes_of s.base in if is_empty base then true else not (eq_text f.content base)

-- The branch of a file that exists locally with the content `l`. os.Chmod follows a link, too.
unfoldable pub apply_local : StashFile → Text → Applied → Applied
unfolding artifacts bytes_of eq_text normalized_perm write_file remote_changed
apply_local s l a = elim (lookup s.path a.files) [
  | none ↦
      if remote_changed s none
      then record a {
        conflicts = insert s.path (artifacts [] (bytes_of s.base) (some l)) a.conflicts;
      }
      else write_file s.path l (normalized_perm s.mode) a
  | some f ↦
      if eq_text f.content l
      then (if s.mode == 0 || f.is_link
          then a
          else record a { files = insert s.path (record f { mode = s.mode }) a.files })
      else if remote_changed s (some f)
      then record a {
        conflicts = insert s.path (artifacts f.content (bytes_of s.base) (some l)) a.conflicts;
      }
      else write_file s.path l (normalized_perm s.mode) a
]

-- One turn of the loop; `none` is the error of a local copy that cannot be read.
unfoldable pub apply_file : StashFile → Applied → Option Applied
unfolding apply_deleted apply_local
apply_file s a =
    if s.deleted
    then elim (lookup s.path a.files) [ none ↦ some a | some f ↦ some (apply_deleted s f a) ]
    else elim s.local [ none ↦ none | some l ↦ some (apply_local s l a) ]

unfoldable pub apply_files : List StashFile → Applied → Option Applied
unfolding apply_file
apply_files [] a = some a
apply_files (s ∷ rest) a = elim (apply_file s a) [ none ↦ none | some a' ↦ apply_files rest a' ]

-- The answer of applyStash: its error, the conflicts that it reports with the snapshot kept, or success,
-- where the snapshot is removed.
pub data StashAnswer : Type 0 where
  apply_failed : StashAnswer
  conflicted : List Text → StashAnswer
  restored : StashAnswer

unfoldable pub keys : Dict Artifacts → List Text
keys [] = []
keys ((path, _) ∷ rest) = path ∷ keys rest

unfoldable pub apply_stash : List StashFile → Dict File → Option Applied × StashAnswer
unfolding apply_files keys
apply_stash stash files =
    elim (apply_files stash (record { files = files; conflicts = []; followed = [] })) [
      | none ↦ (none, apply_failed)
      | some a ↦
          let paths = keys a.conflicts in
          (some a, if is_empty paths then restored else conflicted (sort (λ path. path) paths))
    ]
