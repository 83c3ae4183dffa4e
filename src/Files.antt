-- ===== src/Files.antt =====
-- The file system that the programs work on, with the calls of package os that they make, and the copying
-- of a file, which internal/symlink/backup.go, internal/conflict/actions.go and cmd/add.go each have.
-- A path is the clean absolute name of what it reaches; symbolic links are followed in its last part only.
-- The umask is zero.
pub mod Finding
pub mod Laws
use dot_sync_manager.Base.{
  ℕ, zero, suc, [], ◌∷◌, ◌++◌, Option, none, some, Bool, true, false, Text, eq_text, has_prefix,
  take, if◌then◌else◌, is_some,
}
use dot_sync_manager.Base.Dict.{Dict, lookup, insert, erase}
use dot_sync_manager.Base.Paths.{slash, is_abs, clean, dir_name, join_path}

pub data Node : Type 0 where
  file : Text → ℕ → Node
  dir : ℕ → Node
  link : Text → Node

abbrev pub FileSystem : Type 0
FileSystem = Dict Node

-- What happens to a call: it works, it is refused at once, or it stops after some bytes or entries.
pub data Fault : Type 0 where
  fine refused : Fault
  torn : ℕ → Fault

abbrev pub is_fine : Fault → Bool
is_fine fine = true
is_fine refused = false
is_fine (torn _) = false

-- Where a link at a path points to.
unfoldable pub link_path : Text → Text → Text
unfolding is_abs clean dir_name join_path
link_path p t = if is_abs t then clean t else join_path (dir_name p) t

-- The path behind the links at a path; the system follows 40 links.
unfoldable pub follow : ℕ → Text → FileSystem → Option Text
unfolding lookup link_path
follow zero p fs = none
follow (suc n) p fs = elim (lookup p fs) [
  | none ↦ some p
  | some node ↦ elim node [
    | file _ _ ↦ some p
    | dir _ ↦ some p
    | link t ↦ follow n (link_path p t) fs
  ]
]

abbrev pub max_links : ℕ
max_links = 40

-- os.Stat
unfoldable pub stat : Text → FileSystem → Option Node
unfolding follow lookup
stat p fs = elim (follow max_links p fs) [ none ↦ none | some q ↦ lookup q fs ]

-- os.Lstat
unfoldable pub lstat : Text → FileSystem → Option Node
unfolding lookup
lstat p fs = lookup p fs

-- What a path reads as, with the permissions of the file.
unfoldable pub read_file : Text → FileSystem → Option (Text × ℕ)
unfolding stat
read_file p fs = elim (stat p fs) [
  | none ↦ none
  | some node ↦ elim node [
    | file content mode ↦ some (content, mode)
    | dir _ ↦ none
    | link _ ↦ none
  ]
]

-- os.OpenFile with O_CREATE and O_TRUNC: an existing file keeps its permissions.
unfoldable pub truncate : Text → ℕ → FileSystem → Option FileSystem
unfolding lookup insert
truncate p mode fs = elim (lookup p fs) [
  | none ↦ some (insert p (file [] mode) fs)
  | some node ↦ elim node [
    | file _ old ↦ some (insert p (file [] old) fs)
    | dir _ ↦ none
    | link _ ↦ none
  ]
]

-- Fill the file at a path that was opened.
unfoldable pub fill : Text → Text → FileSystem → FileSystem
unfolding lookup insert
fill p content fs = elim (lookup p fs) [
  | none ↦ fs
  | some node ↦ elim node [
    | file _ mode ↦ insert p (file content mode) fs
    | dir _ ↦ fs
    | link _ ↦ fs
  ]
]

-- The bytes of the file at a path, while it is open.
unfoldable pub bytes_at : Text → FileSystem → Text
unfolding lookup
bytes_at p fs = elim (lookup p fs) [
  | none ↦ []
  | some node ↦ elim node [ file content _ ↦ content | dir _ ↦ [] | link _ ↦ [] ]
]

-- io.Copy from one open file to another: it reads what is there once the destination was truncated.
unfoldable pub pour : Fault → Text → Text → FileSystem → Bool × FileSystem
unfolding fill bytes_at
pour fine from to fs = (true, fill to (bytes_at from fs) fs)
pour refused from to fs = (false, fs)
pour (torn n) from to fs = (false, fill to (take n (bytes_at from fs)) fs)

-- copyFile, where `opened` says whether both files can be opened.
unfoldable pub copy_file : Bool → Fault → Text → Text → FileSystem → Bool × FileSystem
unfolding follow read_file truncate pour
copy_file opened fault src dst fs = elim (read_file src fs) [
  | none ↦ (false, fs)
  | some (_, mode) ↦ elim (follow max_links src fs) [
    | none ↦ (false, fs)
    | some from ↦ elim (follow max_links dst fs) [
      | none ↦ (false, fs)
      | some to ↦ elim (if opened then truncate to mode fs else none) [
        | none ↦ (false, fs)
        | some fs' ↦ pour fault from to fs'
      ]
    ]
  ]
]

-- os.Remove, of what is no directory
unfoldable pub remove : Bool → Text → FileSystem → Bool × FileSystem
unfolding lookup erase
remove works p fs = if works then (is_some (lookup p fs), erase p fs) else (false, fs)

-- os.RemoveAll: a path and all below it.
unfoldable pub remove_all : Text → FileSystem → FileSystem
unfolding eq_text has_prefix
remove_all p [] = []
remove_all p ((q, node) ∷ fs) =
    let rest = remove_all p fs in
    if eq_text q p then rest else if has_prefix q (p ++ slash ∷ []) then rest else (q, node) ∷ rest

-- os.Symlink
unfoldable pub make_link : Bool → Text → Text → FileSystem → Bool × FileSystem
unfolding lookup insert
make_link works target p fs =
    if works
    then if is_some (lookup p fs) then (false, fs) else (true, insert p (link target) fs)
    else (false, fs)

-- os.OpenFile with O_EXCL, and a write that works.
unfoldable pub create_exclusive : Bool → Text → Text → ℕ → FileSystem → Bool × FileSystem
unfolding lookup insert
create_exclusive works p content mode fs =
    if works
    then if is_some (lookup p fs) then (false, fs) else (true, insert p (file content mode) fs)
    else (false, fs)
