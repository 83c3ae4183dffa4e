-- ===== src/Tests/Stashing.antt =====
-- internal/gitmanager/stash.go on a snapshot of three files.
use dot_sync_manager.Base.{
  List, [], ◌∷◌, none, some, true, false, not, ◌≡◌, ◌≢◌, refl, Text, codes, All, if◌then◌else◌,
  eq_text, is_empty, arith,
}
use dot_sync_manager.Base.Dict.{lookup, insert, erase}
use dot_sync_manager.Git.Stash.{
  File, StashFile, Applied, apply_file, apply_files, remote_tombstone, local_tombstone,
}
use dot_sync_manager.Git.Stash.Kept.{IsRestored, IsPlain, IsDistinct, apply_files_restores}
use dot_sync_manager.Git.Stash.Remote.{apply_file_remote}

abbrev plain_file : Text → File
plain_file content = record { content = content; mode = 0o644; is_link = false }

-- Changed here only, changed on both sides, and deleted here only.
abbrev mine : StashFile
mine = record {
  path = codes "vimrc";
  mode = 0o644;
  deleted = false;
  had_base = true;
  local = some (codes "new");
  base = some (codes "old");
}

abbrev both : StashFile
both = record {
  path = codes "zshrc";
  mode = 0o644;
  deleted = false;
  had_base = true;
  local = some (codes "here");
  base = some (codes "old");
}

abbrev gone : StashFile
gone = record {
  path = codes "inputrc";
  mode = 0o644;
  deleted = true;
  had_base = true;
  local = none;
  base = some (codes "old");
}

abbrev stash : List StashFile
stash = mine ∷ both ∷ gone ∷ []

abbrev pulled : Applied
pulled = record {
  files =
      (codes "vimrc", plain_file (codes "old"))
      ∷ (codes "zshrc", plain_file (codes "there"))
      ∷ (codes "inputrc", plain_file (codes "old"))
      ∷ [];
  conflicts = [];
  followed = [];
}

abbrev applied : Applied
applied = record {
  files =
      (codes "vimrc", plain_file (codes "new")) ∷ (codes "zshrc", plain_file (codes "there")) ∷ [];
  conflicts =
      (
        codes "zshrc",
        record { remote = codes "there"; base = some (codes "old"); local = codes "here" },
      )
      ∷ [];
  followed = [];
}

stash_applies : apply_files stash pulled ≡ some applied
unfolding apply_files lookup insert erase eq_text
stash_applies = refl

paths_differ : IsDistinct stash
unfolding eq_text
paths_differ = ((refl, (refl, tt)), ((refl, tt), (tt, tt)))

pulled-IsPlain : All (λ s. IsPlain s.path pulled) stash
unfolding lookup eq_text
pulled-IsPlain = (λ f e. ground arith, (λ f e. ground arith, (λ f e. ground arith, tt)))

apply_files_restores_example : All (λ s. IsRestored s applied) stash
apply_files_restores_example =
    apply_files_restores stash pulled applied paths_differ pulled-IsPlain stash_applies

abbrev kept_apart : Applied
kept_apart = record pulled {
  conflicts =
      (
        codes "zshrc",
        record { remote = codes "there"; base = some (codes "old"); local = codes "here" },
      )
      ∷ [];
}

both_found : lookup (codes "zshrc") pulled.files ≡ some (plain_file (codes "there"))
unfolding lookup eq_text
both_found = refl

both_differs : codes "there" ≢ codes "old"
both_differs = cc

both_other : (if false then true else not (eq_text (codes "there") (codes "here"))) ≡ true
unfolding eq_text
both_other = refl

both_applies : apply_file both pulled ≡ some kept_apart
unfolding apply_file lookup insert eq_text
both_applies = refl

apply_file_remote_example :
    (kept_apart.files ≡ pulled.files)
    × (lookup (codes "zshrc") kept_apart.conflicts
        ≡ some (record {
          remote = if is_empty (codes "there") then remote_tombstone else codes "there";
          base = if is_empty (codes "old") then none else some (codes "old");
          local = if false then local_tombstone else codes "here";
        }))
apply_file_remote_example =
    apply_file_remote both (plain_file (codes "there")) (codes "old") (codes "here") pulled
      kept_apart both_found refl refl both_differs refl both_other both_applies

abbrev from_empty : StashFile
from_empty = record both { base = some [] }

abbrev pulled_empty : Applied
pulled_empty = record pulled { files = (codes "zshrc", plain_file []) ∷ [] }

abbrev empty_conflict : Applied
empty_conflict = record pulled_empty {
  conflicts =
      (codes "zshrc", record { remote = remote_tombstone; base = none; local = codes "here" }) ∷ [];
}

empty_found : lookup (codes "zshrc") pulled_empty.files ≡ some (plain_file [])
unfolding lookup eq_text
empty_found = refl

here_some : codes "here" ≢ []
here_some = cc

empty_applies : apply_file from_empty pulled_empty ≡ some empty_conflict
unfolding apply_file lookup insert eq_text
empty_applies = refl
