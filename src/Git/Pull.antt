-- ===== src/Git/Pull.antt =====
-- createStash of internal/gitmanager/stash.go and PullWithStash of git_manager.go, without submodules: each path
-- that has a status is that of a file or of nothing.
pub mod Failing
pub mod Keeping
pub mod Stashing
use dot_sync_manager.Base.{
  ℕ, ◌==◌, List, [], ◌∷◌, Option, none, some, Bool, true, false, not, ◌&&◌, ◌||◌, if◌then◌else◌,
  Text, is_some,
}
use dot_sync_manager.Base.Dict.{Dict, lookup}
use dot_sync_manager.Git.Commit.{
  StatusCode, unmodified, deleted, other, FileStatus, GitStatus, is_changed,
}
use dot_sync_manager.Git.Stash.{
  File, StashFile, Artifacts, StashAnswer, apply_failed, conflicted, restored, apply_stash,
}

-- What go-git and the system answer during one call: the status, the files after a hard reset and after the
-- pull, or none where these fail; whether the copy of a file into the snapshot fails; and what is read through
-- a link that was copied there.
pub record PullCalls : Type 0 where
  pub ctx_done : Bool
  pub worktree_ok : Bool
  pub status : Option GitStatus
  pub dirs_ok : Bool
  pub copy_fails : Text → Bool
  pub through : Text → Option Text
  pub metadata_ok : Bool
  pub reset : Option (Dict File)
  pub pull : Option (Dict File)

abbrev pub is_deleted : StatusCode → Bool
is_deleted unmodified = false
is_deleted deleted = true
is_deleted other = false

unfoldable pub local_mode : Option File → Option File → ℕ
local_mode here base =
    let mode : ℕ = elim here [ none ↦ 0 | some f ↦ f.mode ] in
    if mode == 0 then elim base [ none ↦ 0 | some b ↦ b.mode ] else mode

-- The entry of a path whose file in the repository is `here`, if it has one, and in the last commit `base`.
unfoldable pub stash_entry :
    (Text → Option Text) → Text → FileStatus → Option File → Option File → StashFile
unfolding local_mode
stash_entry through path status here base =
    let gone = is_deleted status.worktree || is_deleted status.staging || not (is_some here) in
    record {
      path = path;
      mode = local_mode (if gone then none else here) base;
      deleted = gone;
      had_base = is_some base;
      local = if gone then none else elim here [
        | none ↦ none
        | some f ↦ if f.is_link then through path else some f.content
      ];
      base = elim base [ none ↦ none | some b ↦ some b.content ];
    }

-- The loop of createStash, over the status in some order; `none` is the error of a copy.
unfoldable pub stash_files : PullCalls → Dict File → Dict File → GitStatus → Option (List StashFile)
unfolding is_changed stash_entry lookup
stash_files calls head files [] = some []
stash_files calls head files ((path, status) ∷ rest) =
    let more = stash_files calls head files rest in
    if not (is_changed status) then more else if calls.copy_fails path then none else elim more [
      | none ↦ none
      | some stash ↦
          some
            (stash_entry calls.through path status (lookup path files) (lookup path head) ∷ stash)
    ]

-- createStash; `head` is empty where there is no commit.
unfoldable pub create_stash :
    PullCalls → Dict File → Dict File → GitStatus → Option (List StashFile)
unfolding stash_files
create_stash calls head files status =
    let stash = stash_files calls head files status in
    if calls.dirs_ok && calls.metadata_ok then stash else none

pub data PullError : Type 0 where
  cancelled worktree_failed status_failed stash_failed reset_failed pull_failed stash_not_applied :
      PullError
  conflicts_left : List Text → PullError

-- The error of PullWithStash, with the files and the conflicts of the snapshot after it; `none` stands for
-- files of which applyStash restored some before its error.
pub record Pulled : Type 0 where
  pub error : Option PullError
  pub files : Option (Dict File)
  pub conflicts : Dict Artifacts

abbrev pub stop : PullError → Dict File → Pulled
stop e files = record { error = some e; files = some files; conflicts = [] }

abbrev pub error_of : StashAnswer → Option PullError
error_of apply_failed = some stash_not_applied
error_of (conflicted paths) = some (conflicts_left paths)
error_of restored = none

-- What applyStash makes of the pulled files.
unfoldable pub restore_stash : List StashFile → Dict File → Pulled
unfolding apply_stash
restore_stash stash pulled =
    let (applied, answer) = apply_stash stash pulled in
    elim applied [
      | none ↦ record { error = error_of answer; files = none; conflicts = [] }
      | some a ↦ record { error = error_of answer; files = some a.files; conflicts = a.conflicts }
    ]

abbrev pub is_clean : GitStatus → Bool
is_clean [] = true
is_clean ((_, s) ∷ rest) = not (is_changed s) && is_clean rest

-- PullWithStash
unfoldable pub pull_with_stash : PullCalls → Dict File → Dict File → Pulled
unfolding create_stash restore_stash
pull_with_stash calls head files =
    if calls.ctx_done
    then stop cancelled files
    else if not calls.worktree_ok
    then stop worktree_failed files
    else elim calls.status [
      | none ↦ stop status_failed files
      | some status ↦
          if is_clean status
          then elim calls.pull [
            | none ↦ stop pull_failed files
            | some pulled ↦ record { error = none; files = some pulled; conflicts = [] }
          ]
          else elim (create_stash calls head files status) [
            | none ↦ stop stash_failed files
            | some stash ↦ elim calls.reset [
              | none ↦ stop reset_failed files
              | some reset ↦ elim calls.pull [
                | none ↦ stop pull_failed reset
                | some pulled ↦ restore_stash stash pulled
              ]
            ]
          ]
    ]
