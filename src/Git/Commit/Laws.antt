-- ===== src/Git/Commit/Laws.antt =====
-- What a call of StageCommitAndPush leaves behind, on success and on failure.
use dot_sync_manager.Base.{List, [], ◌∷◌, ◌++◌, some, true, false, ◌≡◌, arith, Text}
use mathlib.Core.List.{Perm}
use dot_sync_manager.Base.Result.{ok, err}
use dot_sync_manager.Base.Sort.{sort-perm, sort-IsSorted, IsSorted}
use dot_sync_manager.Git.Commit.{
  GitStatus, changed_paths, collect_changed_files, Repo, Calls, push_failed, auto_commit,
  stage_commit_and_push,
}

-- The changed files are listed in order, and they are the paths whose worktree or staging code is not
-- Unmodified, each as often as the status map lists it.
pub collect_changed_files-IsSorted :
    (status : GitStatus)
    → IsSorted (λ path. path) (collect_changed_files status)
      × Perm (collect_changed_files status) (changed_paths status)
unfolding collect_changed_files
collect_changed_files-IsSorted status = (
  sort-IsSorted (λ path. path) (changed_paths status),
  sort-perm (λ path. path) (changed_paths status),
)

module _ (author_name author_email : Text) where
  -- After a failed push the next call finds a clean worktree, reports success with no files and pushes
  -- nothing: the commit stays out of the remote until some other file changes.
  failed_push_is_not_retried :
      (calls retry : Calls) (stamp stamp' : Text) (repo : Repo) (status status' : GitStatus)
      → calls.status ≡ some status
      → (stage_commit_and_push author_name author_email calls stamp repo).1 ≡ err push_failed
      → retry.ctx_done ≡ false
      → retry.worktree_ok ≡ true
      → retry.status ≡ some status'
      → retry.is_clean ≡ true
      → let repo' = (stage_commit_and_push author_name author_email calls stamp repo).0 in
        (repo'.head ≡ repo.head ++ auto_commit author_name author_email stamp status ∷ [])
        × (repo'.remote ≡ repo.remote)
        × (stage_commit_and_push author_name author_email retry stamp' repo' ≡ (repo', ok []))
  unfolding stage_commit_and_push
  failed_push_is_not_retried calls retry stamp stamp' repo status status' read failed live tree
        again clean =
      ground arith
