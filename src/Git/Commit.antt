-- ===== src/Git/Commit.antt =====
-- internal/gitmanager/git_manager.go: StageCommitAndPush and what it calls. go-git is not part of the
-- repository: what its calls answer is an argument.
pub mod Laws
use dot_sync_manager.Base.{
  List, [], ◌∷◌, ◌++◌, Option, none, some, Bool, true, false, not, ◌||◌, if◌then◌else◌, Text, codes,
  is_empty,
}
use dot_sync_manager.Base.Result.{Result, ◌>>=◌, ◌>>◌, ok, err, require, reject}
use dot_sync_manager.Base.Sort.{sort}

-- git.StatusCode, as far as the code tells codes apart.
pub data StatusCode : Type 0 where
  unmodified deleted other : StatusCode

pub record FileStatus : Type 0 where
  pub worktree : StatusCode
  pub staging : StatusCode

-- git.Status, a map from paths: the list is in some order of iteration.
abbrev pub GitStatus : Type 0
GitStatus = List (Text × FileStatus)

unfoldable pub is_unmodified : StatusCode → Bool
is_unmodified unmodified = true
is_unmodified _ = false

unfoldable pub is_changed : FileStatus → Bool
unfolding is_unmodified
is_changed s = not (is_unmodified s.worktree) || not (is_unmodified s.staging)

unfoldable pub changed_paths : GitStatus → List Text
unfolding is_changed
changed_paths [] = []
changed_paths ((path, s) ∷ rest) =
    let more = changed_paths rest in if is_changed s then path ∷ more else more

unfoldable pub collect_changed_files : GitStatus → List Text
unfolding changed_paths
collect_changed_files status = sort (λ path. path) (changed_paths status)

-- The lines that list the files.
unfoldable pub file_lines : List Text → Text
file_lines [] = []
file_lines (file ∷ files) = (codes "- " ++ (file ++ b'\n' ∷ [])) ++ file_lines files

-- BuildAutoCommitMessage; `stamp` is when.Format("2006-01-02 15:04:05").
unfoldable pub build_auto_commit_message : Text → List Text → Text
unfolding file_lines
build_auto_commit_message stamp files =
    codes "Auto-sync: " ++ (stamp ++ (codes "\n\nChanged files:\n" ++ file_lines files))

pub record Commit : Type 0 where
  pub message : Text
  pub files : List Text
  pub author_name : Text
  pub author_email : Text

-- The commits of the local branch and those that the remote has, oldest first.
pub record Repo : Type 0 where
  pub head : List Commit
  pub remote : List Commit

pub data GitError : Type 0 where
  cancelled worktree_failed status_failed add_failed commit_failed push_failed : GitError

-- PushContext: pushed, NoErrAlreadyUpToDate, an error that wraps context.Canceled, or another error.
pub data PushAnswer : Type 0 where
  pushed up_to_date push_interrupted push_error : PushAnswer

-- What go-git and the context answer during one call.
pub record Calls : Type 0 where
  pub ctx_done : Bool
  pub worktree_ok : Bool
  pub status : Option GitStatus
  pub is_clean : Bool
  pub add_ok : Bool
  pub commit_ok : Bool
  pub ctx_done_at_push : Bool
  pub push : PushAnswer

-- worktree.Status()
unfoldable pub read_status : Option GitStatus → Result GitError GitStatus
read_status none = err status_failed
read_status (some s) = ok s

module _ (author_name author_email : Text) where
  -- The commit that StageAndCommit makes.
  unfoldable pub auto_commit : Text → GitStatus → Commit
  unfolding build_auto_commit_message collect_changed_files
  auto_commit stamp status = record {
    message = build_auto_commit_message stamp (collect_changed_files status);
    files = collect_changed_files status;
    author_name = author_name;
    author_email = author_email;
  }

  unfoldable pub stage_and_commit : Calls → Text → Repo → Result GitError (Repo × List Text)
  unfolding read_status auto_commit
  stage_and_commit calls stamp repo = do
    reject calls.ctx_done cancelled
    require calls.worktree_ok worktree_failed
    status ← read_status calls.status
    if calls.is_clean then ok (repo, []) else (do
      require calls.add_ok add_failed
      require calls.commit_ok commit_failed
      ok (
        record repo { head = repo.head ++ auto_commit stamp status ∷ [] },
        collect_changed_files status,
      ))

  unfoldable pub push_head : Calls → Repo → Result GitError Repo
  push_head calls repo = if calls.ctx_done_at_push then err cancelled else elim calls.push [
    | pushed ↦ ok (record repo { remote = repo.head })
    | up_to_date ↦ ok repo
    | push_interrupted ↦ err cancelled
    | push_error ↦ err push_failed
  ]

  -- Push after a commit. A failed push leaves the commit in the local branch.
  unfoldable pub push_changed : Calls → Repo → List Text → Repo × Result GitError (List Text)
  unfolding push_head
  push_changed calls repo files =
      if is_empty files then (repo, ok []) else elim (push_head calls repo) [
        | ok pushed_repo ↦ (pushed_repo, ok files)
        | err e ↦ (repo, err e)
      ]

  unfoldable pub stage_commit_and_push : Calls → Text → Repo → Repo × Result GitError (List Text)
  unfolding stage_and_commit push_changed
  stage_commit_and_push calls stamp repo = elim (stage_and_commit calls stamp repo) [
    | err e ↦ (repo, err e)
    | ok (committed, files) ↦ push_changed calls committed files
  ]
