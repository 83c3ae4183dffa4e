-- ===== src/Tests/Committing.antt =====
-- internal/gitmanager and internal/status on small inputs.
use dot_sync_manager.Base.{ℕ, List, [], ◌∷◌, none, some, true, false, ◌≡◌, refl, Text, codes}
use mathlib.Core.List.{Perm}
use dot_sync_manager.Base.Sort.{IsSorted}
use dot_sync_manager.Git.Commit.{
  FileStatus, GitStatus, unmodified, other, Repo, Calls, PushAnswer, pushed, changed_paths,
  collect_changed_files,
}
use dot_sync_manager.Git.Commit.Laws.{collect_changed_files-IsSorted}
use dot_sync_manager.Status.{StatusManager, StartCalls, mkdir_failed, new_status_manager, start}
use dot_sync_manager.Status.Laws.{Update, pid_update, sync_update, error_update}

abbrev modified : FileStatus
modified = record { worktree = other; staging = unmodified }

abbrev git_status : GitStatus
git_status = (codes "zshrc", modified) ∷ (codes "bashrc", modified) ∷ []

abbrev me : Text
me = codes "Ann"

abbrev mail : Text
mail = codes "ann@example.org"

abbrev stamp : Text
stamp = codes "2025-01-02 03:04:05"

abbrev empty_repo : Repo
empty_repo = record { head = []; remote = [] }

abbrev calls_with : PushAnswer → Calls
calls_with answer = record {
  ctx_done = false;
  worktree_ok = true;
  status = some git_status;
  is_clean = false;
  add_ok = true;
  commit_ok = true;
  ctx_done_at_push = false;
  push = answer;
}

abbrev clean_calls : Calls
clean_calls = record (calls_with pushed) { status = some []; is_clean = true }

collect_changed_files-IsSorted_example :
    IsSorted (λ path. path) (collect_changed_files git_status)
    × Perm (collect_changed_files git_status) (changed_paths git_status)
collect_changed_files-IsSorted_example = collect_changed_files-IsSorted git_status

abbrev manager : StatusManager ℕ
manager = new_status_manager (codes "1.0") (codes "/c") 0

abbrev updates : List (Update ℕ)
updates = pid_update 4 ∷ sync_update 1 (codes "a" ∷ []) none ∷ error_update 3 ∷ []

abbrev all_ok : StartCalls
all_ok = record { remove_ok = true; mkdir_ok = true; listen_ok = true; chmod_ok = true }

abbrev no_dir : StartCalls
no_dir = record all_ok { mkdir_ok = false }

abbrev served : StatusManager ℕ
served = (start all_ok manager).0

served_running : served.is_running ≡ true
unfolding start new_status_manager
served_running = refl

served_first : served.shutdown_done ≡ false
unfolding start new_status_manager
served_first = refl

manager_off : manager.is_running ≡ false
unfolding new_status_manager
manager_off = refl

mkdir_fails : (start no_dir manager).1 ≡ some mkdir_failed
unfolding start new_status_manager
mkdir_fails = refl
