-- ===== src/Tests/Performing.antt =====
-- internal/sync on small inputs: syncs and the watched directories.
use dot_sync_manager.Base.{
  ℕ, List, [], ◌∷◌, some, Bool, true, false, ◌≡◌, ◌≢◌, refl, Text, codes, ◌↔◌, eq_text, lt_text,
}
use mathlib.Core.List.{Memᴰ}
use dot_sync_manager.Base.Paths.{join_path}
use dot_sync_manager.Base.Result.{ok, err}
use dot_sync_manager.Base.Sort.{sort}
use dot_sync_manager.Git.Commit.{
  FileStatus, unmodified, other, cancelled, push_failed, PushAnswer, pushed, push_interrupted,
  push_error, stage_commit_and_push,
}
use dot_sync_manager.Sync.{SyncService, Job, auto_sync, manual_sync_job, SyncWorld}
use dot_sync_manager.Sync.Settings.{AnyDebouncer}
use dot_sync_manager.Sync.Watch.{
  Tree, dir_node, no_entries, entry, IsShown, watch_tree, watch_tree_exact,
}
use dot_sync_manager.Tests.Syncing.{idle, callbacks, me, mail, no_repo}

abbrev modified : FileStatus
modified = record { worktree = other; staging = unmodified }

abbrev world_with : PushAnswer → SyncWorld
world_with answer = record {
  stamp = codes "2025";
  now = 5;
  calls = record {
    ctx_done = false;
    worktree_ok = true;
    status = some ((codes "zshrc", modified) ∷ []);
    is_clean = false;
    add_ok = true;
    commit_ok = true;
    ctx_done_at_push = false;
    push = answer;
  };
  start_panics = false;
}

abbrev listening : SyncService (AnyDebouncer ℕ)
listening = record idle { callbacks = callbacks }

pushes :
    (stage_commit_and_push me mail (world_with pushed).calls (codes "2025") no_repo).1
    ≡ ok (codes "zshrc" ∷ [])
unfolding stage_commit_and_push sort lt_text
pushes = refl

fails :
    (stage_commit_and_push me mail (world_with push_error).calls (codes "2025") no_repo).1
    ≡ err push_failed
unfolding stage_commit_and_push sort lt_text
fails = refl

other_error : push_failed ≢ cancelled
other_error = cc

interrupted :
    (stage_commit_and_push me mail (world_with push_interrupted).calls (codes "2025") no_repo).1
    ≡ err cancelled
unfolding stage_commit_and_push sort lt_text
interrupted = refl

abbrev jobs : List (Job × SyncWorld)
jobs = (auto_sync, world_with push_error) ∷ (manual_sync_job, world_with pushed) ∷ []

abbrev paused : SyncService (AnyDebouncer ℕ)
paused = record listening { is_paused = true }

abbrev ignores_cache : Text → Bool
ignores_cache path = eq_text path (codes "/d/cache")

-- A repository with .git, an ignored directory and one that is not.
abbrev tree : Tree
tree = dir_node true (
    entry (codes ".git") (dir_node true no_entries) (
      entry (codes "cache")
        (dir_node true (entry (codes "x") (dir_node true no_entries) no_entries))
        (entry (codes "vim") (dir_node true no_entries) no_entries)))

tree_watched : watch_tree ignores_cache (codes "/d") tree ≡ some (codes "/d" ∷ codes "/d/vim" ∷ [])
unfolding watch_tree eq_text join_path
tree_watched = refl

watch_tree_exact_example :
    Memᴰ (codes "/d/vim") (codes "/d" ∷ codes "/d/vim" ∷ [])
    ↔ IsShown ignores_cache (codes "/d") tree (codes "/d/vim")
watch_tree_exact_example =
    watch_tree_exact ignores_cache (codes "/d") tree (codes "/d" ∷ codes "/d/vim" ∷ [])
      (codes "/d/vim") tree_watched
