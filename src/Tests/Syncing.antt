-- ===== src/Tests/Syncing.antt =====
-- internal/sync on small inputs: a service with a basic debouncer.
use dot_sync_manager.Base.{
  ℕ, ◌+◌, [], ◌∷◌, Option, none, some, Bool, true, false, ◌≡◌, ◌≢◌, refl, Text, codes, ◌⊎◌, inl,
  is_some, leb, ltb,
}
use dot_sync_manager.Base.Int.{pos}
use dot_sync_manager.Debouncer.Backoff.{FloatOps}
use dot_sync_manager.Debouncer.Basic
use dot_sync_manager.Debouncer.Basic.{Debouncer}
use dot_sync_manager.Git.Commit.{Repo, pushed}
use dot_sync_manager.Status.{StartCalls, new_status_manager, running}
use dot_sync_manager.Sync.{
  state_stopped, state_running, SyncService, Callbacks, SyncWorld, StartWorld, status_failed,
  AdvancedCalls, start, begin_stop, loop_round,
}
use dot_sync_manager.Sync.Settings.{SyncConfig, AnyDebouncer, any_debouncer}
use dot_sync_manager.Sync.Lifecycle.{start_outcome}

abbrev pub whole : FloatOps ℕ
whole = record {
  le_one = λ f. leb f 1;
  gt_one = λ f. ltb 1 f;
  two = 2;
  backoff = λ base f count. pos base;
}

abbrev settings : SyncConfig ℕ
settings = record {
  repo_path = codes "/home/ann/dotfiles";
  debounce_delay = pos 0;
  auto_sync_enabled = true;
  ignore_file = [];
  backoff = none;
  version = codes "1.0";
  config_path = codes "/c";
}

abbrev pub callbacks : Callbacks
callbacks = record { on_sync_start = true; on_sync_complete = true; on_error = true }

abbrev pub no_repo : Repo
no_repo = record { head = []; remote = [] }

-- The service that New makes of the settings, with the callbacks set.
abbrev pub idle : SyncService (AnyDebouncer ℕ)
idle = record {
  debouncer = inl (Basic.new (pos 30_000_000_000));
  watcher = true;
  status_manager = new_status_manager (codes "1.0") (codes "/c") 0;
  state = state_stopped;
  ctx_cancelled = false;
  loops = 0;
  shutdown_once_done = false;
  last_shutdown_error = false;
  is_paused = false;
  auto_sync_enabled = true;
  callbacks = record { on_sync_start = false; on_sync_complete = false; on_error = false };
  repo = no_repo;
  notices = [];
}

abbrev pub all_ok : StartCalls
all_ok = record { remove_ok = true; mkdir_ok = true; listen_ok = true; chmod_ok = true }

abbrev pub start_world : StartWorld
start_world = record {
  status_calls = all_ok;
  pid = 4;
  add_root_ok = true;
  watch_ok = true;
  watched = codes "/home/ann/dotfiles" ∷ [];
  left_in_time = true;
  close_ok = true;
}

abbrev silent_world : StartWorld
silent_world = record start_world { status_calls = record all_ok { listen_ok = false } }

abbrev pub no_advanced : Option (AdvancedCalls (any_debouncer whole))
no_advanced = none

abbrev ignores_none : Text → Bool
ignores_none _ = false

abbrev pub me : Text
me = codes "Ann"

abbrev pub mail : Text
mail = codes "ann@example.org"

abbrev pub started : SyncService (AnyDebouncer ℕ)
started = (start (any_debouncer whole) no_advanced start_world idle).0

abbrev sync_world : SyncWorld
sync_world = record {
  stamp = codes "2025";
  now = 5;
  calls = record {
    ctx_done = false;
    worktree_ok = true;
    status = some [];
    is_clean = true;
    add_ok = true;
    commit_ok = true;
    ctx_done_at_push = false;
    push = pushed;
  };
  start_panics = false;
}

abbrev stopping : SyncService (AnyDebouncer ℕ)
stopping = (begin_stop (any_debouncer whole) no_advanced start_world true started).0

-- The loop leaves after Stop has begun.
stopping_left : (loop_round stopping).loops ≡ 0
unfolding loop_round begin_stop start dot_sync_manager.Status.start new_status_manager
stopping_left = refl

start_outcome_example :
    let (s', e) = start (any_debouncer whole) no_advanced start_world idle in
    ((e ≡ none)
      × (idle.state ≡ state_stopped)
      × (s'.state ≡ state_running)
      × (s'.loops ≡ idle.loops + 1)
      × (s'.status_manager.status.current_state ≡ running)
      × (s'.status_manager.status.watched_paths ≡ start_world.watched))
    ⊎ ((s' ≡ idle) × (idle.state ≢ state_stopped) × (is_some e ≡ true))
    ⊎ ((is_some e ≡ true)
        × (e ≢ some status_failed)
        × (s'.state ≡ state_stopped)
        × (s'.watcher ≡ false)
        × ((any_debouncer whole).pending s'.debouncer ≡ 0)
        × (s'.loops ≡ idle.loops))
    ⊎ ((e ≡ some status_failed) × (s'.state ≡ state_running) × (s'.loops ≡ idle.loops))
start_outcome_example = start_outcome (any_debouncer whole) no_advanced start_world idle
