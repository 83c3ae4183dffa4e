-- ===== src/Sync/Settings.antt =====
-- internal/sync/service.go: the configuration of the service and New, which chooses the debouncer.
use dot_sync_manager.Base.{
  ℕ, ◌≤◌, ◌*◌, [], Option, none, some, Bool, true, false, ◌≡◌, Text, codes, is_empty, ◌==◌,
  if◌then◌else◌, ◌⊎◌, inl, inr,
}
use dot_sync_manager.Base.Int.{ℤ, pos, negsuc}
use dot_sync_manager.Base.Paths.{is_abs}
use dot_sync_manager.Base.Result.{Result, ◌>>◌, ok, err, require, reject}
use dot_sync_manager.Debouncer.Backoff.{FloatOps, Config, second}
use dot_sync_manager.Debouncer.Basic
use dot_sync_manager.Debouncer.Basic.{Debouncer}
use dot_sync_manager.Debouncer.Advanced.{Advanced, new_advanced}
use dot_sync_manager.Debouncer.Advanced.Queue
use dot_sync_manager.Debouncer.Interface.{DebouncerInterface, basic_debouncer, advanced_debouncer}
use dot_sync_manager.Git.Commit.{Repo}
use dot_sync_manager.Status.{new_status_manager}
use dot_sync_manager.Sync.{SyncService, state_stopped, Job}

-- Config. `backoff` is `none` where the pointer is nil.
pub record SyncConfig (Float : Type 0) : Type 0 where
  pub repo_path : Text
  pub debounce_delay : ℤ
  pub auto_sync_enabled : Bool
  pub ignore_file : Text
  pub backoff : Option (Config Float)
  pub version : Text
  pub config_path : Text

pub data NewError : Type 0 where
  config_required repo_path_required repo_path_relative watcher_failed : NewError

abbrev is_zero : ℤ → Bool
is_zero (pos n) = n == 0
is_zero (negsuc n) = false

module _ {Float : Type 0} where
  unfoldable pub validate : SyncConfig Float → Result NewError (Unit {0})
  unfolding is_abs
  validate c = do
    reject (is_empty c.repo_path) repo_path_required
    require (is_abs c.repo_path) repo_path_relative
    ok tt

  unfoldable pub set_defaults : SyncConfig Float → SyncConfig Float
  set_defaults c = record c {
    debounce_delay = if is_zero c.debounce_delay then pos (30 * second) else c.debounce_delay;
    ignore_file = if is_empty c.ignore_file then codes ".syncignore" else c.ignore_file;
  }

-- The debouncer that the service holds: which one it is tells whether the pointer to an advanced one is
-- set.
abbrev pub AnyDebouncer : Type 0 → Type 0
AnyDebouncer Float = Debouncer Job ⊎ Advanced Float Job

module _ {Float : Type 0} (ops : FloatOps Float) where
  -- New, where `watcher_ok` says whether fsnotify made a watcher. Its git manager is the repository.
  unfoldable pub new_sync_service :
      Option (SyncConfig Float)
      → Bool
      → ℕ
      → Repo
      → Result NewError (SyncService (AnyDebouncer Float))
  unfolding validate set_defaults
  new_sync_service none watcher_ok now repo = err config_required
  new_sync_service (some given) watcher_ok now repo = do
    validate given
    require watcher_ok watcher_failed
    ok (service (set_defaults given))
    where
      service : SyncConfig Float → SyncService (AnyDebouncer Float)
      service c = record {
        debouncer = elim c.backoff [
          | none ↦ inl (Basic.new c.debounce_delay)
          | some b ↦ inr (Queue.start (new_advanced ops b now))
        ];
        watcher = true;
        status_manager = new_status_manager c.version c.config_path now;
        state = state_stopped;
        ctx_cancelled = false;
        loops = 0;
        shutdown_once_done = false;
        last_shutdown_error = false;
        is_paused = false;
        auto_sync_enabled = c.auto_sync_enabled;
        callbacks = record { on_sync_start = false; on_sync_complete = false; on_error = false };
        repo = repo;
        notices = [];
      }

  -- The interface through which the service reaches either debouncer; a basic one ignores the clock.
  unfoldable pub add_any : ℕ × ℕ → Text → Job → AnyDebouncer Float → AnyDebouncer Float
  unfolding basic_debouncer advanced_debouncer
  add_any clock key job (inl d) = inl ((basic_debouncer {F = Job}).add tt key job d)
  add_any clock key job (inr d) = inr ((advanced_debouncer {F = Job} ops).add clock key job d)

  unfoldable pub cancel_any : Text → AnyDebouncer Float → AnyDebouncer Float
  unfolding basic_debouncer advanced_debouncer
  cancel_any key (inl d) = inl ((basic_debouncer {F = Job}).cancel key d)
  cancel_any key (inr d) = inr ((advanced_debouncer {F = Job} ops).cancel key d)

  unfoldable pub cancel_all_any : AnyDebouncer Float → AnyDebouncer Float
  unfolding basic_debouncer advanced_debouncer
  cancel_all_any (inl d) = inl ((basic_debouncer {F = Job}).cancel_all d)
  cancel_all_any (inr d) = inr ((advanced_debouncer {F = Job} ops).cancel_all d)

  unfoldable pub pending_any : AnyDebouncer Float → ℕ
  unfolding basic_debouncer advanced_debouncer
  pending_any (inl d) = (basic_debouncer {F = Job}).pending d
  pending_any (inr d) = (advanced_debouncer {F = Job} ops).pending d

  pub pending-cancel_all_any : (d : AnyDebouncer Float) → pending_any (cancel_all_any d) ≡ 0
  unfolding pending_any cancel_all_any
  pending-cancel_all_any (inl d) = (basic_debouncer {F = Job}).pending-cancel_all d
  pending-cancel_all_any (inr d) = (advanced_debouncer {F = Job} ops).pending-cancel_all d

  pub pending-add_any :
      (clock : ℕ × ℕ) (k : Text) (job : Job) (d : AnyDebouncer Float)
      → 1 ≤ pending_any (add_any clock k job d)
  unfolding pending_any add_any
  pending-add_any clock k job (inl d) = (basic_debouncer {F = Job}).pending-add tt k job d
  pending-add_any clock k job (inr d) = (advanced_debouncer {F = Job} ops).pending-add clock k job d

  unfoldable pub any_debouncer : DebouncerInterface (ℕ × ℕ) Job (AnyDebouncer Float)
  any_debouncer = record {
    add = add_any;
    cancel = cancel_any;
    cancel_all = cancel_all_any;
    pending = pending_any;
    pending-cancel_all = pending-cancel_all_any;
    pending-add = pending-add_any;
  }
