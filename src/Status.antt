-- ===== src/Status.antt =====
-- internal/status/status.go: the status that the daemon reports, and the life of the socket server that
-- reports it. A method holds the mutex throughout, so it is one step; what the operating system answers
-- is an argument. `E` is the type of the errors that the service reports.
pub mod Laws
use dot_sync_manager.Base.{
  ℕ, ◌+◌, ◌-◌, ◌%◌, ◌^◌, List, [], Option, none, some, Bool, true, false, not, if◌then◌else◌, Text,
  length, ltb,
}

-- DaemonState
pub data DaemonState : Type 0 where
  starting running syncing idle stopping errored : DaemonState

-- The text of LastSyncResult: "error: …", "synced n files", "no changes to sync", or "" at the start.
pub data SyncResult (E : Type 0) : Type 0 where
  unset no_changes : SyncResult E
  failed : E → SyncResult E
  synced : ℕ → SyncResult E

-- DaemonStatus. The counters are int64 values, kept as their bit patterns.
pub record DaemonStatus (E : Type 0) : Type 0 where
  pub pid : ℕ
  pub uptime : ℕ
  pub last_sync : Option ℕ
  pub last_sync_result : SyncResult E
  pub files_synced : ℕ
  pub current_state : DaemonState
  pub version : Text
  pub config_path : Text
  pub start_time : ℕ
  pub sync_count : ℕ
  pub error_count : ℕ
  pub last_error : Option E
  pub watched_paths : List Text

-- StatusManager. `socket` is not nil while it is true, and `accepting` while the goroutine of
-- acceptConnections runs.
pub record StatusManager (E : Type 0) : Type 0 where
  pub status : DaemonStatus E
  pub socket : Bool
  pub ctx_cancelled : Bool
  pub is_running : Bool
  pub accepting : Bool
  pub shutdown_done : Bool

abbrev pub int64_mod : ℕ
int64_mod = 2 ^ 64

-- atomic.AddInt64(&n, 1)
unfoldable pub increment : ℕ → ℕ
increment n = (n + 1) % int64_mod

pub data StartError : Type 0 where
  already_running remove_failed mkdir_failed listen_failed chmod_failed : StartError

-- Which system calls of Start succeed.
pub record StartCalls : Type 0 where
  pub remove_ok : Bool
  pub mkdir_ok : Bool
  pub listen_ok : Bool
  pub chmod_ok : Bool

-- The errors that Stop collects: the goroutine did not leave in time, the socket did not close.
pub data StopError : Type 0 where
  wait_timeout close_failed : StopError

module _ {E : Type 0} where
  unfoldable pub new_status_manager : Text → Text → ℕ → StatusManager E
  new_status_manager version config_path now = record {
    status = record {
      pid = 0;
      uptime = 0;
      last_sync = none;
      last_sync_result = unset;
      files_synced = 0;
      current_state = starting;
      version = version;
      config_path = config_path;
      start_time = now;
      sync_count = 0;
      error_count = 0;
      last_error = none;
      watched_paths = [];
    };
    socket = false;
    ctx_cancelled = false;
    is_running = false;
    accepting = false;
    shutdown_done = false;
  }

  -- setState and SetState
  unfoldable pub set_state : DaemonState → StatusManager E → StatusManager E
  set_state state sm = record sm { status = record sm.status { current_state = state } }

  -- The goroutine that Start launches returns at once where the context is cancelled.
  unfoldable pub start : StartCalls → StatusManager E → StatusManager E × Option StartError
  unfolding set_state
  start calls sm =
      let claimed : StatusManager E = record sm { is_running = true } in
      if sm.is_running
      then (sm, some already_running)
      else if not calls.remove_ok
      then (claimed, some remove_failed)
      else if not calls.mkdir_ok
      then (claimed, some mkdir_failed)
      else if not calls.listen_ok
      then (claimed, some listen_failed)
      else if not calls.chmod_ok
      then (claimed, some chmod_failed)
      else (
        set_state running (record claimed { socket = true; accepting = not sm.ctx_cancelled }),
        none,
      )

  -- The body of shutdownOnce.Do: the goroutine leaves in time or not, the socket closes or not.
  unfoldable pub shut_down : Bool → Bool → StatusManager E → StatusManager E × Option StopError
  unfolding set_state
  shut_down left_in_time close_ok sm =
      let stopped : StatusManager E = record (set_state stopping sm) {
        shutdown_done = true;
        ctx_cancelled = true;
        accepting = if left_in_time then false else sm.accepting;
        socket = false;
      } in
      (
        stopped,
        if not left_in_time
            then some wait_timeout
            else if sm.socket
            then if close_ok then none else some close_failed
            else none,
      )

  unfoldable pub stop : Bool → Bool → StatusManager E → StatusManager E × Option StopError
  unfolding shut_down
  stop left_in_time close_ok sm =
      let released : StatusManager E = record sm { is_running = false } in
      if not sm.is_running
      then (sm, none)
      else if sm.shutdown_done
      then (released, none)
      else shut_down left_in_time close_ok released

  unfoldable pub update_pid : ℕ → StatusManager E → StatusManager E
  update_pid pid sm = record sm { status = record sm.status { pid = pid } }

  unfoldable pub set_error : E → StatusManager E → StatusManager E
  unfolding increment
  set_error e sm = record sm {
    status = record sm.status {
      current_state = errored;
      last_error = some e;
      error_count = increment sm.status.error_count;
    };
  }

  -- The result text of UpdateSync.
  unfoldable pub sync_result : List Text → Option E → SyncResult E
  sync_result files (some e) = failed e
  sync_result files none = if ltb 0 (length files) then synced (length files) else no_changes

  unfoldable pub update_sync : ℕ → List Text → Option E → StatusManager E → StatusManager E
  unfolding increment sync_result
  update_sync now files err sm = record sm {
    status = record sm.status {
      last_sync = some now;
      files_synced = length files;
      sync_count = increment sm.status.sync_count;
      last_sync_result = sync_result files err;
      error_count = elim err [
        | none ↦ sm.status.error_count
        | some _ ↦ increment sm.status.error_count
      ];
    };
  }

  unfoldable pub set_watched_paths : List Text → StatusManager E → StatusManager E
  set_watched_paths paths sm = record sm { status = record sm.status { watched_paths = paths } }

  unfoldable pub get_status : ℕ → StatusManager E → DaemonStatus E
  get_status now sm = record sm.status { uptime = now - sm.status.start_time }
