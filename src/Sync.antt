-- ===== src/Sync.antt =====
-- internal/sync/service.go: the sync service. Its compare-and-swap, its sync.Once and its mutexes make
-- the parts of Start and Stop below single steps. The debouncer is reached through DebouncerInterface,
-- and through `AdvancedCalls` where the service keeps a pointer to an AdvancedDebouncer.
pub mod Performing
pub mod Pairing
pub mod Lifecycle
pub mod Reachable
pub mod Watch
pub mod Settings
pub mod Wiring
use dot_sync_manager.Base.{
  ℕ, ◌+◌, ◌-◌, List, [], ◌∷◌, ◌++◌, Option, none, some, Bool, true, false, not, ◌&&◌, ◌||◌,
  if◌then◌else◌, Text, codes, eq_text, is_some, ◌≡◌,
}
use dot_sync_manager.Base.Paths.{base_name}
use dot_sync_manager.Base.Result.{ok, err}
use dot_sync_manager.Debouncer.Interface.{DebouncerInterface}
use dot_sync_manager.Git.Commit.{Repo, Calls, GitError, cancelled, stage_commit_and_push}
use dot_sync_manager.Status.{
  StatusManager, StartCalls, syncing, set_state, set_error, update_sync, update_pid,
  set_watched_paths,
}
use dot_sync_manager.Status

-- ServiceState
pub data ServiceState : Type 0 where
  state_stopped state_running state_stopping : ServiceState

-- The closures that the service gives to its debouncer: performSync and performManualSync.
pub data Job : Type 0 where
  auto_sync manual_sync_job : Job

pub data SyncError : Type 0 where
  sync_git manual_sync_failed : GitError → SyncError
  sync_panic watch_root_failed watch_recursive_failed watcher_error : SyncError

-- The calls of the three event callbacks.
pub data Notice : Type 0 where
  sync_start : Notice
  sync_complete : List Text → Option SyncError → Notice
  error_notice : SyncError → Notice

abbrev pub notice_if : Bool → Notice → List Notice
notice_if set n = if set then n ∷ [] else []

-- Which event callbacks are set.
pub record Callbacks : Type 0 where
  pub on_sync_start : Bool
  pub on_sync_complete : Bool
  pub on_error : Bool

-- `watcher` is false once the field is nil. `loops` counts the goroutines of eventLoop, those that
-- shutdownWG waits for; `notices` lists the calls of the event callbacks.
pub record SyncService (D : Type 0) : Type 0 where
  pub debouncer : D
  pub watcher : Bool
  pub status_manager : StatusManager SyncError
  pub state : ServiceState
  pub ctx_cancelled : Bool
  pub loops : ℕ
  pub shutdown_once_done : Bool
  pub last_shutdown_error : Bool
  pub is_paused : Bool
  pub auto_sync_enabled : Bool
  pub callbacks : Callbacks
  pub repo : Repo
  pub notices : List Notice

module _ {D : Type 0} where
  unfoldable pub is_running : SyncService D → Bool
  is_running s = elim s.state [ state_running ↦ true | _ ↦ false ]

  unfoldable pub pause_sync : SyncService D → SyncService D
  pause_sync s = record s { is_paused = true }

  unfoldable pub resume_sync : SyncService D → SyncService D
  resume_sync s = record s { is_paused = false }

  unfoldable pub set_event_callbacks : Callbacks → SyncService D → SyncService D
  set_event_callbacks callbacks s = record s { callbacks = callbacks }

  unfoldable pub on_status :
      (StatusManager SyncError → StatusManager SyncError) → SyncService D → SyncService D
  on_status f s = record s { status_manager = f s.status_manager }

  -- A callback is called if it is set.
  unfoldable pub notify_sync_start : SyncService D → SyncService D
  notify_sync_start s = record s {
    notices = s.notices ++ notice_if s.callbacks.on_sync_start sync_start;
  }

  unfoldable pub notify_sync_complete : List Text → Option SyncError → SyncService D → SyncService D
  notify_sync_complete files e s = record s {
    notices = s.notices ++ notice_if s.callbacks.on_sync_complete (sync_complete files e);
  }

  unfoldable pub notify_error : SyncError → SyncService D → SyncService D
  notify_error e s = record s {
    notices = s.notices ++ notice_if s.callbacks.on_error (error_notice e);
  }

-- What a sync finds of the world: the clock as text and as a number, what git answers, and whether the
-- start callback panics.
pub record SyncWorld : Type 0 where
  pub stamp : Text
  pub now : ℕ
  pub calls : Calls
  pub start_panics : Bool

module _ {D : Type 0} where
  -- The recovery of performManualSync.
  unfoldable pub recover_sync : SyncService D → SyncService D
  unfolding on_status notify_error notify_sync_complete
  recover_sync s = notify_sync_complete [] (some sync_panic) (
      notify_error sync_panic
        (on_status (λ sm. set_state Status.running (set_error sync_panic sm)) s))

  -- What follows StageCommitAndPush: its error or none, with the files that it reports.
  unfoldable pub finish_sync : ℕ → List Text → Option GitError → SyncService D → SyncService D
  unfolding on_status notify_error notify_sync_complete
  finish_sync now files none s =
      notify_sync_complete files none
        (on_status (λ sm. set_state Status.running (update_sync now files none sm)) s)
  finish_sync now files (some cancelled) s =
      notify_sync_complete files none
        (on_status (λ sm. update_sync now files (some (sync_git cancelled)) sm) s)
  finish_sync now files (some e) s = notify_sync_complete files (some (sync_git e)) (
      notify_error (manual_sync_failed e) (
        on_status
          (λ sm.
            set_state Status.running
              (set_error (manual_sync_failed e) (update_sync now files (some (sync_git e)) sm)))
          s))

module _ {D : Type 0} (author_name author_email : Text) where
  unfoldable pub perform_manual_sync : SyncWorld → SyncService D → SyncService D
  unfolding on_status notify_sync_start recover_sync finish_sync stage_commit_and_push
  perform_manual_sync w s =
      let s₁ = notify_sync_start (on_status (set_state syncing) s) in
      let (repo, result) = stage_commit_and_push author_name author_email w.calls w.stamp s.repo in
      if w.start_panics then recover_sync s₁ else elim result [
        | ok files ↦ finish_sync w.now files none (record s₁ { repo = repo })
        | err e ↦ finish_sync w.now [] (some e) (record s₁ { repo = repo })
      ]

  unfoldable pub perform_sync : SyncWorld → SyncService D → SyncService D
  unfolding perform_manual_sync
  perform_sync w s =
      if not s.auto_sync_enabled then s else if s.is_paused then s else perform_manual_sync w s

  -- A debounced or queued closure runs.
  unfoldable pub run_job : Job → SyncWorld → SyncService D → SyncService D
  unfolding perform_sync perform_manual_sync
  run_job auto_sync w s = perform_sync w s
  run_job manual_sync_job w s = perform_manual_sync w s

module _ {D : Type 0} where
  -- An event loop finds the context cancelled or the watcher gone, and returns.
  unfoldable pub loop_round : SyncService D → SyncService D
  loop_round s = if s.ctx_cancelled || not s.watcher then record s { loops = s.loops - 1 } else s

  -- Stop after its wait, which ended with the event loop or with the caller's context.
  unfoldable pub finish_stop : Bool → SyncService D → SyncService D
  finish_stop failed s = record s {
    state = state_stopped;
    last_shutdown_error = if failed then true else s.last_shutdown_error;
  }

pub data ManualError : Type 0 where
  not_running : ServiceState → ManualError
  trigger_failed : ManualError

pub data StartError : Type 0 where
  already_running stop_race not_restartable status_failed watch_failed recursive_failed : StartError

-- What Start finds of the world.
pub record StartWorld : Type 0 where
  pub status_calls : StartCalls
  pub pid : ℕ
  pub add_root_ok : Bool
  pub watch_ok : Bool
  pub watched : List Text
  pub left_in_time : Bool
  pub close_ok : Bool

-- The methods of AdvancedDebouncer that the service calls where it keeps a pointer to one: Stop and
-- TriggerManualSync, which answer whether they succeeded. Stop arms no timer.
pub record AdvancedCalls {Env D : Type 0} (I : DebouncerInterface Env Job D) : Type 0 where
  pub stop_advanced : D → D × Bool
  pub trigger_manual_sync : Job → D → D × Bool
  pub pending-stop : (d : D) → I.pending d ≡ 0 → I.pending (stop_advanced d).0 ≡ 0

module _ {Env D : Type 0} (I : DebouncerInterface Env Job D)
    (advanced : Option (AdvancedCalls I)) where
  -- CancelAll, then Stop of an advanced debouncer. The flag is false where Stop failed.
  unfoldable pub quiet_debouncer : D → D × Bool
  quiet_debouncer d = elim advanced [
    | none ↦ (I.cancel_all d, true)
    | some a ↦ a.stop_advanced (I.cancel_all d)
  ]

  -- rollbackState, whose event loop flag is false at each of its calls.
  unfoldable pub rollback_state : SyncService D → SyncService D
  unfolding quiet_debouncer
  rollback_state s = record s {
    state = state_stopped;
    watcher = false;
    debouncer = (quiet_debouncer s.debouncer).0;
    shutdown_once_done = false;
  }

  -- The failure of watcher.Add or of the recursive watch.
  unfoldable pub abandon_start : StartWorld → SyncError → SyncService D → SyncService D
  unfolding on_status rollback_state
  abandon_start w e s =
      rollback_state
        (on_status (λ sm. (Status.stop w.left_in_time w.close_ok (set_error e sm)).0) s)

  unfoldable pub start : StartWorld → SyncService D → SyncService D × Option StartError
  unfolding on_status rollback_state abandon_start
  start w s = elim s.state [
    | state_running ↦ (s, some already_running)
    | state_stopping ↦ (s, some stop_race)
    | state_stopped ↦
        let s₁ : SyncService D = record s { state = state_running } in
        let (sm, failed) = Status.start w.status_calls s.status_manager in
        let s₂ = on_status (λ _. update_pid w.pid sm) s₁ in
        if not s.watcher
        then (rollback_state s₁, some not_restartable)
        else if is_some failed
        then (on_status (λ _. sm) s₁, some status_failed)
        else if not w.add_root_ok
        then (abandon_start w watch_root_failed s₂, some watch_failed)
        else if not w.watch_ok
        then (abandon_start w watch_recursive_failed s₂, some recursive_failed)
        else (
          record (on_status (λ sm'. set_state Status.running (set_watched_paths w.watched sm'))
              s₂) { loops = s.loops + 1 },
          none,
        )
  ]

  -- The body of shutdownOnce.Do, with whether it collected an error.
  unfoldable pub shut_down : StartWorld → Bool → SyncService D → SyncService D × Bool
  unfolding quiet_debouncer
  shut_down w watcher_ok s =
      let (sm, status_error) = Status.stop w.left_in_time w.close_ok s.status_manager in
      let (d, advanced_ok) = quiet_debouncer s.debouncer in
      (
        record s {
          shutdown_once_done = true;
          ctx_cancelled = true;
          status_manager = sm;
          debouncer = d;
          watcher = false;
        },
        is_some status_error || not advanced_ok || (s.watcher && not watcher_ok),
      )

  -- Stop up to its wait for the event loop. The answer is `none` where the state was not Running.
  unfoldable pub begin_stop : StartWorld → Bool → SyncService D → SyncService D × Option Bool
  unfolding shut_down
  begin_stop w watcher_ok s = elim s.state [
    | state_running ↦
        let s₁ : SyncService D = record s { state = state_stopping } in
        let (s₂, failed) = shut_down w watcher_ok s₁ in
        if s.shutdown_once_done then (s₁, some false) else (s₂, some failed)
    | _ ↦ (s, none)
  ]

  -- ManualSync up to the wait for an advanced debouncer's answer.
  unfoldable pub manual_sync :
      Text → Text → SyncWorld → SyncService D → SyncService D × Option ManualError
  unfolding is_running perform_manual_sync
  manual_sync author_name author_email w s =
      if not (is_running s) then (s, some (not_running s.state)) else elim advanced [
        | none ↦ (perform_manual_sync author_name author_email w s, none)
        | some a ↦
            let (d, accepted) = a.trigger_manual_sync manual_sync_job s.debouncer in
            (record s { debouncer = d }, if accepted then none else some trigger_failed)
      ]

  -- handleEvent, for the name of the event. `matches` is the ignore parser's Match; watching a new
  -- directory changes only the operating system's watcher.
  unfoldable pub handle_event : (Text → Bool) → Env → Text → SyncService D → SyncService D
  unfolding base_name
  handle_event matches env name s =
      if matches name || eq_text (base_name name) (codes ".git")
      then s
      else record s { debouncer = I.add env (codes "sync") auto_sync s.debouncer }
