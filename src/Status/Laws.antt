-- ===== src/Status/Laws.antt =====
-- The life of the socket server, and what the counters count.
use dot_sync_manager.Base.{
  ℕ, ◌+◌, ◌%◌, List, [], ◌∷◌, Option, none, some, Bool, true, false, ◌≡◌, arith, Text,
}
use dot_sync_manager.Status.{
  DaemonState, stopping, StatusManager, StartCalls, StartError, already_running, int64_mod,
  set_state, start, stop, update_pid, set_error, update_sync, set_watched_paths,
}

-- Start takes the running flag before it asks the system for anything and no failure gives it back: a
-- call that fails in this way leaves no socket, and every later Start is refused as already running.
start_failed_keeps_flag :
    {E : Type 0} (calls retry : StartCalls) (sm : StatusManager E) (e : StartError)
    → sm.is_running ≡ false
    → (start calls sm).1 ≡ some e
    → let sm' = (start calls sm).0 in
      (sm'.is_running ≡ true)
      × (sm'.socket ≡ sm.socket)
      × (sm'.accepting ≡ sm.accepting)
      × (start retry sm' ≡ (sm', some already_running))
unfolding start
start_failed_keeps_flag calls retry sm e off failed = ground arith

-- Stop closes the socket, cancels the context and is done once and for all: a second Stop changes
-- nothing, and where the goroutine left in time nothing accepts connections.
stop_closes :
    {E : Type 0} (left close again again' : Bool) (sm : StatusManager E)
    → sm.is_running ≡ true
    → sm.shutdown_done ≡ false
    → let sm' = (stop left close sm).0 in
      (sm'.socket ≡ false)
      × (sm'.ctx_cancelled ≡ true)
      × (sm'.is_running ≡ false)
      × (sm'.status.current_state ≡ stopping)
      × (left ≡ true → sm'.accepting ≡ false)
      × (stop again again' sm' ≡ (sm', none))
unfolding stop
stop_closes left close again again' sm on first = ground arith

-- A manager that was stopped can be started again and then opens a socket, but no goroutine accepts on
-- it, since the context stays cancelled, and no later Stop closes it.
pub restart_leaks_socket :
    {E : Type 0} (calls : StartCalls) (left close : Bool) (sm : StatusManager E)
    → sm.is_running ≡ false
    → sm.shutdown_done ≡ true
    → sm.ctx_cancelled ≡ true
    → (start calls sm).1 ≡ none
    → let sm' = (start calls sm).0 in
      (sm'.socket ≡ true)
      × (sm'.accepting ≡ false)
      × ((stop left close sm').1 ≡ none)
      × ((stop left close sm').0.socket ≡ true)
unfolding start stop
restart_leaks_socket calls left close sm off done cancelled ok = ground arith

-- Updates of the status between Start and Stop.
pub data Update (E : Type 0) : Type 0 where
  pid_update : ℕ → Update E
  state_update : DaemonState → Update E
  error_update : E → Update E
  sync_update : ℕ → List Text → Option E → Update E
  paths_update : List Text → Update E

module _ {E : Type 0} where
  unfoldable pub apply : Update E → StatusManager E → StatusManager E
  apply (pid_update pid) sm = update_pid pid sm
  apply (state_update state) sm = set_state state sm
  apply (error_update e) sm = set_error e sm
  apply (sync_update now files err) sm = update_sync now files err sm
  apply (paths_update paths) sm = set_watched_paths paths sm

  unfoldable pub apply_all : List (Update E) → StatusManager E → StatusManager E
  unfolding apply
  apply_all [] sm = sm
  apply_all (u ∷ us) sm = apply_all us (apply u sm)

  -- 1 for an update that reports a sync, and 1 for one that reports an error.
  unfoldable pub syncs : List (Update E) → ℕ
  syncs [] = 0
  syncs (sync_update now files err ∷ us) = syncs us + 1
  syncs (_ ∷ us) = syncs us

  unfoldable pub errors : List (Update E) → ℕ
  errors [] = 0
  errors (error_update e ∷ us) = errors us + 1
  errors (sync_update now files (some e) ∷ us) = errors us + 1
  errors (sync_update now files none ∷ us) = errors us
  errors (pid_update pid ∷ us) = errors us
  errors (state_update state ∷ us) = errors us
  errors (paths_update paths ∷ us) = errors us

  -- Over any updates the counters grow by the number of syncs and of errors reported, as int64 values.
  apply_all-counts :
      (us : List (Update E)) (sm : StatusManager E)
      → ((apply_all us sm).status.sync_count % int64_mod
          ≡ (sm.status.sync_count + syncs us) % int64_mod)
        × ((apply_all us sm).status.error_count % int64_mod
            ≡ (sm.status.error_count + errors us) % int64_mod)
  unfolding apply_all syncs errors update_pid set_state set_error update_sync set_watched_paths
  apply_all-counts [] sm = (omega arith, omega arith)
  apply_all-counts (pid_update pid ∷ us) sm = omega (arith, apply_all-counts us (update_pid pid sm))
  apply_all-counts (state_update state ∷ us) sm =
      omega (arith, apply_all-counts us (set_state state sm))
  apply_all-counts (error_update e ∷ us) sm = omega (arith, apply_all-counts us (set_error e sm))
  apply_all-counts (sync_update now files none ∷ us) sm =
      omega (arith, apply_all-counts us (update_sync now files none sm))
  apply_all-counts (sync_update now files (some e) ∷ us) sm =
      omega (arith, apply_all-counts us (update_sync now files (some e) sm))
  apply_all-counts (paths_update paths ∷ us) sm =
      omega (arith, apply_all-counts us (set_watched_paths paths sm))
