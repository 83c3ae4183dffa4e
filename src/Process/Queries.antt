-- ===== src/Process/Queries.antt =====
-- internal/process/daemon.go: IsDaemonRunningPIDOnly, IsDaemonRunning and GetDaemonPID.
pub mod Agreeing
pub mod Blocked
use dot_sync_manager.Base.{ℕ, ◌==◌, Option, none, some, Bool, true, false, not, if◌then◌else◌, Text}
use dot_sync_manager.Base.Result.{Result, ok, err}
use dot_sync_manager.Process.{Caller, read_pid, is_live, expected_name}
use dot_sync_manager.Process.Locks.{Runtime, remove_pid}

-- The daemon of the PID file, if it is running; the files of one that is not are removed.
unfoldable pub live_pid : Caller → Runtime → Option ℕ × Runtime
unfolding read_pid is_live remove_pid
live_pid c s = elim (read_pid s.pid_file) [
  | err _ ↦ (none, s)
  | ok info ↦ if is_live c info then (some info.pid, s) else (none, remove_pid c s)
]

-- IsDaemonRunningPIDOnly
unfoldable pub is_daemon_running_pid_only : Caller → Runtime → Bool × Runtime
unfolding live_pid
is_daemon_running_pid_only c s =
    let (found, s') = live_pid c s in (elim found [ none ↦ false | some _ ↦ true ], s')

pub data SearchError : Type 0 where
  no_process found_self not_running name_differs : SearchError

abbrev pub is_ok : Result SearchError ℕ → Bool
is_ok (ok _) = true
is_ok (err _) = false

-- The search for a process of a name.
unfoldable pub search : Caller → Text → Result SearchError ℕ
search c name = elim (c.find_process_by_name name) [
  | none ↦ err no_process
  | some pid ↦
      if pid == c.self
      then err found_self
      else if not (c.process_exists pid)
      then err not_running
      else if c.verify_process_name pid name
      then ok pid
      else err name_differs
]

-- The name that IsDaemonRunning searches for: that of the PID file, if it has one.
unfoldable pub search_name : Caller → Runtime → Text
unfolding read_pid expected_name
search_name c s = elim (read_pid s.pid_file) [
  | err _ ↦ c.default_process_name
  | ok info ↦ expected_name c.default_process_name info
]

-- IsDaemonRunning
unfoldable pub is_daemon_running : Caller → Runtime → Bool × Runtime
unfolding live_pid search search_name
is_daemon_running c s =
    let (found, s') = live_pid c s in
    elim found [ some _ ↦ (true, s') | none ↦ (is_ok (search c (search_name c s)), s') ]

-- GetDaemonPID
unfoldable pub get_daemon_pid : Caller → Runtime → Result SearchError ℕ × Runtime
unfolding live_pid search
get_daemon_pid c s =
    let (found, s') = live_pid c s in
    elim found [ some pid ↦ (ok pid, s') | none ↦ (search c c.default_process_name, s') ]
