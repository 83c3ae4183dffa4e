-- ===== src/Process/Queries/Agreeing.antt =====
-- The queries agree with each other and with WritePIDExclusive.
use dot_sync_manager.Base.{
  ℕ, ◌==◌, ◌^◌, ◌<◌, none, some, Bool, true, false, not, ◌&&◌, is_empty, is_some, ◌≡◌, ◌∙◌, refl,
  ap, arith, inl, inr, Option-cases,
}
use dot_sync_manager.Base.Result.{ok}
use dot_sync_manager.Process.{
  Caller, PidInfo, read_pid, is_live, expected_name, trim_right, pid_content,
}
use dot_sync_manager.Process.Reading.{read_pid-pid_content}
use dot_sync_manager.Process.Locks.{Runtime, write_pid_exclusive, acquire, prepare, write_pid}
use dot_sync_manager.Process.Queries.{
  live_pid, is_daemon_running_pid_only, search, search_name, is_daemon_running, is_ok,
  get_daemon_pid,
}

-- The queries by what the PID file shows.
queries_found :
    (c : Caller) (s : Runtime) (pid : ℕ)
    → (live_pid c s).0 ≡ some pid
    → (get_daemon_pid c s ≡ (ok pid, (live_pid c s).1))
      × (is_daemon_running c s ≡ (true, (live_pid c s).1))
unfolding get_daemon_pid is_daemon_running
queries_found c s pid found = (rw (found, get_daemon_pid) refl, rw (found, is_daemon_running) refl)

queries_search :
    (c : Caller) (s : Runtime)
    → (live_pid c s).0 ≡ none
    → search_name c s ≡ c.default_process_name
    → (get_daemon_pid c s ≡ (search c c.default_process_name, (live_pid c s).1))
      × (is_daemon_running c s ≡ (is_ok (search c c.default_process_name), (live_pid c s).1))
unfolding get_daemon_pid is_daemon_running
queries_search c s none_found same =
    (rw (none_found, get_daemon_pid) refl, rw (none_found, is_daemon_running, same) refl)

pid_only_lem :
    (c : Caller) (s : Runtime)
    → is_daemon_running_pid_only c s ≡ (is_some (live_pid c s).0, (live_pid c s).1)
unfolding is_daemon_running_pid_only
pid_only_lem c s = elim (Option-cases (live_pid c s).0) [
  | inl none_found ↦ ground arith
  | inr (pid, found) ↦ ground arith
]

-- IsDaemonRunning and GetDaemonPID find a daemon in the same cases and leave the same files, where the PID
-- file names no other program than that of the caller; and both find the one that the PID file alone shows.
queries_agree :
    (c : Caller) (s : Runtime)
    → search_name c s ≡ c.default_process_name
    → (is_ok (get_daemon_pid c s).0 ≡ (is_daemon_running c s).0)
      × ((get_daemon_pid c s).1 ≡ (is_daemon_running c s).1)
      × ((is_daemon_running_pid_only c s).1 ≡ (is_daemon_running c s).1)
      × (((is_daemon_running_pid_only c s).0 && not (is_daemon_running c s).0) ≡ false)
queries_agree c s same = elim (Option-cases (live_pid c s).0) [
  | inr (pid, found) ↦
      let (gets, runs) = queries_found c s pid found in
      rw (gets, runs, pid_only_lem c s, found) (refl, refl, refl, refl)
  | inl none_found ↦
      let (gets, runs) = queries_search c s none_found same in
      rw (gets, runs, pid_only_lem c s, none_found) (refl, refl, refl, refl)
]

-- A start that succeeds was of a process with a PID, and wrote it.
started :
    (c : Caller) (works : Bool) (s t : Runtime)
    → write_pid_exclusive c works s ≡ (none, t)
    → (0 < c.self) × (t.pid_file ≡ some (pid_content c.self c.default_process_name))
unfolding write_pid_exclusive write_pid
started c works s t done =
    let locks = acquire c.self s in
    elim (Option-cases (prepare c locks.1).0) [
      | inr (e, failed) ↦ absurd (ground arith)
      | inl clean ↦ (ground arith, ground arith)
    ]

seen :
    (d : Caller) (info : PidInfo) (t : Runtime)
    → read_pid t.pid_file ≡ ok info
    → is_live d info ≡ true
    → live_pid d t ≡ (some info.pid, t)
unfolding live_pid
seen d info t reads live = rw (reads, live_pid, live) refl

-- After WritePIDExclusive succeeds, for a PID of int64 and a name that is not empty and ends in no space,
-- every other process that sees its process run under that name finds it by each of the three queries,
-- which leave the files alone.
pub started_is_seen :
    (c d : Caller) (works : Bool) (s t : Runtime)
    → write_pid_exclusive c works s ≡ (none, t)
    → c.self < 2 ^ 63
    → is_empty c.default_process_name ≡ false
    → trim_right c.default_process_name ≡ c.default_process_name
    → (c.self == d.self) ≡ false
    → d.process_exists c.self ≡ true
    → d.verify_process_name c.self c.default_process_name ≡ true
    → (is_daemon_running_pid_only d t ≡ (true, t))
      × (is_daemon_running d t ≡ (true, t))
      × (get_daemon_pid d t ≡ (ok c.self, t))
unfolding is_daemon_running_pid_only is_live expected_name
started_is_seen c d works s t done low named plain other lives is_named =
    let (positive, file) = started c works s t done in
    let info : PidInfo = record { pid = c.self; exe_name = c.default_process_name } in
    let reads : read_pid t.pid_file ≡ ok info =
      ap read_pid file
      ∙ read_pid-pid_content c.self c.default_process_name positive low named plain in
    let live : is_live d info ≡ true = ground arith in
    let found = seen d info t reads live in
    let (gets, runs) = queries_found d t c.self (ap (λ r. r.0) found) in
    (
      rw (is_daemon_running_pid_only, found) refl,
      runs ∙ ap (λ r. (true, r.1)) found,
      gets ∙ ap (λ r. (ok c.self, r.1)) found,
    )
