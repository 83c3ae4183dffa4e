-- ===== src/Tests/Locking.antt =====
-- internal/process with a PID file that a dead daemon left, and with one that holds no PID; and a lock of
-- internal/util.
use dot_sync_manager.Base.{ℕ, ◌==◌, [], ◌∷◌, none, some, true, false, ◌||◌, ◌≡◌, refl, arith, codes}
use dot_sync_manager.Base.Result.{ok}
use dot_sync_manager.Process.{Caller, read_pid, trim_right, cleanup_stale, pid_content}
use dot_sync_manager.Process.Decimal.{atoi, of_unsigned, of_digits}
use dot_sync_manager.Process.Locks.{
  locked, running, Runtime, acquire, prepare, write_pid_exclusive, phase_of, set_phase,
}
use dot_sync_manager.Process.Locks.Racing.{interleaved, query_splits_lock}
use dot_sync_manager.Process.Queries.{is_daemon_running_pid_only, is_daemon_running, get_daemon_pid}
use dot_sync_manager.Process.Queries.Agreeing.{started_is_seen}
use dot_sync_manager.Locks.{
  LockTable, new_file_lock, shared_lock, flock, try_lock, close_lock, is_file_locked,
}
use dot_sync_manager.Locks.Held.{exclusive_lock_excludes}

-- The processes 7 and 8 run, each under the name dsm.
abbrev caller : ℕ → Caller
caller p = record {
  self = p;
  process_exists = λ q. (q == 7) || (q == 8);
  verify_process_name = λ q name. true;
  find_process_by_name = λ name. none;
  default_process_name = codes "dsm";
  removes = true;
}

abbrev left_over : Runtime
left_over = record { pid_file = some (codes "3:dsm"); lock_file = none; fresh = 0; holders = [] }

abbrev starting : Runtime
starting = record {
  pid_file = some (codes "3:dsm");
  lock_file = some 0;
  fresh = 1;
  holders = (record { pid = 7; lock_id = 0; phase = locked }) ∷ [];
}

query_splits_lock_example :
    let t = interleaved (caller 9) (caller 7) (caller 8) starting in
    (phase_of 7 t.holders ≡ some running) × (phase_of 8 t.holders ≡ some running)
unfolding read_pid atoi of_unsigned of_digits
query_splits_lock_example =
    query_splits_lock (caller 9) (caller 7) (caller 8) starting 0
      (record { pid = 3; exe_name = codes "dsm" }) refl refl refl refl (λ e. absurd (omega arith))

abbrev started : Runtime
started = record {
  pid_file = some (codes "7:dsm");
  lock_file = some 0;
  fresh = 1;
  holders = (record { pid = 7; lock_id = 0; phase = running }) ∷ [];
}

started_is_seen_example :
    (is_daemon_running_pid_only (caller 8) started ≡ (true, started))
    × (is_daemon_running (caller 8) started ≡ (true, started))
    × (get_daemon_pid (caller 8) started ≡ (ok 7, started))
unfolding write_pid_exclusive acquire prepare cleanup_stale read_pid set_phase pid_content atoi
    of_unsigned of_digits trim_right
started_is_seen_example =
    started_is_seen (caller 7) (caller 8) true left_over started refl (omega arith) refl refl refl
      refl refl

abbrev damaged : Runtime
damaged = record { pid_file = some (codes "dsm"); lock_file = none; fresh = 0; holders = [] }

abbrev unlocked : LockTable
unlocked = record { exclusive = none; shared = []; next = 4 }

abbrev taken : LockTable
taken = record { exclusive = some 4; shared = []; next = 5 }

exclusive_lock_excludes_example :
    ((try_lock true shared_lock new_file_lock taken).0 ≡ false)
    × ((is_file_locked true taken).0 ≡ true)
    × ((close_lock (record { file = some 4; locked = true }) taken).1.exclusive
        ≡ unlocked.exclusive)
    × ((close_lock (record { file = some 4; locked = true }) taken).1.shared ≡ unlocked.shared)
unfolding try_lock flock
exclusive_lock_excludes_example =
    exclusive_lock_excludes true true shared_lock unlocked taken
      (record { file = some 4; locked = true }) refl
