-- ===== src/Process.antt =====
-- internal/process/daemon.go: the PID file of the daemon and its lock.
-- The texts are ASCII. flock is a third party's: a lock belongs to the file that was opened, not to its path.
pub mod Decimal
pub mod Locks
pub mod Queries
pub mod Reading
use dot_sync_manager.Base.{
  ℕ, ◌==◌, [], ◌∷◌, ◌++◌, Option, none, some, Bool, not, ◌&&◌, ◌||◌, if◌then◌else◌, leb, Text,
  is_empty,
}
use dot_sync_manager.Base.Result.{Result, ok, err}
use dot_sync_manager.Process.Decimal.{decimal, atoi}

pub record PidInfo : Type 0 where
  pub pid : ℕ
  pub exe_name : Text

pub data PidError : Type 0 where
  no_file invalid_pid missing_name : PidError

-- What a process asks of the system: its own PID, whether processes exist and have a name, the search for a
-- process by name, its DefaultProcessName, and whether os.Remove works.
pub record Caller : Type 0 where
  pub self : ℕ
  pub process_exists : ℕ → Bool
  pub verify_process_name : ℕ → Text → Bool
  pub find_process_by_name : Text → Option ℕ
  pub default_process_name : Text
  pub removes : Bool

abbrev pub is_space : ℕ → Bool
is_space b = (b == 32) || (leb 9 b && leb b 13)

unfoldable pub trim_left : Text → Text
trim_left [] = []
trim_left (b ∷ s) = let rest = trim_left s in if is_space b then rest else b ∷ s

unfoldable pub trim_right : Text → Text
trim_right [] = []
trim_right (b ∷ s) = let rest = trim_right s in if is_empty rest && is_space b then [] else b ∷ rest

-- strings.SplitN(s, ":", 2)
unfoldable pub split_colon : Text → Text × Option Text
split_colon [] = ([], none)
split_colon (b ∷ s) =
    let (head, tail) = split_colon s in if b == b':' then ([], some s) else (b ∷ head, tail)

-- The parts of a PID file.
unfoldable pub parse_pid : Text × Option Text → Result PidError PidInfo
unfolding atoi
parse_pid (head, tail) = elim (atoi head) [
  | none ↦ err invalid_pid
  | some pid ↦ if pid == 0 then err invalid_pid else elim tail [
    | none ↦ ok (record { pid = pid; exe_name = [] })
    | some name ↦
        if is_empty name then err missing_name else ok (record { pid = pid; exe_name = name })
  ]
]

-- readPIDFromPath, of a file that can be read if it is there
unfoldable pub read_pid : Option Text → Result PidError PidInfo
unfolding parse_pid split_colon trim_left trim_right
read_pid none = err no_file
read_pid (some content) = parse_pid (split_colon (trim_right (trim_left content)))

-- "%d:%s"
unfoldable pub pid_content : ℕ → Text → Text
unfolding decimal
pid_content pid name = decimal pid ++ b':' ∷ name

pub data CleanupError : Type 0 where
  unreadable : PidError → CleanupError
  not_removed : CleanupError
  already_running : ℕ → CleanupError

-- The name that the process of a PID file is to have.
unfoldable pub expected_name : Text → PidInfo → Text
expected_name fallback info = if is_empty info.exe_name then fallback else info.exe_name

-- The daemon of a PID file, other than the caller, is running.
unfoldable pub is_live : Caller → PidInfo → Bool
unfolding expected_name
is_live c info =
    not (info.pid == c.self)
    && c.process_exists info.pid
    && c.verify_process_name info.pid (expected_name c.default_process_name info)

-- cleanupStalePIDFile: its error, and the PID file after it.
unfoldable pub cleanup_stale : Caller → Option Text → Option CleanupError × Option Text
unfolding read_pid is_live
cleanup_stale c file = elim (read_pid file) [
  | err e ↦ elim e [
    | no_file ↦ (none, file)
    | invalid_pid ↦ (some (unreadable invalid_pid), file)
    | missing_name ↦ (some (unreadable missing_name), file)
  ]
  | ok info ↦
      if is_live c info
      then (some (already_running info.pid), file)
      else if c.removes
      then (none, none)
      else (some not_removed, file)
]
