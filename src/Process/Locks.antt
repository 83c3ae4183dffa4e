-- ===== src/Process/Locks.antt =====
-- internal/process/daemon.go: WritePIDExclusive, Unlock and RemovePID, on the files that the processes of a user
-- share. WritePIDExclusive is three steps, between which other processes can act.
pub mod Exclusive
pub mod Racing
use dot_sync_manager.Base.{
  ℕ, suc, ◌==◌, List, [], ◌∷◌, Option, none, some, Bool, true, false, not, ◌||◌, if◌then◌else◌,
  Text, ◌≡◌,
}
use dot_sync_manager.Process.{Caller, CleanupError, cleanup_stale, pid_content}

-- How far a process has come that holds the lock.
pub data Phase : Type 0 where
  locked cleaned running : Phase

-- A process that holds the lock of a lock file.
pub record Holder : Type 0 where
  pub pid : ℕ
  pub lock_id : ℕ
  pub phase : Phase

-- The PID file, the file that the lock's path leads to, a number that no lock file had yet, and who holds locks.
pub record Runtime : Type 0 where
  pub pid_file : Option Text
  pub lock_file : Option ℕ
  pub fresh : ℕ
  pub holders : List Holder

unfoldable pub is_held : ℕ → List Holder → Bool
is_held i [] = false
is_held i (h ∷ hs) = (h.lock_id == i) || is_held i hs

unfoldable pub without_pid : ℕ → List Holder → List Holder
without_pid p [] = []
without_pid p (h ∷ hs) = let rest = without_pid p hs in if h.pid == p then rest else h ∷ rest

unfoldable pub set_phase : ℕ → Phase → List Holder → List Holder
set_phase p phase [] = []
set_phase p phase (h ∷ hs) =
    (if h.pid == p then record h { phase = phase } else h) ∷ set_phase p phase hs

unfoldable pub phase_of : ℕ → List Holder → Option Phase
phase_of p [] = none
phase_of p (h ∷ hs) = if h.pid == p then some h.phase else phase_of p hs

-- An attempt of TryLockContext: it opens the lock file, makes it where it is missing, and locks what it opened
-- unless another process has.
unfoldable pub acquire : ℕ → Runtime → Bool × Runtime
unfolding is_held
acquire p s = elim s.lock_file [
  | some i ↦ if is_held i s.holders then (false, s) else (
    true,
    record s { holders = (record { pid = p; lock_id = i; phase = locked }) ∷ s.holders },
  )
  | none ↦ (
    true,
    record s {
      lock_file = some s.fresh;
      fresh = suc s.fresh;
      holders = (record { pid = p; lock_id = s.fresh; phase = locked }) ∷ s.holders;
    },
  )
]

-- The lock is released and the lock file removed.
unfoldable pub release : Caller → Runtime → Runtime
unfolding without_pid
release c s = record s {
  holders = without_pid c.self s.holders;
  lock_file = if c.removes then none else s.lock_file;
}

-- The call of cleanupStalePIDFile in WritePIDExclusive.
unfoldable pub prepare : Caller → Runtime → Option CleanupError × Runtime
unfolding cleanup_stale set_phase release
prepare c s =
    let (failed, file) = cleanup_stale c s.pid_file in
    elim failed [
      | none ↦ (none, record s { pid_file = file; holders = set_phase c.self cleaned s.holders })
      | some e ↦ (some e, release c (record s { pid_file = file }))
    ]

-- The write of the PID file, where `works` says whether the system writes it.
unfoldable pub write_pid : Caller → Bool → Runtime → Bool × Runtime
unfolding pid_content set_phase release
write_pid c works s =
    if works
    then (
      true,
      record s {
        pid_file = some (pid_content c.self c.default_process_name);
        holders = set_phase c.self running s.holders;
      },
    )
    else (false, release c s)

pub data StartError : Type 0 where
  bad_pid daemon_already_running write_failed : StartError
  cleanup_failed : CleanupError → StartError

-- WritePIDExclusive of a process, with nothing in between.
unfoldable pub write_pid_exclusive : Caller → Bool → Runtime → Option StartError × Runtime
unfolding acquire prepare write_pid
write_pid_exclusive c works s =
    let (locks, s₁) = acquire c.self s in
    let (failed, s₂) = prepare c s₁ in
    let (written, s₃) = write_pid c works s₂ in
    if c.self == 0
    then (some bad_pid, s)
    else if not locks
    then (some daemon_already_running, s₁)
    else elim failed [
      | some e ↦ (some (cleanup_failed e), s₂)
      | none ↦ if written then (none, s₃) else (some write_failed, s₃)
    ]

-- LockManager.Unlock
unfoldable pub unlock : Caller → Runtime → Runtime
unfolding release
unlock c s =
    let released = release c s in
    record released { pid_file = if c.removes then none else s.pid_file }

-- RemovePID, by any process
unfoldable pub remove_pid : Caller → Runtime → Runtime
remove_pid c s = if c.removes then record s { pid_file = none; lock_file = none } else s

-- A step of a process in WritePIDExclusive, which goes through its parts in order, all of Unlock at once, or the
-- end of a process without it, when the system releases its lock.
pub data Step : Runtime → Runtime → Type 0 where
  acquires :
      (c : Caller) (s : Runtime) → phase_of c.self s.holders ≡ none → Step s (acquire c.self s).1
  prepares :
      (c : Caller) (s : Runtime) → phase_of c.self s.holders ≡ some locked → Step s (prepare c s).1
  writes :
      (c : Caller) (works : Bool) (s : Runtime)
      → phase_of c.self s.holders ≡ some cleaned
      → Step s (write_pid c works s).1
  unlocks :
      (c : Caller) (s : Runtime) → phase_of c.self s.holders ≡ some running → Step s (unlock c s)
  dies : (p : ℕ) (s : Runtime) → Step s (record s { holders = without_pid p s.holders })

pub data Steps : Runtime → Runtime → Type 0 where
  stays : (s : Runtime) → Steps s s
  goes : (s t u : Runtime) → Step s t → Steps t u → Steps s u
