-- ===== src/Locks.antt =====
-- internal/util/filelock.go: locks of one file by flock(2), which the edits of `dsm config` take. The locks belong
-- to files that were opened, numbered here; the lock file itself is never removed.
pub mod Held
use dot_sync_manager.Base.{
  ℕ, suc, ◌==◌, List, [], ◌∷◌, Option, none, some, Bool, true, false, not, if◌then◌else◌, is_some,
  is_empty,
}

pub data LockKind : Type 0 where
  shared_lock exclusive_lock : LockKind

-- What the system knows of the locks, and the next file to be opened.
pub record LockTable : Type 0 where
  pub exclusive : Option ℕ
  pub shared : List ℕ
  pub next : ℕ

-- FileLock; `file` is what it opened.
pub record FileLock : Type 0 where
  pub file : Option ℕ
  pub locked : Bool

abbrev pub new_file_lock : FileLock
new_file_lock = record { file = none; locked = false }

unfoldable pub without : ℕ → List ℕ → List ℕ
without i [] = []
without i (j ∷ js) = let rest = without i js in if j == i then rest else j ∷ rest

-- flock(2) of a file that has no lock, with LOCK_NB; without it the call waits until it would succeed.
unfoldable pub flock : LockKind → ℕ → LockTable → Option LockTable
flock shared_lock i t =
    if is_some t.exclusive then none else some (record t { shared = i ∷ t.shared })
flock exclusive_lock i t =
    if is_some t.exclusive
    then none
    else if is_empty t.shared
    then some (record t { exclusive = some i })
    else none

-- LOCK_UN, and what the close of a file does.
unfoldable pub release_file : ℕ → LockTable → LockTable
unfolding without
release_file i t = record t {
  exclusive = elim t.exclusive [ none ↦ none | some j ↦ if j == i then none else some j ];
  shared = without i t.shared;
}

-- TryLock; `opens` says whether the file can be opened. Lock is the same once it need not wait.
unfoldable pub try_lock : Bool → LockKind → FileLock → LockTable → Bool × FileLock × LockTable
unfolding flock
try_lock opens kind l t =
    let opened = record t { next = suc t.next } in
    if l.locked
    then (true, l, t)
    else if not opens
    then (false, l, t)
    else elim (flock kind t.next opened) [
      | none ↦ (false, record l { file = none }, opened)
      | some t' ↦ (true, record { file = some t.next; locked = true }, t')
    ]

-- Unlock, where the system unlocks and closes.
unfoldable pub unlock_file : FileLock → LockTable → FileLock × LockTable
unfolding release_file
unlock_file l t = elim (if l.locked then l.file else none) [
  | none ↦ (l, t)
  | some i ↦ (new_file_lock, release_file i t)
]

-- Close
unfoldable pub close_lock : FileLock → LockTable → FileLock × LockTable
unfolding unlock_file
close_lock l t = if l.locked then unlock_file l t else (l, t)

-- TryWithLock of a function, which is run on the table while the lock is held.
unfoldable pub try_with_lock :
    Bool → LockKind → (LockTable → Bool × LockTable) → LockTable → Bool × LockTable
unfolding try_lock close_lock
try_with_lock opens kind run t =
    let (taken, l, t₁) = try_lock opens kind new_file_lock t in
    let (answer, t₂) = run t₁ in
    if taken then (answer, (close_lock l t₂).1) else (false, (close_lock l t₁).1)

-- IsFileLocked
unfoldable pub is_file_locked : Bool → LockTable → Bool × LockTable
unfolding try_lock unlock_file close_lock
is_file_locked opens t =
    let (taken, l, t₁) = try_lock opens exclusive_lock new_file_lock t in
    let (shares, l₂, t₂) = try_lock opens shared_lock l t₁ in
    if taken
    then (false, (unlock_file l t₁).1)
    else if shares
    then (false, (unlock_file l₂ t₂).1)
    else (true, t₂)
