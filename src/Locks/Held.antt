-- ===== src/Locks/Held.antt =====
-- What the locks promise.
use dot_sync_manager.Base.{
  ℕ, suc, ◌==◌, ◌<◌, List, [], ◌∷◌, Option, none, some, Bool, true, false, if◌then◌else◌, is_some,
  All, ◌≡◌, ◌∙◌, refl, sym, ap, arith,
}
use dot_sync_manager.Locks.{
  LockKind, shared_lock, exclusive_lock, LockTable, FileLock, new_file_lock, without, flock,
  release_file, try_lock, unlock_file, close_lock, is_file_locked,
}

-- Every file with a shared lock was opened before.
abbrev pub IsKnown : LockTable → Type 0
IsKnown t = All (λ i. i < t.next) t.shared

without-new : (i : ℕ) (js : List ℕ) → All (λ j. j < i) js → without i js ≡ js
unfolding without
without-new i [] all = refl
without-new i (j ∷ js) (low, all) =
    let other : (j == i) ≡ false = ground arith in
    rw (other, without) (ap (λ rest. j ∷ rest) (without-new i js all))

All-suc : (n : ℕ) (js : List ℕ) → All (λ j. j < n) js → All (λ j. j < suc n) js
All-suc n [] all = tt
All-suc n (j ∷ js) (low, all) = (omega arith, All-suc n js all)

answers :
    (opens : Bool) (e : Option ℕ) (s : List ℕ) (n : ℕ)
    → All (λ i. i < n) s
    → let t : LockTable = record { exclusive = e; shared = s; next = n } in
      let r = is_file_locked opens t in
      (r.0 ≡ (if opens then is_some e else true)) × (r.1.exclusive ≡ e) × (r.1.shared ≡ s)
unfolding is_file_locked try_lock flock unlock_file release_file without
answers false e s n known = (refl, refl, refl)
answers true (some i) s n known = (refl, refl, refl)
answers true none [] n known = (refl, ground arith, refl)
answers true none (j ∷ js) n known =
    let kept = without-new (suc n) (j ∷ js) (All-suc n (j ∷ js) known) in (refl, refl, ground arith)

-- IsFileLocked answers whether the file has an exclusive lock, and true if it cannot be opened; it leaves the
-- locks as they were, where each shared lock is of a file that was opened before.
pub is_file_locked_iff :
    (opens : Bool) (t : LockTable)
    → IsKnown t
    → let (answer, t') = is_file_locked opens t in
      (answer ≡ (if opens then is_some t.exclusive else true))
      × (t'.exclusive ≡ t.exclusive)
      × (t'.shared ≡ t.shared)
is_file_locked_iff opens t known = answers opens t.exclusive t.shared t.next known

-- What an exclusive lock that was taken says of the locks before and after.
taken_lem :
    (opens : Bool) (e : Option ℕ) (s : List ℕ) (n : ℕ) (l : FileLock) (t' : LockTable)
    → ◌≡◌ {A = Bool × FileLock × LockTable}
        (try_lock opens exclusive_lock new_file_lock
          (record { exclusive = e; shared = s; next = n }))
        (true, l, t')
    → (e ≡ none)
      × (s ≡ [])
      × (record { file = some n; locked = true } ≡ l)
      × (record { exclusive = some n; shared = []; next = suc n } ≡ t')
unfolding try_lock flock
taken_lem false e s n l t' done = absurd (ground arith)
taken_lem true (some i) s n l t' done = absurd (ground arith)
taken_lem true none (j ∷ js) n l t' done = absurd (ground arith)
taken_lem true none [] n l t' done = (refl, refl, ap (λ r. r.1) done, ap (λ r. r.2) done)

excluded :
    (opens : Bool) (kind : LockKind) (n : ℕ)
    → let t : LockTable = record { exclusive = some n; shared = []; next = suc n } in
      let l : FileLock = record { file = some n; locked = true } in
      ((try_lock opens kind new_file_lock t).0 ≡ false)
      × ((is_file_locked opens t).0 ≡ true)
      × ((close_lock l t).1.exclusive ≡ none)
      × ((close_lock l t).1.shared ≡ [])
unfolding try_lock flock is_file_locked close_lock unlock_file release_file without
excluded false kind n = (refl, refl, ground arith, refl)
excluded true shared_lock n = (refl, refl, ground arith, refl)
excluded true exclusive_lock n = (refl, refl, ground arith, refl)

-- While one process holds the exclusive lock nobody else gets a lock of either kind, and the release gives back
-- the locks that there were before.
pub exclusive_lock_excludes :
    (opens opens' : Bool) (kind : LockKind) (t t' : LockTable) (l : FileLock)
    → try_lock opens exclusive_lock new_file_lock t ≡ (true, l, t')
    → ((try_lock opens' kind new_file_lock t').0 ≡ false)
      × ((is_file_locked opens' t').0 ≡ true)
      × ((close_lock l t').1.exclusive ≡ t.exclusive)
      × ((close_lock l t').1.shared ≡ t.shared)
exclusive_lock_excludes opens opens' kind t t' l done =
    let (free, unshared, lock, table) = taken_lem opens t.exclusive t.shared t.next l t' done in
    let (refused, shown, released, none_shared) = excluded opens' kind t.next in
    rw (← lock, ← table) (refused, shown, released ∙ sym free, none_shared ∙ sym unshared)
