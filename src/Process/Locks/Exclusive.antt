-- ===== src/Process/Locks/Exclusive.antt =====
-- One daemon at most, as long as the lock file is removed by its holder only.
use dot_sync_manager.Base.{[], ◌∷◌, some, ◌≡◌, ◌⊎◌}
use dot_sync_manager.Process.Locks.{Holder, Runtime}

-- Nobody holds a lock, or one process holds that of the file at the lock's path.
abbrev pub IsExclusive : Runtime → Type 0
IsExclusive s =
    (s.holders ≡ []) ⊎ ((h : Holder) × (s.holders ≡ h ∷ []) × (s.lock_file ≡ some h.lock_id))
