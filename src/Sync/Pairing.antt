-- ===== src/Sync/Pairing.antt =====
-- Over any jobs: as many completions as starts, and nothing at all while paused.
use dot_sync_manager.Base.{
  ℕ, ◌+◌, List, [], ◌∷◌, true, false, ◌≡◌, refl, arith, Text, map, not, ◌&&◌,
}
use dot_sync_manager.Sync.{
  SyncService, Notice, sync_start, sync_complete, SyncWorld, perform_sync, Job, auto_sync, run_job,
}

-- The calls of the callbacks that are set, of those that a sync would make.
-- How often the start callback, or the completion callback, was called.
unfoldable pub starts : List Notice → ℕ
starts [] = 0
starts (sync_start ∷ ns) = starts ns + 1
starts (_ ∷ ns) = starts ns

unfoldable pub completions : List Notice → ℕ
completions [] = 0
completions (sync_complete files e ∷ ns) = completions ns + 1
completions (_ ∷ ns) = completions ns

module _ {D : Type 0} where
  -- Both of these callbacks are set.
  abbrev pub IsHeard : SyncService D → Type 0
  IsHeard s = (s.callbacks.on_sync_start ≡ true) × (s.callbacks.on_sync_complete ≡ true)

module _ {D : Type 0} (author_name author_email : Text) where
  -- The jobs that the debouncer runs, each with what it finds of the world.
  unfoldable pub run_jobs : List (Job × SyncWorld) → SyncService D → SyncService D
  run_jobs [] s = s
  run_jobs ((job, w) ∷ jobs) s = run_jobs jobs (run_job author_name author_email job w s)

  perform_sync_off :
      (w : SyncWorld) (s : SyncService D)
      → s.auto_sync_enabled && not s.is_paused ≡ false
      → perform_sync author_name author_email w s ≡ s
  unfolding perform_sync
  perform_sync_off w s off = ground arith

  -- While the service is paused, or with automatic syncs off, no debounced sync changes anything.
  run_jobs_gated :
      (worlds : List SyncWorld) (s : SyncService D)
      → s.auto_sync_enabled && not s.is_paused ≡ false
      → run_jobs (map (λ w. (auto_sync, w)) worlds) s ≡ s
  unfolding run_jobs run_job
  run_jobs_gated [] s off = refl
  run_jobs_gated (w ∷ worlds) s off =
      rw (perform_sync_off w s off, run_jobs) (run_jobs_gated worlds s off)
