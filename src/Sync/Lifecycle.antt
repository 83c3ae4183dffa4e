-- ===== src/Sync/Lifecycle.antt =====
-- Start and Stop: which calls take effect, what a failed Start leaves behind, and the event loops.
use dot_sync_manager.Base.{
  ◌+◌, Option, none, some, true, false, ◌≡◌, ◌≢◌, arith, ◌⊎◌, is_some, Option-cases, inl, inr,
}
use dot_sync_manager.Debouncer.Interface.{DebouncerInterface}
use dot_sync_manager.Status.{running, set_state, set_watched_paths}
use dot_sync_manager.Sync.{
  state_stopped, state_running, SyncService, Job, AdvancedCalls, StartWorld, already_running,
  status_failed, on_status, quiet_debouncer, rollback_state, abandon_start, start, is_running,
}

module _ {Env D : Type 0} (I : DebouncerInterface Env Job D)
    (advanced : Option (AdvancedCalls I)) where
  quiet_debouncer-pending : (d : D) → I.pending (quiet_debouncer I advanced d).0 ≡ 0
  unfolding quiet_debouncer
  quiet_debouncer-pending d = elim (Option-cases advanced) [
    | inl basic ↦ rw (basic, quiet_debouncer) (I.pending-cancel_all d)
    | inr (a, e) ↦
        rw (e, quiet_debouncer) (a.pending-stop (I.cancel_all d) (I.pending-cancel_all d))
  ]

  -- Of every Start exactly one of these is true: it succeeds, and a service that was stopped runs with
  -- one more event loop; it is refused in another state and changes nothing; or it fails, where the
  -- service is stopped again without a watcher and nothing is pending, unless only the status manager
  -- failed to start: then the service stays in the running state without an event loop.
  pub start_outcome :
      (w : StartWorld) (s : SyncService D)
      → let (s', e) = start I advanced w s in
        ((e ≡ none)
          × (s.state ≡ state_stopped)
          × (s'.state ≡ state_running)
          × (s'.loops ≡ s.loops + 1)
          × (s'.status_manager.status.current_state ≡ running)
          × (s'.status_manager.status.watched_paths ≡ w.watched))
        ⊎ ((s' ≡ s) × (s.state ≢ state_stopped) × (is_some e ≡ true))
        ⊎ ((is_some e ≡ true)
            × (e ≢ some status_failed)
            × (s'.state ≡ state_stopped)
            × (s'.watcher ≡ false)
            × (I.pending s'.debouncer ≡ 0)
            × (s'.loops ≡ s.loops))
        ⊎ ((e ≡ some status_failed) × (s'.state ≡ state_running) × (s'.loops ≡ s.loops))
  unfolding start rollback_state abandon_start on_status set_state set_watched_paths
  start_outcome w s = ground (arith, quiet_debouncer-pending s.debouncer)

  -- Where only the status manager fails to start, the service says that it runs although it has no new
  -- event loop, and every later Start is refused as already running.
  start_status_failed :
      (w retry : StartWorld) (s : SyncService D)
      → (start I advanced w s).1 ≡ some status_failed
      → let s' = (start I advanced w s).0 in
        (is_running s' ≡ true)
        × (s'.loops ≡ s.loops)
        × (s'.watcher ≡ true)
        × (start I advanced retry s' ≡ (s', some already_running))
  unfolding start is_running on_status
  start_status_failed w retry s failed = ground arith
