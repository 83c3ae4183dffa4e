-- ===== src/Sync/Performing.antt =====
-- What one sync does to the status, the callbacks and the repository.
use dot_sync_manager.Base.{
  List, [], ◌∷◌, ◌++◌, none, some, Bool, false, ◌≡◌, ◌≢◌, refl, arith, Text, append_assoc,
  append-nil,
}
use dot_sync_manager.Base.Result.{ok, err}
use dot_sync_manager.Git.Commit.{GitError, cancelled, stage_commit_and_push}
use dot_sync_manager.Status.{
  running, syncing, set_state, set_error, update_sync, increment, sync_result,
}
use dot_sync_manager.Sync.{
  SyncService, sync_git, manual_sync_failed, Notice, sync_start, sync_complete, error_notice,
  notice_if, Callbacks, SyncWorld, on_status, notify_sync_start, notify_sync_complete, notify_error,
  finish_sync, perform_manual_sync,
}

-- The calls of the callbacks that are set, of those that a sync would make.
abbrev pub is_set : Callbacks → Notice → Bool
is_set c sync_start = c.on_sync_start
is_set c (sync_complete files e) = c.on_sync_complete
is_set c (error_notice e) = c.on_error

unfoldable pub heard : Callbacks → List Notice → List Notice
heard c [] = []
heard c (n ∷ ns) = notice_if (is_set c n) n ++ heard c ns

append_two : (ns xs ys : List Notice) → ns ++ xs ++ ys ≡ ns ++ (xs ++ (ys ++ []))
append_two ns xs ys = rw (append-nil, append_assoc) refl

append_three : (ns xs ys zs : List Notice) → ns ++ xs ++ ys ++ zs ≡ ns ++ (xs ++ (ys ++ (zs ++ [])))
append_three ns xs ys zs = rw (append-nil, append_assoc) (rw append_assoc refl)

module _ {D : Type 0} (author_name author_email : Text) where
  -- The service once git has answered.
  unfoldable pub answered : SyncWorld → SyncService D → SyncService D
  answered w s = record (notify_sync_start (on_status (set_state syncing) s)) {
    repo = (stage_commit_and_push author_name author_email w.calls w.stamp s.repo).0;
  }

  pub perform_of_ok :
      (w : SyncWorld) (s : SyncService D) (files : List Text)
      → w.start_panics ≡ false
      → (stage_commit_and_push author_name author_email w.calls w.stamp s.repo).1 ≡ ok files
      → perform_manual_sync author_name author_email w s
        ≡ finish_sync w.now files none (answered w s)
  unfolding perform_manual_sync answered
  perform_of_ok w s files calm done =
      rw (calm, perform_manual_sync) (rw (done, perform_manual_sync) refl)

  pub perform_of_err :
      (w : SyncWorld) (s : SyncService D) (e : GitError)
      → w.start_panics ≡ false
      → (stage_commit_and_push author_name author_email w.calls w.stamp s.repo).1 ≡ err e
      → perform_manual_sync author_name author_email w s
        ≡ finish_sync w.now [] (some e) (answered w s)
  unfolding perform_manual_sync answered
  perform_of_err w s e calm failed =
      rw (calm, perform_manual_sync) (rw (failed, perform_manual_sync) refl)

  -- A sync that git completes counts once as a sync and not as an error, leaves the daemon running with
  -- the files recorded, keeps git's repository, and calls start and complete, in this order.
  perform_manual_sync_success :
      (w : SyncWorld) (s : SyncService D) (files : List Text)
      → w.start_panics ≡ false
      → (stage_commit_and_push author_name author_email w.calls w.stamp s.repo).1 ≡ ok files
      → let s' = perform_manual_sync author_name author_email w s in
        let st = s'.status_manager.status in
        (st.current_state ≡ running)
        × (st.sync_count ≡ increment s.status_manager.status.sync_count)
        × (st.error_count ≡ s.status_manager.status.error_count)
        × (st.last_sync_result ≡ sync_result files none)
        × (s'.repo ≡ (stage_commit_and_push author_name author_email w.calls w.stamp s.repo).0)
        × (s'.notices ≡ s.notices ++ heard s.callbacks (sync_start ∷ sync_complete files none ∷ []))
  unfolding answered on_status notify_sync_start notify_sync_complete finish_sync set_state
      update_sync heard
  perform_manual_sync_success w s files calm done =
      rw (perform_of_ok w s files calm done)
        (refl, refl, refl, refl, refl, append_two s.notices _ _)

  -- A sync that git refuses for another reason than a cancelled context is counted twice as an error,
  -- by UpdateSync and by SetError; the daemon is running again and start, error and complete are called.
  perform_manual_sync_failure :
      (w : SyncWorld) (s : SyncService D) (e : GitError)
      → w.start_panics ≡ false
      → (stage_commit_and_push author_name author_email w.calls w.stamp s.repo).1 ≡ err e
      → e ≢ cancelled
      → let s' = perform_manual_sync author_name author_email w s in
        let st = s'.status_manager.status in
        (st.current_state ≡ running)
        × (st.sync_count ≡ increment s.status_manager.status.sync_count)
        × (st.error_count ≡ increment (increment s.status_manager.status.error_count))
        × (st.last_error ≡ some (manual_sync_failed e))
        × (s'.notices
            ≡ s.notices
              ++ heard s.callbacks (
                  sync_start
                  ∷ error_notice (manual_sync_failed e)
                  ∷ sync_complete [] (some (sync_git e))
                  ∷ []))
  unfolding answered on_status notify_sync_start notify_sync_complete notify_error finish_sync
      set_state update_sync set_error heard
  perform_manual_sync_failure w s e calm failed other =
      rw (perform_of_err w s e calm failed) (by_error e other)
    where
      by_error :
          (e : GitError)
          → e ≢ cancelled
          → let s' = finish_sync w.now [] (some e) (answered w s) in
            let st = s'.status_manager.status in
            (st.current_state ≡ running)
            × (st.sync_count ≡ increment s.status_manager.status.sync_count)
            × (st.error_count ≡ increment (increment s.status_manager.status.error_count))
            × (st.last_error ≡ some (manual_sync_failed e))
            × (s'.notices
                ≡ s.notices
                  ++ heard s.callbacks (
                      sync_start
                      ∷ error_notice (manual_sync_failed e)
                      ∷ sync_complete [] (some (sync_git e))
                      ∷ []))
      by_error e other = ground (
        arith,
        append_three s.notices (notice_if s.callbacks.on_sync_start sync_start)
            (notice_if s.callbacks.on_error (error_notice (manual_sync_failed e)))
            (notice_if s.callbacks.on_sync_complete (sync_complete [] (some (sync_git e)))),
      )

  -- A sync whose context is cancelled reports success to the callback, yet it counts an error, and the
  -- daemon's state stays syncing.
  perform_manual_sync_cancelled :
      (w : SyncWorld) (s : SyncService D)
      → w.start_panics ≡ false
      → (stage_commit_and_push author_name author_email w.calls w.stamp s.repo).1 ≡ err cancelled
      → let s' = perform_manual_sync author_name author_email w s in
        let st = s'.status_manager.status in
        (st.current_state ≡ syncing)
        × (st.error_count ≡ increment s.status_manager.status.error_count)
        × (s'.notices ≡ s.notices ++ heard s.callbacks (sync_start ∷ sync_complete [] none ∷ []))
  unfolding answered on_status notify_sync_start notify_sync_complete notify_error finish_sync
      set_state update_sync set_error heard
  perform_manual_sync_cancelled w s calm failed =
      rw (perform_of_err w s cancelled calm failed) (refl, refl, append_two s.notices _ _)
