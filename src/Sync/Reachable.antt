-- ===== src/Sync/Reachable.antt =====
-- The life of a service as a step relation: what holds in every state that a new service reaches.
use dot_sync_manager.Base.{
  ℕ, ◌≤◌, List, [], Option, none, some, Bool-cases, inl, inr, Bool, true, false, ◌≡◌, refl, arith,
  Text,
}
use dot_sync_manager.Base.Result.{Result-cases}
use dot_sync_manager.Debouncer.Interface.{DebouncerInterface}
use dot_sync_manager.Git.Commit.{GitError, stage_commit_and_push}
use dot_sync_manager.Sync.{
  ServiceState, state_stopped, state_stopping, SyncService, Job, auto_sync, manual_sync_job,
  AdvancedCalls, Callbacks, StartWorld, SyncWorld, on_status, rollback_state, abandon_start, start,
  shut_down, begin_stop, loop_round, finish_stop, manual_sync, handle_event, run_job, pause_sync,
  resume_sync, set_event_callbacks, perform_manual_sync, perform_sync, finish_sync, recover_sync,
  notify_sync_start, notify_sync_complete, notify_error,
}
use dot_sync_manager.Sync.Performing.{answered, perform_of_ok, perform_of_err}

-- One event loop at most, a service that is stopped with its watcher has none, and a service that is
-- stopping, or that was stopped, has no watcher.
pub record IsLife {D : Type 0} (s : SyncService D) : Type 0 where
  pub one_loop : s.loops ≤ 1
  pub fresh : s.state ≡ state_stopped → s.watcher ≡ true → s.loops ≡ 0
  pub stopping : s.state ≡ state_stopping → s.watcher ≡ false
  pub done : s.shutdown_once_done ≡ true → s.watcher ≡ false

-- The fields that the life of the service is about.
abbrev life : {D : Type 0} → SyncService D → ServiceState × Bool × ℕ × Bool
life s = (s.state, s.watcher, s.loops, s.shutdown_once_done)

IsLife-same : {D : Type 0} (s s' : SyncService D) → life s' ≡ life s → IsLife s → IsLife s'
IsLife-same s s' e v = record {
  one_loop = ground (arith, v.one_loop);
  fresh = ground (arith, v.fresh);
  stopping = ground (arith, v.stopping);
  done = ground (arith, v.done);
}

module _ {D : Type 0} where
  life-finish_sync :
      (now : ℕ) (files : List Text) (e : Option GitError) (s : SyncService D)
      → life (finish_sync now files e s) ≡ life s
  unfolding finish_sync on_status notify_sync_complete notify_error
  life-finish_sync now files none s = refl
  life-finish_sync now files (some e) s = ground arith

module _ {D : Type 0} (author_name author_email : Text) where
  life-perform :
      (w : SyncWorld) (s : SyncService D)
      → life (perform_manual_sync author_name author_email w s) ≡ life s
  unfolding perform_manual_sync answered on_status notify_sync_start recover_sync
      notify_sync_complete notify_error
  life-perform w s =
      let r = (stage_commit_and_push author_name author_email w.calls w.stamp s.repo).1 in
      elim (Bool-cases w.start_panics) [
        | inl panics ↦ rw (panics, perform_manual_sync) refl
        | inr calm ↦ elim (Result-cases r) [
          | inl (files, e) ↦
              rw (perform_of_ok author_name author_email w s files calm e)
                (life-finish_sync w.now files none (answered author_name author_email w s))
          | inr (g, e) ↦
              rw (perform_of_err author_name author_email w s g calm e)
                (life-finish_sync w.now [] (some g) (answered author_name author_email w s))
        ]
      ]

  life-run_job :
      (job : Job) (w : SyncWorld) (s : SyncService D)
      → life (run_job author_name author_email job w s) ≡ life s
  unfolding run_job perform_sync
  life-run_job auto_sync w s = ground (arith, life-perform w s)
  life-run_job manual_sync_job w s = life-perform w s

module _ {Env D : Type 0} (I : DebouncerInterface Env Job D) (advanced : Option (AdvancedCalls I))
    (matches : Text → Bool) (author_name author_email : Text) where
  -- A call of a method, a round of an event loop, or a closure that the debouncer runs. Stop is two
  -- steps, since everything else may happen while it waits.
  pub data Step : SyncService D → SyncService D → Type 0 where
    start_step : (w : StartWorld) (s : SyncService D) → Step s (start I advanced w s).0
    begin_stop_step :
        (w : StartWorld) (watcher_ok : Bool) (s : SyncService D)
        → Step s (begin_stop I advanced w watcher_ok s).0
    finish_stop_step :
        (failed : Bool) (s : SyncService D)
        → s.state ≡ state_stopping
        → Step s (finish_stop failed s)
    loop_step : (s : SyncService D) → Step s (loop_round s)
    event_step :
        (env : Env) (name : Text) (s : SyncService D)
        → Step s (handle_event I advanced matches env name s)
    job_step :
        (job : Job) (w : SyncWorld) (s : SyncService D)
        → Step s (run_job author_name author_email job w s)
    manual_step :
        (w : SyncWorld) (s : SyncService D)
        → Step s (manual_sync I advanced author_name author_email w s).0
    pause_step : (s : SyncService D) → Step s (pause_sync s)
    resume_step : (s : SyncService D) → Step s (resume_sync s)
    callbacks_step : (c : Callbacks) (s : SyncService D) → Step s (set_event_callbacks c s)

  pub data Steps : SyncService D → SyncService D → Type 0 where
    done_steps : (s : SyncService D) → Steps s s
    more_steps : {s t u : SyncService D} → Step s t → Steps t u → Steps s u

  IsLife-start : (w : StartWorld) (s : SyncService D) → IsLife s → IsLife (start I advanced w s).0
  unfolding start rollback_state abandon_start on_status
  IsLife-start w s v = record {
    one_loop = ground (arith, v.one_loop, v.fresh);
    fresh = ground (arith, v.fresh);
    stopping = ground (arith, v.stopping);
    done = ground (arith, v.done);
  }

  IsLife-begin_stop :
      (w : StartWorld) (watcher_ok : Bool) (s : SyncService D)
      → IsLife s
      → IsLife (begin_stop I advanced w watcher_ok s).0
  unfolding begin_stop shut_down
  IsLife-begin_stop w watcher_ok s v = record {
    one_loop = ground (arith, v.one_loop);
    fresh = ground (arith, v.fresh);
    stopping = ground (arith, v.stopping, v.done);
    done = ground (arith, v.done);
  }

  Step-IsLife : {s t : SyncService D} → Step s t → IsLife s → IsLife t
  unfolding finish_stop loop_round handle_event run_job perform_sync manual_sync pause_sync
      resume_sync set_event_callbacks
  Step-IsLife (start_step w s) v = IsLife-start w s v
  Step-IsLife (begin_stop_step w ok s) v = IsLife-begin_stop w ok s v
  Step-IsLife (finish_stop_step failed s e) v = record {
    one_loop = v.one_loop;
    fresh = λ _ watching. ground (arith, v.stopping e);
    stopping = ground arith;
    done = v.done;
  }
  Step-IsLife (loop_step s) v = record {
    one_loop = ground (arith, v.one_loop);
    fresh = ground (arith, v.fresh);
    stopping = ground (arith, v.stopping);
    done = ground (arith, v.done);
  }
  Step-IsLife (event_step env name s) v = IsLife-same s _ (ground arith) v
  Step-IsLife (job_step job w s) v =
      IsLife-same s _ (life-run_job author_name author_email job w s) v
  Step-IsLife (manual_step w s) v =
      IsLife-same s _ (ground (arith, life-perform author_name author_email w s)) v
  Step-IsLife (pause_step s) v = IsLife-same s _ refl v
  Step-IsLife (resume_step s) v = IsLife-same s _ refl v
  Step-IsLife (callbacks_step c s) v = IsLife-same s _ refl v

  -- However its methods, event loops and closures interleave, a service never has two event loops, and
  -- one that is stopping or was stopped has no watcher.
  pub Steps-IsLife : {s t : SyncService D} → Steps s t → IsLife s → IsLife t
  Steps-IsLife (done_steps s) v = v
  Steps-IsLife (more_steps step steps) v = Steps-IsLife steps (Step-IsLife step v)
