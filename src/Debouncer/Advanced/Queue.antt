-- ===== src/Debouncer/Advanced/Queue.antt =====
-- internal/debouncer/advanced_debouncer.go: triggerManualSyncInternal, TriggerManualSync, the queue's
-- goroutine, CancelAll, Stop and Start.
use dot_sync_manager.Base.{
  ℕ, ◌+◌, ◌-◌, List, [], ◌∷◌, ◌++◌, Bool, true, false, not, ◌&&◌, ◌||◌, ltb, if◌then◌else◌, length,
}
use dot_sync_manager.Base.Dict.{Dict, erase}
use dot_sync_manager.Debouncer.Timers.{stop}
use dot_sync_manager.Debouncer.Advanced.{
  Advanced, Request, Error, stopped, context_done, default_manual_sync_queue_size,
  handle_manual_sync,
}

-- What triggerManualSyncInternal returns: (true, nil), (false, nil) or (false, err).
pub data Sent : Type 0 where
  queued direct : Sent
  refused : Error → Sent

module _ {Float : Type 0} {F : Type 0} where
  -- Where the queue has room and the context is done, Go's select takes either case: `send_first` says
  -- which one it takes.
  unfoldable pub trigger_manual_sync_internal :
      Bool → Bool → Request F → Advanced Float F → Advanced Float F × Sent
  trigger_manual_sync_internal send_first ctx_done r d =
      let room = ltb (length d.manual_sync_queue) default_manual_sync_queue_size in
      if d.stopped
      then (d, refused stopped)
      else if room && (send_first || not ctx_done)
      then (record d { manual_sync_queue = d.manual_sync_queue ++ r ∷ [] }, queued)
      else if ctx_done
      then (d, refused context_done)
      else (d, direct)

  -- TriggerManualSync up to its wait: context.Background() is never done, and a request that found the
  -- queue full is handled by a goroutine of its own.
  unfoldable pub trigger_manual_sync : Bool → Request F → Advanced Float F → Advanced Float F × Sent
  unfolding trigger_manual_sync_internal
  trigger_manual_sync panics r d =
      let (d₁, sent) = trigger_manual_sync_internal true false r d in
      elim sent [
        | queued ↦ (d₁, queued)
        | direct ↦ (handle_manual_sync panics r d₁, direct)
        | refused e ↦ (d₁, refused e)
      ]

  -- TriggerManualSyncWithContext up to its wait.
  unfoldable pub trigger_manual_sync_with_context :
      Bool → Bool → Bool → Request F → Advanced Float F → Advanced Float F × Sent
  unfolding trigger_manual_sync_internal
  trigger_manual_sync_with_context send_first ctx_done panics r d =
      let (d₁, sent) = trigger_manual_sync_internal send_first ctx_done r d in
      elim sent [
        | queued ↦ (d₁, queued)
        | direct ↦ (handle_manual_sync panics r d₁, direct)
        | refused e ↦ (d₁, refused e)
      ]

  -- One round of processManualSyncQueue. Where the done channel is closed and a request waits, either
  -- case is taken: `done_first` says which. The goroutine ends by leaving `running`.
  unfoldable pub process_round : Bool → (ℕ → Bool) → Advanced Float F → Advanced Float F
  process_round done_first panics d = process d.manual_sync_queue
    where
      leave : Advanced Float F
      leave = record d { running = d.running - 1 }

      process : List (Request F) → Advanced Float F
      process [] = if d.done || d.queue_closed then leave else d
      process (r ∷ rest) =
          if d.done && done_first
          then leave
          else handle_manual_sync (panics r.id) r (record d { manual_sync_queue = rest })

  -- The loop of CancelAll and of cancelAllTimers over the timers that the map held at its start.
  unfoldable pub cancel_each : Dict ℕ → Advanced Float F → Advanced Float F
  cancel_each [] d = d
  cancel_each ((key, i) ∷ rest) d = cancel_each rest (record d {
    timers = erase key d.timers;
    callback = erase key d.callback;
    runtime = stop i d.runtime;
  })

  unfoldable pub cancel_all : Advanced Float F → Advanced Float F
  unfolding cancel_each
  cancel_all d = cancel_each d.timers d

  -- cancelAllTimers: as CancelAll, and every callback that is left is deleted.
  unfoldable pub cancel_all_timers : Advanced Float F → Advanced Float F
  unfolding cancel_each
  cancel_all_timers d = record (cancel_each d.timers d) { callback = [] }

  -- drainQueue: the waiting requests in their order.
  unfoldable pub drain : (ℕ → Bool) → List (Request F) → Advanced Float F → Advanced Float F
  drain panics [] d = d
  drain panics (r ∷ rs) d =
      drain panics rs (handle_manual_sync (panics r.id) r (record d { manual_sync_queue = rs }))

  -- The body of stopOnce.Do up to the drain.
  unfoldable pub begin_stop : Advanced Float F → Advanced Float F
  unfolding cancel_all_timers
  begin_stop d =
      let d₁ : Advanced Float F =
        cancel_all_timers (record d { stop_once_done = true; stopped = true }) in
      record d₁ { ctx_cancelled = true; started = false; done = true }

  -- The body of stopOnce.Do. Once the channels are closed the goroutines leave: Wait returns at 0.
  unfoldable pub shut_down : (ℕ → Bool) → Advanced Float F → Advanced Float F
  unfolding begin_stop drain
  shut_down panics d =
      let d₁ = begin_stop d in
      record (drain panics d₁.manual_sync_queue d₁) { queue_closed = true; running = 0 }

  -- Stop.
  unfoldable pub stop_debouncer : (ℕ → Bool) → Advanced Float F → Advanced Float F
  unfolding shut_down
  stop_debouncer panics d = if d.stop_once_done then d else shut_down panics d

  -- Start.
  unfoldable pub start : Advanced Float F → Advanced Float F
  start d =
      if d.started
      then d
      else (let d₁ : Advanced Float F =
            if d.stopped
            then record d {
              done = false;
              queue_closed = false;
              manual_sync_queue = [];
              stopped = false;
              stop_once_done = false;
            }
            else d in
          record d₁ { started = true; running = d₁.running + 1 })
