-- ===== src/Sync/Wiring.antt =====
-- The service with a real debouncer: AdvancedDebouncer's Stop and TriggerManualSync as the service calls
-- them, up to the wait for the answer.
use dot_sync_manager.Base.{ℕ, List, [], ◌∷◌, Bool, true, false, ◌≡◌, refl, arith, inl, inr, length}
use dot_sync_manager.Base.Dict.{lookup}
use dot_sync_manager.Debouncer.Backoff.{FloatOps}
use dot_sync_manager.Debouncer.Advanced.{Advanced, Request, handle_manual_sync, cancel}
use dot_sync_manager.Debouncer.Advanced.Queue.{
  Sent, queued, direct, refused, trigger_manual_sync, cancel_all, drain, begin_stop, stop_debouncer,
}
use dot_sync_manager.Debouncer.Interface.{pending, timers-advanced_cancel_all}
use dot_sync_manager.Sync.{Job, AdvancedCalls}
use dot_sync_manager.Sync.Settings.{AnyDebouncer, any_debouncer, pending_any}

module _ {Float : Type 0} {F : Type 0} where
  timers-handle :
      (panics : Bool) (r : Request F) (d : Advanced Float F)
      → d.timers ≡ []
      → (handle_manual_sync panics r d).timers ≡ []
  unfolding handle_manual_sync cancel lookup
  timers-handle panics r d none_left = ground arith

  timers-drain :
      (panics : ℕ → Bool) (rs : List (Request F)) (d : Advanced Float F)
      → d.timers ≡ []
      → (drain panics rs d).timers ≡ []
  unfolding drain
  timers-drain panics [] d none_left = none_left
  timers-drain panics (r ∷ rs) d none_left =
      timers-drain panics rs _
        (timers-handle (panics r.id) r (record d { manual_sync_queue = rs }) none_left)

module _ {Float : Type 0} (ops : FloatOps Float) {F : Type 0} where
  timers-begin_stop : (d : Advanced Float F) → (begin_stop d).timers ≡ []
  unfolding begin_stop cancel_all
  timers-begin_stop d =
      timers-advanced_cancel_all ops (record d { stop_once_done = true; stopped = true })

  timers-stop_debouncer :
      (panics : ℕ → Bool) (d : Advanced Float F)
      → d.timers ≡ []
      → (stop_debouncer panics d).timers ≡ []
  unfolding stop_debouncer
  timers-stop_debouncer panics d none_left =
      let d₁ = begin_stop d in
      ground (arith, timers-drain panics d₁.manual_sync_queue d₁, timers-begin_stop d)

module _ {Float : Type 0} (ops : FloatOps Float) (panics : ℕ → Bool)
    (request_of : Job → Request Job) where
  unfoldable pub stop_any : AnyDebouncer Float → AnyDebouncer Float × Bool
  unfolding stop_debouncer
  stop_any (inl d) = (inl d, true)
  stop_any (inr d) = (inr (stop_debouncer panics d), true)

  abbrev pub is_sent : Sent → Bool
  is_sent queued = true
  is_sent direct = true
  is_sent (refused e) = false

  unfoldable pub trigger_any : Job → AnyDebouncer Float → AnyDebouncer Float × Bool
  unfolding trigger_manual_sync
  trigger_any job (inl d) = (inl d, true)
  trigger_any job (inr d) =
      let r = request_of job in
      let (d', sent) = trigger_manual_sync (panics r.id) r d in (inr d', is_sent sent)

  nil_of_length : {A : Type 0} (l : List A) → length l ≡ 0 → l ≡ []
  nil_of_length [] e = refl
  nil_of_length (a ∷ l) e = absurd (omega arith)

  pub pending-stop_any :
      (d : AnyDebouncer Float) → pending_any ops d ≡ 0 → pending_any ops (stop_any d).0 ≡ 0
  unfolding pending_any stop_any pending
  pending-stop_any (inl d) e = e
  pending-stop_any (inr d) e =
      rw (timers-stop_debouncer ops panics d (nil_of_length d.timers e)) refl

  -- What a service whose debouncer is an advanced one holds.
  unfoldable pub advanced_calls : AdvancedCalls (any_debouncer ops)
  unfolding any_debouncer
  advanced_calls = record {
    stop_advanced = stop_any;
    trigger_manual_sync = trigger_any;
    pending-stop = pending-stop_any;
  }
