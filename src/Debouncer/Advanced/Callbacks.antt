-- ===== src/Debouncer/Advanced/Callbacks.antt =====
-- What a timer of the advanced debouncer does once its closure has the mutex.
use dot_sync_manager.Base.{ℕ, [], ◌∷◌, ◌++◌, none, some, Bool, ◌||◌, ◌≡◌, arith, if◌then◌else◌}
use dot_sync_manager.Base.Dict.{lookup, lookup-erase_self}
use dot_sync_manager.Debouncer.Timers.{Timer, take_firing}
use dot_sync_manager.Debouncer.Backoff.{reset_backoff}
use dot_sync_manager.Debouncer.Advanced.{Advanced, Captured, callback_panic, ctx_err, on_timer}

module _ {Float : Type 0} {F : Type 0} where
  -- A closure that runs clears its key on every path. With its context or the debouncer's done it runs
  -- nothing; a callback that panics is reported and keeps the backoff; one that returns resets it.
  pub on_timer_outcome :
      (i : ℕ) (given_done panics : Bool) (d : Advanced Float F) (t : Timer (Captured F))
      → take_firing i d.runtime ≡ some t
      → let d' = on_timer i given_done panics d in
        let skipped = ctx_err t.fn.ctx given_done d || d.ctx_cancelled in
        (lookup t.key d'.timers ≡ none)
        × (lookup t.key d'.callback ≡ none)
        × (d'.ran ≡ (if skipped then d.ran else d.ran ++ t.fn.fn ∷ []))
        × (d'.reported ≡ (
            if skipped
            then d.reported
            else if panics
            then d.reported ++ callback_panic t.key ∷ []
            else d.reported))
        × (d'.backoff.backoff_count ≡ (
            if skipped
            then d.backoff.backoff_count
            else if panics
            then d.backoff.backoff_count
            else 0))
  unfolding on_timer reset_backoff
  on_timer_outcome i given_done panics d t found =
      ground (arith, lookup-erase_self t.key d.timers, lookup-erase_self t.key d.callback)
