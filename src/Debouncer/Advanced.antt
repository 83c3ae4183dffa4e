-- ===== src/Debouncer/Advanced.antt =====
-- internal/debouncer/advanced_debouncer.go: the timers, the queue of manual syncs, Start and Stop. The
-- mutexes make each method, each timer's closure and each handled request one step. What a step finds
-- of the world (a clock reading, whether a callback panics, whether a context is done) is an argument.
pub mod Queue
pub mod Restart
pub mod Manual
pub mod Callbacks
use dot_sync_manager.Base.{
  ℕ, ◌*◌, List, [], ◌∷◌, ◌++◌, Option, none, some, Bool, false, ◌||◌, if◌then◌else◌, Text,
}
use dot_sync_manager.Base.Int.{ℤ}
use dot_sync_manager.Base.Dict.{Dict, lookup, insert, erase}
use dot_sync_manager.Debouncer.Timers.{Runtime, after_func, stop, go_off, take_firing, end_firing}
use dot_sync_manager.Debouncer.Backoff.{
  FloatOps, Config, Backoff, positive_or, second, new_backoff, record_activity, calculate_delay,
  reset_backoff,
}

-- The context that a timer's closure captures: the debouncer's own, or one that a caller gave.
pub data Ctx : Type 0 where
  own given : Ctx

-- What a timer of the debouncer captures.
pub record Captured (F : Type 0) : Type 0 where
  pub fn : F
  pub ctx : Ctx
  pub delay : ℤ

-- manualSyncRequest; `id` stands for its result channel.
pub record Request (F : Type 0) : Type 0 where
  pub id : ℕ
  pub key : Text
  pub fn : F

-- The errors that the methods return and report.
pub data Error : Type 0 where
  stopped context_done timeout : Error
  callback_panic immediate_panic manual_panic : Text → Error

-- `running` counts the goroutines of processManualSyncQueue. `done` and `queue_closed` tell whether the
-- channels are closed, `ran` lists the callbacks run, `answers` what the result channels received, and
-- `reported` the errors handed to onError.
pub record Advanced (Float : Type 0) (F : Type 0) : Type 0 where
  pub backoff : Backoff Float
  pub timers : Dict ℕ
  pub callback : Dict F
  pub runtime : Runtime (Captured F)
  pub manual_sync_queue : List (Request F)
  pub queue_closed : Bool
  pub manual_sync_timeout : ℕ
  pub done : Bool
  pub stopped : Bool
  pub ctx_cancelled : Bool
  pub started : Bool
  pub stop_once_done : Bool
  pub running : ℕ
  pub ran : List F
  pub answers : List (ℕ × Option Error)
  pub reported : List Error

abbrev pub default_manual_sync_queue_size : ℕ
default_manual_sync_queue_size = 100

module _ {Float : Type 0} {F : Type 0} where
  unfoldable pub new_advanced : FloatOps Float → Config Float → ℕ → Advanced Float F
  unfolding new_backoff positive_or
  new_advanced ops c now = record {
    backoff = new_backoff ops c now;
    timers = [];
    callback = [];
    runtime = record { next = 0; armed = []; firing = [] };
    manual_sync_queue = [];
    queue_closed = false;
    manual_sync_timeout = positive_or c.manual_sync_timeout (10 * second);
    done = false;
    stopped = false;
    ctx_cancelled = false;
    started = false;
    stop_once_done = false;
    running = 0;
    ran = [];
    answers = [];
    reported = [];
  }

  unfoldable pub cancel : Text → Advanced Float F → Advanced Float F
  cancel key d = elim (lookup key d.timers) [
    | none ↦ d
    | some i ↦ record d {
      timers = erase key d.timers;
      callback = erase key d.callback;
      runtime = stop i d.runtime;
    }
  ]

  -- AddWithContext: `t` is the clock at recordActivity, `t'` the clock at calculateDelay.
  unfoldable pub add_with_context :
      FloatOps Float → ℕ → ℕ → Ctx → Text → F → Advanced Float F → Advanced Float F
  unfolding cancel
  add_with_context ops t t' ctx key fn d =
      let d₁ = cancel key d in
      let (b, delay) = calculate_delay ops t' (record_activity t d₁.backoff) in
      record d₁ {
        backoff = b;
        callback = insert key fn d₁.callback;
        timers = insert key d₁.runtime.next d₁.timers;
        runtime = after_func key (record { fn = fn; ctx = ctx; delay = delay }) d₁.runtime;
      }

  unfoldable pub add : FloatOps Float → ℕ → ℕ → Text → F → Advanced Float F → Advanced Float F
  unfolding add_with_context
  add ops t t' key fn d = add_with_context ops t t' own key fn d

  -- capturedCtx.Err() != nil, where `given_done` is the state of the context that the caller gave.
  unfoldable pub ctx_err : Ctx → Bool → Advanced Float F → Bool
  ctx_err own given_done d = d.ctx_cancelled
  ctx_err given given_done d = given_done

  -- delete(d.timers, key); delete(d.callback, key)
  unfoldable pub forget : Text → Advanced Float F → Advanced Float F
  forget key d = record d { timers = erase key d.timers; callback = erase key d.callback }

  -- The closure that AddWithContext gives to time.AfterFunc, from where it holds the mutex. The tests of
  -- the contexts before the lock have the effect of those after it, so they are made once.
  unfoldable pub on_timer : ℕ → Bool → Bool → Advanced Float F → Advanced Float F
  unfolding ctx_err forget
  on_timer i given_done panics d = elim (take_firing i d.runtime) [
    | none ↦ d
    | some t ↦
        let d₁ : Advanced Float F = record d { runtime = end_firing i d.runtime } in
        if ctx_err t.fn.ctx given_done d || d.ctx_cancelled
        then forget t.key d₁
        else if panics
        then forget t.key (record d₁ {
          ran = d.ran ++ t.fn.fn ∷ [];
          reported = d.reported ++ callback_panic t.key ∷ [];
        })
        else forget t.key
            (record d₁ { ran = d.ran ++ t.fn.fn ∷ []; backoff = reset_backoff d.backoff })
  ]

  unfoldable pub expire : ℕ → Advanced Float F → Advanced Float F
  expire i d = record d { runtime = go_off i d.runtime }

  -- AddImmediate, with the goroutine that it starts.
  unfoldable pub add_immediate : Bool → Text → F → Advanced Float F → Advanced Float F
  unfolding cancel
  add_immediate panics key fn d =
      let d₁ = cancel key d in
      record d₁ {
        ran = d₁.ran ++ fn ∷ [];
        reported = if panics then d₁.reported ++ immediate_panic key ∷ [] else d₁.reported;
      }

  unfoldable pub handle_manual_sync : Bool → Request F → Advanced Float F → Advanced Float F
  unfolding cancel
  handle_manual_sync panics r d =
      let d₁ = cancel r.key d in
      if panics
      then record d₁ {
        ran = d₁.ran ++ r.fn ∷ [];
        answers = d₁.answers ++ (r.id, some (manual_panic r.key)) ∷ [];
        reported = d₁.reported ++ manual_panic r.key ∷ [];
      }
      else record d₁ { ran = d₁.ran ++ r.fn ∷ []; answers = d₁.answers ++ (r.id, none) ∷ [] }
