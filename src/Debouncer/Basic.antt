-- ===== src/Debouncer/Basic.antt =====
-- internal/debouncer/debouncer.go. The mutex makes each method, and the body of each timer's closure,
-- one step. A callback is a value of `F`; running it is recorded, and it returns or panics.
pub mod Invariant
pub mod Debounce
pub mod Fire
pub mod Runs
pub mod Stale
use dot_sync_manager.Base.{ℕ, List, [], ◌∷◌, ◌++◌, none, some, Bool, if◌then◌else◌, Text, length}
use dot_sync_manager.Base.Int.{ℤ}
use dot_sync_manager.Base.Dict.{Dict, lookup, insert, erase}
use dot_sync_manager.Debouncer.Timers.{Runtime, after_func, stop, go_off, take_firing, end_firing}

-- The struct, the runtime's timers that its methods arm and stop, and the callbacks run so far.
pub record Debouncer (F : Type 0) : Type 0 where
  pub delay : ℤ
  pub timers : Dict ℕ
  pub callback : Dict F
  pub runtime : Runtime F
  pub ran : List F

module _ {F : Type 0} where
  unfoldable pub new : ℤ → Debouncer F
  new delay = record {
    delay = delay;
    timers = [];
    callback = [];
    runtime = record { next = 0; armed = []; firing = [] };
    ran = [];
  }

  -- Cancel: stop the timer of the key, if the map holds one, and drop both entries.
  unfoldable pub cancel : Text → Debouncer F → Debouncer F
  cancel key d = elim (lookup key d.timers) [
    | none ↦ d
    | some i ↦ record d {
      timers = erase key d.timers;
      callback = erase key d.callback;
      runtime = stop i d.runtime;
    }
  ]

  -- The part of Add below the cancellation.
  unfoldable pub arm : Text → F → Debouncer F → Debouncer F
  arm key fn d = record d {
    callback = insert key fn d.callback;
    timers = insert key d.runtime.next d.timers;
    runtime = after_func key fn d.runtime;
  }

  unfoldable pub add : Text → F → Debouncer F → Debouncer F
  unfolding cancel arm
  add key fn d = arm key fn (cancel key d)

  -- The closure that Add gives to time.AfterFunc, once it holds the mutex. A panic skips the clean-up.
  unfoldable pub on_timer : ℕ → Bool → Debouncer F → Debouncer F
  on_timer i panics d = elim (take_firing i d.runtime) [
    | none ↦ d
    | some t ↦
        let d' : Debouncer F = record d {
          runtime = end_firing i d.runtime;
          ran = d.ran ++ t.fn ∷ [];
        } in
        if panics
        then d'
        else record d' { timers = erase t.key d.timers; callback = erase t.key d.callback }
  ]

  -- The loop of CancelAll over the timers that the map held at its start.
  unfoldable pub cancel_each : Dict ℕ → Debouncer F → Debouncer F
  cancel_each [] d = d
  cancel_each ((key, i) ∷ rest) d = cancel_each rest (record d {
    timers = erase key d.timers;
    callback = erase key d.callback;
    runtime = stop i d.runtime;
  })

  unfoldable pub cancel_all : Debouncer F → Debouncer F
  unfolding cancel_each
  cancel_all d = cancel_each d.timers d

  unfoldable pub pending : Debouncer F → ℕ
  pending d = length d.timers

  unfoldable pub set_delay : ℤ → Debouncer F → Debouncer F
  set_delay delay d = record d { delay = delay }

  unfoldable pub get_delay : Debouncer F → ℤ
  get_delay d = d.delay

  -- The runtime starts the closure of a timer.
  unfoldable pub expire : ℕ → Debouncer F → Debouncer F
  expire i d = record d { runtime = go_off i d.runtime }

  -- A timer goes off and its closure gets the mutex before anything else happens.
  unfoldable pub fire : ℕ → Bool → Debouncer F → Debouncer F
  unfolding expire on_timer
  fire i panics d = on_timer i panics (expire i d)
