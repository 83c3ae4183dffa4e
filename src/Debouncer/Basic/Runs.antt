-- ===== src/Debouncer/Basic/Runs.antt =====
-- Whole runs of the basic debouncer in which no closure has to wait for the mutex.
use dot_sync_manager.Base.{ℕ, List, [], ◌∷◌, ◌++◌, some, Bool, Text, All, ◌≡◌, ◌<◌, arith}
use dot_sync_manager.Base.Int.{ℤ}
use dot_sync_manager.Base.Dict.{Dict, lookup}
use dot_sync_manager.Debouncer.Timers.{Timer, find_id}
use dot_sync_manager.Debouncer.Basic.{Debouncer, new, cancel, add, fire, cancel_all, set_delay}
use dot_sync_manager.Debouncer.Basic.Invariant.{Inv, IsTracked, new-Inv, cancel-Inv, add-Inv}
use dot_sync_manager.Debouncer.Basic.Fire.{fire-Inv, cancel_all-Inv}

-- The calls of a client, and a timer that goes off and runs at once.
pub data Op (F : Type 0) : Type 0 where
  add_op : Text → F → Op F
  cancel_op : Text → Op F
  cancel_all_op : Op F
  set_delay_op : ℤ → Op F
  fire_op : ℕ → Bool → Op F

module _ {F : Type 0} where
  unfoldable pub perform : Op F → Debouncer F → Debouncer F
  perform (add_op k fn) d = add k fn d
  perform (cancel_op k) d = cancel k d
  perform cancel_all_op d = cancel_all d
  perform (set_delay_op n) d = set_delay n d
  perform (fire_op i panics) d = fire i panics d

  unfoldable pub run : List (Op F) → Debouncer F → Debouncer F
  unfolding perform
  run [] d = d
  run (op ∷ ops) d = run ops (perform op d)

  perform-Inv : (op : Op F) (d : Debouncer F) → Inv d → Inv (perform op d)
  unfolding perform set_delay
  perform-Inv (add_op k fn) d v = add-Inv k fn d v
  perform-Inv (cancel_op k) d v = cancel-Inv k d v
  perform-Inv cancel_all_op d v = cancel_all-Inv d v
  perform-Inv (set_delay_op n) d v = record {
    armed = v.armed;
    fresh = v.fresh;
    idle = v.idle;
    paired = v.paired;
  }
  perform-Inv (fire_op i panics) d v = fire-Inv i panics d v

  run-Inv : (ops : List (Op F)) (d : Debouncer F) → Inv d → Inv (run ops d)
  unfolding run
  run-Inv [] d v = v
  run-Inv (op ∷ ops) d v = run-Inv ops (perform op d) (perform-Inv op d v)

  -- Every state that a new debouncer reaches by any calls and firings satisfies the invariant.
  run-new-Inv : (ops : List (Op F)) (delay : ℤ) → Inv (run ops (new delay))
  run-new-Inv ops delay = run-Inv ops (new delay) (new-Inv delay)

  -- Add called once for each callback of a list, all with one key.
  unfoldable pub add_each : Text → List F → Debouncer F → Debouncer F
  add_each k [] d = d
  add_each k (fn ∷ fns) d = add_each k fns (add k fn d)

  pub find_id-append :
      (m : Dict ℕ) (ts : List (Timer F)) (u : Timer F)
      → All (IsTracked m) ts
      → ((k : Text) (i : ℕ) → lookup k m ≡ some i → i < u.id)
      → find_id u.id (ts ++ u ∷ []) ≡ some u
  unfolding find_id
  find_id-append m [] u h fresh = ground arith
  find_id-append m (t ∷ ts) u (ht, hts) fresh =
      ground (arith, find_id-append m ts u hts fresh, fresh t.key t.id, ht.tracked)
