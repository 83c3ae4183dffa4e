-- ===== src/Debouncer/Timers.antt =====
-- The Go runtime's timers: time.AfterFunc and Timer.Stop. A timer is armed until it is stopped or
-- goes off. One that has gone off runs its closure in a goroutine of its own, which first waits for
-- the debouncer's mutex: until then it is on the list `firing`, where Stop no longer reaches it.
use dot_sync_manager.Base.{ℕ, ◌+◌, ◌==◌, List, [], ◌∷◌, ◌++◌, Option, none, some, if◌then◌else◌}
use dot_sync_manager.Base.{Text}

-- A *time.Timer, told apart by `id`, with what its closure captured.
pub record Timer (F : Type 0) : Type 0 where
  pub id : ℕ
  pub key : Text
  pub fn : F

module _ {F : Type 0} where
  unfoldable pub remove_id : ℕ → List (Timer F) → List (Timer F)
  remove_id i [] = []
  remove_id i (t ∷ ts) = let rest = remove_id i ts in if t.id == i then rest else t ∷ rest

  unfoldable pub find_id : ℕ → List (Timer F) → Option (Timer F)
  find_id i [] = none
  find_id i (t ∷ ts) = if t.id == i then some t else find_id i ts

pub record Runtime (F : Type 0) : Type 0 where
  pub next : ℕ
  pub armed : List (Timer F)
  pub firing : List (Timer F)

module _ {F : Type 0} where
  -- time.AfterFunc: the id of the new timer is `next`.
  unfoldable pub after_func : Text → F → Runtime F → Runtime F
  after_func key fn r = record r {
    next = r.next + 1;
    armed = r.armed ++ record { id = r.next; key = key; fn = fn } ∷ [];
  }

  -- timer.Stop()
  unfoldable pub stop : ℕ → Runtime F → Runtime F
  unfolding remove_id
  stop i r = record r { armed = remove_id i r.armed }

  -- The runtime starts the closure of an armed timer.
  unfoldable pub go_off : ℕ → Runtime F → Runtime F
  unfolding remove_id find_id
  go_off i r = elim (find_id i r.armed) [
    | none ↦ r
    | some t ↦ record r { armed = remove_id i r.armed; firing = r.firing ++ t ∷ [] }
  ]

  -- The closure of a timer that has gone off gets the mutex.
  unfoldable pub take_firing : ℕ → Runtime F → Option (Timer F)
  unfolding find_id
  take_firing i r = find_id i r.firing

  unfoldable pub end_firing : ℕ → Runtime F → Runtime F
  unfolding remove_id
  end_firing i r = record r { firing = remove_id i r.firing }
