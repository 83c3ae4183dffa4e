-- ===== src/Tests/Debouncing.antt =====
-- internal/debouncer and internal/status on small inputs. A callback is a number.
use dot_sync_manager.Base.{ℕ, List, [], ◌∷◌, some, false, ◌≡◌, refl, Text, codes, eq_text}
use dot_sync_manager.Base.Int.{pos}
use dot_sync_manager.Base.Dict.{lookup, insert, erase}
use dot_sync_manager.Debouncer.Timers.{
  Timer, take_firing, remove_id, end_firing, find_id, after_func, stop, go_off,
}
use dot_sync_manager.Debouncer.Basic.{Debouncer, new, add, fire}
use dot_sync_manager.Debouncer.Basic.Invariant.{Inv, new-Inv, add-Inv}
use dot_sync_manager.Debouncer.Basic.Runs.{Op, add_op, cancel_op, fire_op}

abbrev sync_key : Text
sync_key = codes "sync"

abbrev other_key : Text
other_key = codes "other"

abbrev fresh : Debouncer ℕ
fresh = new (pos 30)

fresh-Inv : Inv fresh
fresh-Inv = new-Inv (pos 30)

-- Two calls of Add with one key: only the second callback runs.
two_adds : (fire 1 false (add sync_key 8 (add sync_key 7 fresh))).ran ≡ 8 ∷ []
unfolding new fire add take_firing go_off after_func lookup insert erase stop find_id remove_id
    end_firing eq_text
two_adds = refl

abbrev ops : List (Op ℕ)
ops = add_op sync_key 7 ∷ add_op other_key 9 ∷ cancel_op other_key ∷ fire_op 0 false ∷ []

abbrev one_timer : Debouncer ℕ
one_timer = add sync_key 7 fresh

one_timer-Inv : Inv one_timer
one_timer-Inv = add-Inv sync_key 7 fresh fresh-Inv

abbrev first_timer : Timer ℕ
first_timer = record { id = 0; key = sync_key; fn = 7 }

first_found : find_id 0 one_timer.runtime.armed ≡ some first_timer
unfolding add new find_id after_func lookup
first_found = refl
