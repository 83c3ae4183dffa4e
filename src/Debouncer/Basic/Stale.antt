-- ===== src/Debouncer/Basic/Stale.antt =====
-- A closure that waits for the mutex while Add replaces its timer: Timer.Stop comes too late, and the
-- closure's clean-up deletes the map entry of its successor.
use dot_sync_manager.Base.{
  ℕ, ◌+◌, List, [], ◌∷◌, ◌++◌, none, some, false, ◌≡◌, refl, arith, eq_text_refl,
}
use dot_sync_manager.Base.Dict.{lookup, erase, insert, lookup-erase_self}
use dot_sync_manager.Debouncer.Timers.{
  Timer, remove_id, find_id, after_func, stop, go_off, take_firing, end_firing,
}
use dot_sync_manager.Debouncer.Basic.{Debouncer, cancel, arm, add, expire, on_timer}
use dot_sync_manager.Debouncer.Basic.Invariant.{Inv, remove_id-IsTracked}
use dot_sync_manager.Debouncer.Basic.Debounce.{keyed, keyed-append, keyed_of_absent, added}
use dot_sync_manager.Debouncer.Basic.Fire.{find_id_sound}

module _ {F : Type 0} where
  remove_id_idem : (i : ℕ) (ts : List (Timer F)) → remove_id i (remove_id i ts) ≡ remove_id i ts
  unfolding remove_id
  remove_id_idem i [] = refl
  remove_id_idem i (t ∷ ts) = ground (arith, remove_id_idem i ts)

  -- The timer `t` goes off, Add with its key gets the mutex first, then the closure of `t` does.
  unfoldable pub overtaken : Timer F → F → Debouncer F → Debouncer F
  overtaken t fn d = on_timer t.id false (add t.key fn (expire t.id d))

  overtaken_lem :
      (t : Timer F) (fn : F) (d : Debouncer F)
      → Inv d
      → find_id t.id d.runtime.armed ≡ some t
      → overtaken t fn d ≡ record d {
        timers = erase t.key (insert t.key d.runtime.next (erase t.key d.timers));
        callback = erase t.key (insert t.key fn (erase t.key d.callback));
        runtime = record {
          next = d.runtime.next + 1;
          armed = remove_id t.id d.runtime.armed ++ added t.key fn d ∷ [];
          firing = [];
        };
        ran = d.ran ++ t.fn ∷ [];
      }
  unfolding overtaken expire go_off add cancel arm after_func stop on_timer take_firing end_firing
      added find_id
  overtaken_lem t fn d v found = ground (
    arith,
    v.idle,
    (find_id_sound t.id d.timers d.runtime.armed t v.armed found).1,
    remove_id_idem t.id d.runtime.armed,
  )

  -- A closure that has gone off but waits for the mutex while Add replaces its timer still runs its own
  -- callback, and its clean-up takes the new timer out of the map: the new timer stays armed, its key
  -- is no longer pending, and Cancel of the key changes nothing.
  stale_closure_untracks :
      (t : Timer F) (fn : F) (d : Debouncer F)
      → Inv d
      → find_id t.id d.runtime.armed ≡ some t
      → let d' = overtaken t fn d in
        (d'.ran ≡ d.ran ++ t.fn ∷ [])
        × (lookup t.key d'.timers ≡ none)
        × (keyed t.key d'.runtime.armed ≡ added t.key fn d ∷ [])
        × (cancel t.key d' ≡ d')
  unfolding cancel overtaken
  stale_closure_untracks t fn d v found =
      let e = overtaken_lem t fn d v found in
      let m = erase t.key d.timers in
      let held = (find_id_sound t.id d.timers d.runtime.armed t v.armed found).1 in
      let rest = remove_id-IsTracked t.key d.timers t.id d.runtime.armed held v.armed in
      let gone : lookup t.key (overtaken t fn d).timers ≡ none =
        rw e (lookup-erase_self t.key (insert t.key d.runtime.next m)) in
      (
        rw e refl,
        gone,
        rw e (
            rw (keyed-append, keyed_of_absent t.key m _ (lookup-erase_self t.key d.timers) rest)
              (unfold keyed added in ground (arith, eq_text_refl t.key))),
        rw (gone, cancel) refl,
      )
