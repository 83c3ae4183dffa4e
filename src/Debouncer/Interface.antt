-- ===== src/Debouncer/Interface.antt =====
-- DebouncerInterface of internal/sync/service.go, with what the service relies on, and the two debouncers
-- that implement it. `Env` is what one call of Add finds of the world: the clock.
use dot_sync_manager.Base.{
  ℕ, ◌≤◌, [], ◌∷◌, none, ◌≡◌, refl, arith, Text, length, if◌then◌else◌, is_some,
}
use dot_sync_manager.Base.Dict.{Dict, lookup, insert, erase, eq-nil_of_lookup, lookup-erase}
use dot_sync_manager.Debouncer.Basic
use dot_sync_manager.Debouncer.Basic.{Debouncer}
use dot_sync_manager.Debouncer.Basic.Fire.{timers-cancel_all}
use dot_sync_manager.Debouncer.Timers.{stop}
use dot_sync_manager.Debouncer.Backoff.{FloatOps}
use dot_sync_manager.Debouncer.Advanced as Timed
use dot_sync_manager.Debouncer.Advanced.{Advanced}
use dot_sync_manager.Debouncer.Advanced.Queue

pub record DebouncerInterface (Env F D : Type 0) : Type 0 where
  pub add : Env → Text → F → D → D
  pub cancel : Text → D → D
  pub cancel_all : D → D
  pub pending : D → ℕ
  pub pending-cancel_all : (d : D) → pending (cancel_all d) ≡ 0
  pub pending-add : (env : Env) (k : Text) (fn : F) (d : D) → 1 ≤ pending (add env k fn d)

pub length-insert : {V : Type 0} (k : Text) (v : V) (m : Dict V) → 1 ≤ length (insert k v m)
unfolding insert
length-insert k v [] = omega arith
length-insert k v ((j, w) ∷ m) = ground arith

-- Of an AdvancedDebouncer: len(d.timers).
unfoldable pub pending : {Float F : Type 0} → Advanced Float F → ℕ
pending d = length d.timers

module _ {F : Type 0} where
  unfoldable pub basic_debouncer : DebouncerInterface Unit F (Debouncer F)
  unfolding Basic.pending Basic.add Basic.arm
  basic_debouncer = record {
    add = λ _ key fn d. Basic.add key fn d;
    cancel = Basic.cancel;
    cancel_all = Basic.cancel_all;
    pending = Basic.pending;
    pending-cancel_all = λ d. rw (timers-cancel_all d) refl;
    pending-add = λ _ k fn d. length-insert k _ _;
  }

  module _ {Float : Type 0} (ops : FloatOps Float) where
    lookup-cancel_each :
        (m : Dict ℕ) (k : Text) (d : Advanced Float F)
        → lookup k (Queue.cancel_each m d).timers
          ≡ (if is_some (lookup k m) then none else lookup k d.timers)
    unfolding Queue.cancel_each lookup
    lookup-cancel_each [] k d = refl
    lookup-cancel_each ((j, i) ∷ m) k d =
        let d' = record d {
          timers = erase j d.timers;
          callback = erase j d.callback;
          runtime = stop i d.runtime;
        } in
        ground (arith, lookup-cancel_each m k d', lookup-erase k j d.timers)

    pub timers-advanced_cancel_all : (d : Advanced Float F) → (Queue.cancel_all d).timers ≡ []
    unfolding Queue.cancel_all
    timers-advanced_cancel_all d =
        eq-nil_of_lookup _ (λ k. ground (arith, lookup-cancel_each d.timers k d))

    unfoldable pub advanced_debouncer : DebouncerInterface (ℕ × ℕ) F (Advanced Float F)
    unfolding pending Timed.add Timed.add_with_context
    advanced_debouncer = record {
      add = λ (t, t') key fn d. Timed.add ops t t' key fn d;
      cancel = Timed.cancel;
      cancel_all = Queue.cancel_all;
      pending = pending;
      pending-cancel_all = λ d. rw (timers-advanced_cancel_all d) refl;
      pending-add = λ (t, t') k fn d. length-insert k _ _;
    }
