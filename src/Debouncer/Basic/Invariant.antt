-- ===== src/Debouncer/Basic/Invariant.antt =====
-- What holds of the basic debouncer between steps, as long as no closure waits for the mutex.
use dot_sync_manager.Base.{
  ℕ, ◌<◌, ◌==◌, List, [], ◌∷◌, ◌++◌, none, some, false, Text, All, ◌≡◌, refl, arith, eq_text_iff,
  eq_text_refl, Bool-cases, Option-cases, inl, inr, is_some,
}
use dot_sync_manager.Base.Int.{ℤ}
use dot_sync_manager.Base.Dict.{
  Dict, lookup, insert, erase, lookup-nil, lookup-insert, lookup-erase, lookup-insert_self,
}
use dot_sync_manager.Debouncer.Timers.{Timer, after_func, stop, remove_id}
use dot_sync_manager.Debouncer.Basic.{Debouncer, new, cancel, arm, add}

-- The map holds the timer under its key, and under no other.
pub record IsTracked {F : Type 0} (timers : Dict ℕ) (t : Timer F) : Type 0 where
  pub tracked : lookup t.key timers ≡ some t.id
  pub owned : (k : Text) → lookup k timers ≡ some t.id → k ≡ t.key

pub record Inv {F : Type 0} (d : Debouncer F) : Type 0 where
  pub armed : All (IsTracked d.timers) d.runtime.armed
  pub fresh : (k : Text) (i : ℕ) → lookup k d.timers ≡ some i → i < d.runtime.next
  pub idle : d.runtime.firing ≡ []
  pub paired : (k : Text) → is_some (lookup k d.timers) ≡ is_some (lookup k d.callback)

module _ {F : Type 0} where
  pub new-Inv : (delay : ℤ) → Inv {F = F} (new delay)
  unfolding new
  new-Inv delay = record {
    armed = tt;
    fresh = λ k i h. absurd (ground (arith, lookup-nil {V = ℕ} k));
    idle = refl;
    paired = λ k. ground (arith, lookup-nil {V = ℕ} k, lookup-nil {V = F} k);
  }

  IsTracked-erase :
      (k : Text) (m : Dict ℕ) (t : Timer F) (i : ℕ)
      → lookup k m ≡ some i
      → (t.id == i) ≡ false
      → IsTracked m t
      → IsTracked (erase k m) t
  IsTracked-erase k m t i held other h = record {
    tracked = ground (arith, lookup-erase t.key k m, eq_text_iff k t.key, h.tracked);
    owned = λ j e. h.owned j (ground (arith, lookup-erase j k m));
  }

  -- Once the key's timer is stopped, the rest are tracked by the map without the key.
  pub remove_id-IsTracked :
      (k : Text) (m : Dict ℕ) (i : ℕ) (ts : List (Timer F))
      → lookup k m ≡ some i
      → All (IsTracked m) ts
      → All (IsTracked (erase k m)) (remove_id i ts)
  unfolding remove_id
  remove_id-IsTracked k m i [] held h = tt
  remove_id-IsTracked k m i (t ∷ ts) held (ht, hts) = elim (Bool-cases (t.id == i)) [
    | inl same ↦ rw same (remove_id-IsTracked k m i ts held hts)
    | inr other ↦
        rw other (IsTracked-erase k m t i held other ht, remove_id-IsTracked k m i ts held hts)
  ]

  pub cancel-Inv : (k : Text) (d : Debouncer F) → Inv d → Inv (cancel k d)
  unfolding cancel stop
  cancel-Inv k d v = elim (Option-cases (lookup k d.timers)) [
    | inl absent ↦ rw (absent, cancel) v
    | inr (i, held) ↦
        rw (held, cancel)
          (record {
            armed = remove_id-IsTracked k d.timers i d.runtime.armed held v.armed;
            fresh = λ j n h. v.fresh j n (ground (arith, lookup-erase j k d.timers));
            idle = v.idle;
            paired = λ j.
                ground (arith, lookup-erase j k d.timers, lookup-erase j k d.callback, v.paired j);
          })
  ]

  IsTracked-insert :
      (k : Text) (m : Dict ℕ) (n : ℕ) (t : Timer F)
      → lookup k m ≡ none
      → (t.id == n) ≡ false
      → IsTracked m t
      → IsTracked (insert k n m) t
  IsTracked-insert k m n t absent other h = record {
    tracked = ground (arith, lookup-insert t.key k n m, eq_text_iff k t.key, h.tracked);
    owned = λ j e. h.owned j (ground (arith, lookup-insert j k n m));
  }

  append-IsTracked :
      (k : Text) (m : Dict ℕ) (n : ℕ) (fn : F) (ts : List (Timer F))
      → lookup k m ≡ none
      → ((j : Text) (i : ℕ) → lookup j m ≡ some i → i < n)
      → All (IsTracked m) ts
      → All (IsTracked (insert k n m)) (ts ++ record { id = n; key = k; fn = fn } ∷ [])
  append-IsTracked k m n fn [] absent fresh h = (
    record {
      tracked = lookup-insert_self k n m;
      owned = λ j e. ground (arith, lookup-insert j k n m, eq_text_iff k j, fresh j n);
    },
    tt,
  )
  append-IsTracked k m n fn (t ∷ ts) absent fresh (ht, hts) = (
    IsTracked-insert k m n t absent (ground (arith, fresh t.key t.id, ht.tracked)) ht,
    append-IsTracked k m n fn ts absent fresh hts,
  )

  arm-Inv :
      (k : Text) (fn : F) (d : Debouncer F) → lookup k d.timers ≡ none → Inv d → Inv (arm k fn d)
  unfolding arm after_func
  arm-Inv k fn d absent v = record {
    armed = append-IsTracked k d.timers d.runtime.next fn d.runtime.armed absent v.fresh v.armed;
    fresh = λ j i h.
        ground (arith, lookup-insert j k d.runtime.next d.timers, eq_text_iff k j, v.fresh j i);
    idle = v.idle;
    paired = λ j. ground (
      arith,
      lookup-insert j k d.runtime.next d.timers,
      lookup-insert j k fn d.callback,
      v.paired j,
    );
  }

  pub lookup-cancel : (k : Text) (d : Debouncer F) → lookup k (cancel k d).timers ≡ none
  unfolding cancel
  lookup-cancel k d = ground (arith, lookup-erase k k d.timers, eq_text_refl k)

  pub add-Inv : (k : Text) (fn : F) (d : Debouncer F) → Inv d → Inv (add k fn d)
  unfolding add
  add-Inv k fn d v = arm-Inv k fn (cancel k d) (lookup-cancel k d) (cancel-Inv k d v)
