-- ===== src/Debouncer/Basic/Debounce.antt =====
-- What the basic debouncer promises: of several calls of Add with one key only the last callback runs,
-- and Cancel and CancelAll leave nothing that could run.
use dot_sync_manager.Base.{
  ℕ, List, [], ◌∷◌, ◌++◌, none, some, false, append-nil, if◌then◌else◌, Text, All, ◌≡◌, ◌≢◌, refl,
  arith, eq_text, eq_text_iff, eq_text_refl, Option-cases, inl, inr,
}
use dot_sync_manager.Base.Dict.{Dict, lookup}
use dot_sync_manager.Debouncer.Timers.{Timer, after_func, stop, remove_id}
use dot_sync_manager.Debouncer.Basic.{Debouncer, cancel, arm, add}
use dot_sync_manager.Debouncer.Basic.Invariant.{Inv, IsTracked, cancel-Inv, lookup-cancel}

module _ {F : Type 0} where
  -- The armed timers of a key.
  unfoldable pub keyed : Text → List (Timer F) → List (Timer F)
  keyed k [] = []
  keyed k (t ∷ ts) = let rest = keyed k ts in if eq_text t.key k then t ∷ rest else rest

  pub keyed-append :
      (k : Text) (xs ys : List (Timer F)) → keyed k (xs ++ ys) ≡ keyed k xs ++ keyed k ys
  unfolding keyed
  keyed-append k [] ys = refl
  keyed-append k (t ∷ ts) ys = ground (arith, keyed-append k ts ys)

  -- A key that the map does not hold has no armed timer.
  pub keyed_of_absent :
      (k : Text) (m : Dict ℕ) (ts : List (Timer F))
      → lookup k m ≡ none
      → All (IsTracked m) ts
      → keyed k ts ≡ []
  unfolding keyed
  keyed_of_absent k m [] absent h = refl
  keyed_of_absent k m (t ∷ ts) absent (ht, hts) =
      ground (arith, keyed_of_absent k m ts absent hts, eq_text_iff t.key k, ht.tracked)

  -- Stopping the timer that the map holds for `k` leaves the timers of the other keys.
  keyed-remove_id :
      (j k : Text) (m : Dict ℕ) (i : ℕ) (ts : List (Timer F))
      → lookup k m ≡ some i
      → eq_text k j ≡ false
      → All (IsTracked m) ts
      → keyed j (remove_id i ts) ≡ keyed j ts
  unfolding keyed remove_id
  keyed-remove_id j k m i [] held ne h = refl
  keyed-remove_id j k m i (t ∷ ts) held ne (ht, hts) = ground (
    arith,
    keyed-remove_id j k m i ts held ne hts,
    ht.owned k,
    eq_text_iff t.key j,
    eq_text_iff k j,
  )

  keyed-cancel_ne :
      (j k : Text) (d : Debouncer F)
      → eq_text k j ≡ false
      → Inv d
      → keyed j (cancel k d).runtime.armed ≡ keyed j d.runtime.armed
  unfolding cancel stop
  keyed-cancel_ne j k d ne v = elim (Option-cases (lookup k d.timers)) [
    | inl absent ↦ rw (absent, cancel) refl
    | inr (i, held) ↦
        rw (held, cancel) (keyed-remove_id j k d.timers i d.runtime.armed held ne v.armed)
  ]

  pub keyed-cancel_self :
      (k : Text) (d : Debouncer F) → Inv d → keyed k (cancel k d).runtime.armed ≡ []
  keyed-cancel_self k d v =
      keyed_of_absent k (cancel k d).timers _ (lookup-cancel k d) (cancel-Inv k d v).armed

  pub next-cancel : (k : Text) (d : Debouncer F) → (cancel k d).runtime.next ≡ d.runtime.next
  unfolding cancel stop
  next-cancel k d = ground arith

  -- The timer that Add arms.
  unfoldable pub added : Text → F → Debouncer F → Timer F
  added k fn d = record { id = d.runtime.next; key = k; fn = fn }

  -- After Add the new timer is the only armed timer of its key.
  pub keyed-add_self :
      (k : Text) (fn : F) (d : Debouncer F)
      → Inv d
      → keyed k (add k fn d).runtime.armed ≡ added k fn d ∷ []
  unfolding add arm after_func keyed added
  keyed-add_self k fn d v =
      rw (keyed-append, keyed-cancel_self k d v, next-cancel) (ground (arith, eq_text_refl k))

  -- Add leaves the timers of the other keys alone.
  keyed-add_ne :
      (j k : Text) (fn : F) (d : Debouncer F)
      → k ≢ j
      → Inv d
      → keyed j (add k fn d).runtime.armed ≡ keyed j d.runtime.armed
  unfolding add arm after_func keyed
  keyed-add_ne j k fn d ne v =
      let ne' : eq_text k j ≡ false = ground (arith, eq_text_iff k j) in
      rw (keyed-append, keyed-cancel_ne j k d ne' v) (rw ne' (append-nil _))
