-- ===== src/Debouncer/Basic/Fire.antt =====
-- A timer that goes off and runs at once, and CancelAll, keep the invariant.
use dot_sync_manager.Base.{
  ℕ, ◌==◌, ==_iff, List, [], ◌∷◌, ◌++◌, none, some, Bool, true, false, if◌then◌else◌, Text, All,
  ◌≡◌, refl, ◌∙◌, arith, Bool-cases, Option-cases, inl, inr, is_some,
}
use dot_sync_manager.Base.Dict.{Dict, lookup, erase, lookup-nil, lookup-erase, eq-nil_of_lookup}
use dot_sync_manager.Debouncer.Timers.{
  Timer, stop, go_off, take_firing, end_firing, remove_id, find_id,
}
use dot_sync_manager.Debouncer.Basic.{Debouncer, fire, cancel_each, cancel_all}
use dot_sync_manager.Debouncer.Basic.Invariant.{Inv, IsTracked, remove_id-IsTracked}

module _ {F : Type 0} where
  pub find_id_sound :
      (i : ℕ) (m : Dict ℕ) (ts : List (Timer F)) (t : Timer F)
      → All (IsTracked m) ts
      → find_id i ts ≡ some t
      → (t.id ≡ i) × (lookup t.key m ≡ some i)
  unfolding find_id
  find_id_sound i m [] t h e = absurd (cc)
  find_id_sound i m (u ∷ ts) t (hu, hts) e = elim (Bool-cases (u.id == i)) [
    | inl same ↦
        let u≡t : u ≡ t = ground arith in
        rw (← u≡t) ((==_iff u.id i).0 same, ground (arith, hu.tracked))
    | inr other ↦ find_id_sound i m ts t hts (ground arith)
  ]

  -- Firing an armed timer runs its callback, and a clean return clears the key.
  pub fire-some :
      (i : ℕ) (panics : Bool) (d : Debouncer F) (t : Timer F)
      → Inv d
      → find_id i d.runtime.armed ≡ some t
      → fire i panics d ≡ record d {
        runtime = record {
          next = d.runtime.next;
          armed = remove_id i d.runtime.armed;
          firing = [];
        };
        ran = d.ran ++ t.fn ∷ [];
        timers = if panics then d.timers else erase t.key d.timers;
        callback = if panics then d.callback else erase t.key d.callback;
      }
  unfolding fire go_off take_firing end_firing find_id remove_id
  fire-some i panics d t v found =
      let own = (find_id_sound i d.timers d.runtime.armed t v.armed found).0 in
      ground (arith, v.idle)

  -- A timer that is not armed does not fire.
  pub fire-none :
      (i : ℕ) (panics : Bool) (d : Debouncer F)
      → Inv d
      → find_id i d.runtime.armed ≡ none
      → fire i panics d ≡ d
  unfolding fire go_off take_firing find_id
  fire-none i panics d v absent = ground (arith, v.idle)

  remove_id-All {κ} :
      (P : Timer F → Type κ) (i : ℕ) (ts : List (Timer F)) → All P ts → All P (remove_id i ts)
  unfolding remove_id
  remove_id-All P i [] h = tt
  remove_id-All P i (t ∷ ts) (ht, hts) = elim (Bool-cases (t.id == i)) [
    | inl same ↦ rw same (remove_id-All P i ts hts)
    | inr other ↦ rw other (ht, remove_id-All P i ts hts)
  ]

  pub fire-Inv : (i : ℕ) (panics : Bool) (d : Debouncer F) → Inv d → Inv (fire i panics d)
  fire-Inv i panics d v = elim (Option-cases (find_id i d.runtime.armed)) [
    | inl absent ↦ rw (fire-none i panics d v absent) v
    | inr (t, found) ↦ rw (fire-some i panics d t v found) (after panics t found)
  ]
    where
      after :
          (panics : Bool) (t : Timer F)
          → find_id i d.runtime.armed ≡ some t
          → Inv (record d {
            runtime = record {
              next = d.runtime.next;
              armed = remove_id i d.runtime.armed;
              firing = [];
            };
            ran = d.ran ++ t.fn ∷ [];
            timers = if panics then d.timers else erase t.key d.timers;
            callback = if panics then d.callback else erase t.key d.callback;
          })
      after true t found = record {
        armed = remove_id-All (IsTracked d.timers) i d.runtime.armed v.armed;
        fresh = v.fresh;
        idle = refl;
        paired = v.paired;
      }
      after false t found = record {
        armed =
            remove_id-IsTracked t.key d.timers i d.runtime.armed
              (find_id_sound i d.timers d.runtime.armed t v.armed found).1 v.armed;
        fresh = λ k n h. v.fresh k n (ground (arith, lookup-erase k t.key d.timers));
        idle = refl;
        paired = λ k.
            ground
              (arith, lookup-erase k t.key d.timers, lookup-erase k t.key d.callback, v.paired k);
      }

  -- What CancelAll has done after the entries `m` of the map.
  lookup-cancel_each :
      (m : Dict ℕ) (k : Text) (d : Debouncer F)
      → lookup k (cancel_each m d).timers
        ≡ (if is_some (lookup k m) then none else lookup k d.timers)
  unfolding cancel_each lookup
  lookup-cancel_each [] k d = refl
  lookup-cancel_each ((j, i) ∷ m) k d =
      let d' = record d {
        timers = erase j d.timers;
        callback = erase j d.callback;
        runtime = stop i d.runtime;
      } in
      ground (arith, lookup-cancel_each m k d', lookup-erase k j d.timers)

  -- CancelAll leaves no timer in the map.
  pub timers-cancel_all : (d : Debouncer F) → (cancel_all d).timers ≡ []
  unfolding cancel_all
  timers-cancel_all d = eq-nil_of_lookup _ (λ k. ground (arith, lookup-cancel_each d.timers k d))

  left_by :
      (m : Dict ℕ) (j : Text) (i : ℕ) (ts : List (Timer F))
      → All (λ t. lookup t.key ((j, i) ∷ m) ≡ some t.id) ts
      → All (λ t. lookup t.key m ≡ some t.id) (remove_id i ts)
  unfolding remove_id lookup
  left_by m j i [] h = tt
  left_by m j i (t ∷ ts) (ht, hts) = elim (Bool-cases (t.id == i)) [
    | inl same ↦ rw same (left_by m j i ts hts)
    | inr other ↦ rw other (ground arith, left_by m j i ts hts)
  ]

  armed-cancel_each :
      (m : Dict ℕ) (d : Debouncer F)
      → All (λ t. lookup t.key m ≡ some t.id) d.runtime.armed
      → (cancel_each m d).runtime.armed ≡ []
  unfolding cancel_each stop
  armed-cancel_each [] d h = go d.runtime.armed h
    where
      go : (ts : List (Timer F)) → All (λ t. lookup t.key [] ≡ some t.id) ts → ts ≡ []
      go [] h = refl
      go (t ∷ ts) (ht, _) = absurd (ground (arith, lookup-nil {V = ℕ} t.key))
  armed-cancel_each ((j, i) ∷ m) d h = armed-cancel_each m _ (left_by m j i d.runtime.armed h)

  tracked-lookup :
      (m : Dict ℕ) (ts : List (Timer F))
      → All (IsTracked m) ts
      → All (λ t. lookup t.key m ≡ some t.id) ts
  tracked-lookup m [] h = tt
  tracked-lookup m (t ∷ ts) (ht, hts) = (ht.tracked, tracked-lookup m ts hts)

  -- CancelAll empties the map and stops every armed timer.
  cancel_all_empties :
      (d : Debouncer F) → Inv d → ((cancel_all d).timers ≡ []) × ((cancel_all d).runtime.armed ≡ [])
  unfolding cancel_all
  cancel_all_empties d v = (
    timers-cancel_all d,
    armed-cancel_each d.timers d (tracked-lookup d.timers d.runtime.armed v.armed),
  )

  lookup-cancel_each_callback :
      (m : Dict ℕ) (k : Text) (d : Debouncer F)
      → lookup k (cancel_each m d).callback
        ≡ (if is_some (lookup k m) then none else lookup k d.callback)
  unfolding cancel_each lookup
  lookup-cancel_each_callback [] k d = refl
  lookup-cancel_each_callback ((j, i) ∷ m) k d =
      let d' = record d {
        timers = erase j d.timers;
        callback = erase j d.callback;
        runtime = stop i d.runtime;
      } in
      ground (arith, lookup-cancel_each_callback m k d', lookup-erase k j d.callback)

  firing-cancel_each :
      (m : Dict ℕ) (d : Debouncer F) → (cancel_each m d).runtime.firing ≡ d.runtime.firing
  unfolding cancel_each stop
  firing-cancel_each [] d = refl
  firing-cancel_each ((j, i) ∷ m) d = firing-cancel_each m _

  pub cancel_all-Inv : (d : Debouncer F) → Inv d → Inv (cancel_all d)
  cancel_all-Inv d v =
      let (gone, stopped) = cancel_all_empties d v in
      record {
        armed = rw stopped tt;
        fresh = λ k i h. absurd (ground (arith, lookup-nil {V = ℕ} k));
        idle = unfold cancel_all in firing-cancel_each d.timers d ∙ v.idle;
        paired = λ k.
            unfold cancel_all in
            ground (
              arith,
              lookup-cancel_each d.timers k d,
              lookup-cancel_each_callback d.timers k d,
              v.paired k,
            );
      }
