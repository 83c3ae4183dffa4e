-- ===== src/Debouncer/Backoff/History.antt =====
-- The activity history: bounded, in order, and inside the churn window.
use dot_sync_manager.Base.{
  ℕ, zero, suc, ◌+◌, ◌-◌, ◌≤◌, List, [], ◌∷◌, ◌++◌, ltb, All, All-append, ◌≡◌, refl, length,
  length-drop, drop, arith, Bool-cases, inl, inr,
}
use dot_sync_manager.Debouncer.Backoff.{Backoff, drop_before, cap_history, record_activity}

-- Readings of a clock that does not go back.
abbrev pub IsOrdered : List ℕ → Type 0
IsOrdered [] = Unit
IsOrdered (t ∷ ts) = All (λ u. t ≤ u) ts × IsOrdered ts

IsOrdered-append :
    (ts : List ℕ) (now : ℕ) → IsOrdered ts → All (λ t. t ≤ now) ts → IsOrdered (ts ++ now ∷ [])
IsOrdered-append [] now h le = (tt, tt)
IsOrdered-append (t ∷ ts) now (ht, hts) (le, les) =
    (All-append (λ u. t ≤ u) ts (now ∷ []) ht (le, tt), IsOrdered-append ts now hts les)

All-le-append :
    (ts : List ℕ) (now : ℕ) → All (λ t. t ≤ now) ts → All (λ t. t ≤ now) (ts ++ now ∷ [])
All-le-append ts now le = All-append (λ t. t ≤ now) ts (now ∷ []) le (omega arith, tt)

All-map {κ μ} :
    (P : ℕ → Type κ) (Q : ℕ → Type μ) (ts : List ℕ) → ((t : ℕ) → P t → Q t) → All P ts → All Q ts
All-map P Q [] f h = tt
All-map P Q (t ∷ ts) f (ht, hts) = (f t ht, All-map P Q ts f hts)

All-drop {κ} : (P : ℕ → Type κ) (n : ℕ) (ts : List ℕ) → All P ts → All P (drop n ts)
All-drop P zero ts h = h
All-drop P (suc n) [] h = tt
All-drop P (suc n) (t ∷ ts) (ht, hts) = All-drop P n ts hts

IsOrdered-drop : (n : ℕ) (ts : List ℕ) → IsOrdered ts → IsOrdered (drop n ts)
IsOrdered-drop zero ts h = h
IsOrdered-drop (suc n) [] h = tt
IsOrdered-drop (suc n) (t ∷ ts) (ht, hts) = IsOrdered-drop n ts hts

-- In an ordered history all that is too old stands in front.
drop_before-window :
    (w now : ℕ) (ts : List ℕ) → IsOrdered ts → All (λ t. now ≤ t + w) (drop_before w now ts)
unfolding drop_before
drop_before-window w now [] h = tt
drop_before-window w now (t ∷ ts) (ht, hts) = elim (Bool-cases (ltb (t + w) now)) [
  | inl old ↦ rw old (drop_before-window w now ts hts)
  | inr young ↦
      rw young (ground arith, All-map (λ u. t ≤ u) (λ u. now ≤ u + w) ts (λ u le. ground arith) ht)
]

drop_before-All {κ} :
    (P : ℕ → Type κ) (w now : ℕ) (ts : List ℕ) → All P ts → All P (drop_before w now ts)
unfolding drop_before
drop_before-All P w now [] h = tt
drop_before-All P w now (t ∷ ts) (ht, hts) = elim (Bool-cases (ltb (t + w) now)) [
  | inl old ↦ rw old (drop_before-All P w now ts hts)
  | inr young ↦ rw young (ht, hts)
]

drop_before-IsOrdered : (w now : ℕ) (ts : List ℕ) → IsOrdered ts → IsOrdered (drop_before w now ts)
unfolding drop_before
drop_before-IsOrdered w now [] h = tt
drop_before-IsOrdered w now (t ∷ ts) (ht, hts) = elim (Bool-cases (ltb (t + w) now)) [
  | inl old ↦ rw old (drop_before-IsOrdered w now ts hts)
  | inr young ↦ rw young (ht, hts)
]

length-cap_history : (cap : ℕ) (ts : List ℕ) → length (cap_history cap ts) ≤ cap
unfolding cap_history
length-cap_history cap ts = ground (arith, length-drop (length ts - cap) ts)

cap_history-All {κ} :
    (P : ℕ → Type κ) (cap : ℕ) (ts : List ℕ) → All P ts → All P (cap_history cap ts)
unfolding cap_history
cap_history-All P cap ts h = elim (Bool-cases (ltb cap (length ts))) [
  | inl long ↦ rw long (All-drop P (length ts - cap) ts h)
  | inr short ↦ rw short h
]

cap_history-IsOrdered : (cap : ℕ) (ts : List ℕ) → IsOrdered ts → IsOrdered (cap_history cap ts)
unfolding cap_history
cap_history-IsOrdered cap ts h = elim (Bool-cases (ltb cap (length ts))) [
  | inl long ↦ rw long (IsOrdered-drop (length ts - cap) ts h)
  | inr short ↦ rw short h
]

-- In order, and no reading lies in the future of `now`.
pub record IsHistory (now : ℕ) (ts : List ℕ) : Type 0 where
  pub ordered : IsOrdered ts
  pub past : All (λ t. t ≤ now) ts

-- Recording an activity keeps the history in order, within its cap, and inside the churn window.
pub record_activity-window :
    {Float : Type 0} (b : Backoff Float) (before now : ℕ)
    → IsHistory before b.activity_history
    → before ≤ now
    → let b' = record_activity now b in
      IsHistory now b'.activity_history
      × All (λ t. now ≤ t + b.churn_window) b'.activity_history
      × (length b'.activity_history ≤ b.max_activity_history)
      × (b'.last_activity_time ≡ now)
unfolding record_activity
record_activity-window b before now h le =
    let ts = b.activity_history in
    let w = b.churn_window in
    let cap = b.max_activity_history in
    let all = All-map (λ t. t ≤ before) (λ t. t ≤ now) ts (λ t p. omega arith) h.past in
    let ord = IsOrdered-append ts now h.ordered all in
    let past = All-le-append ts now all in
    (
      record {
        ordered = cap_history-IsOrdered cap _ (drop_before-IsOrdered w now _ ord);
        past = cap_history-All (λ t. t ≤ now) cap _ (drop_before-All (λ t. t ≤ now) w now _ past);
      },
      cap_history-All (λ t. now ≤ t + w) cap _ (drop_before-window w now _ ord),
      length-cap_history cap _,
      refl,
    )
