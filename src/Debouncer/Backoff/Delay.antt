-- ===== src/Debouncer/Backoff/Delay.antt =====
-- The delay that Add computes: recordActivity at one clock reading, then calculateDelay at the next.
use Prim.Native.Nat.{max}
use dot_sync_manager.Base.{ℕ, ◌+◌, ◌≤◌, Bool, true, ◌&&◌, ◌≡◌, refl, if◌then◌else◌, arith}
use dot_sync_manager.Base.Int.{ℤ, pos, lebℤ, ◌≤ℤ◌, is_negative}
use dot_sync_manager.Debouncer.Backoff.{
  FloatOps, Backoff, record_activity, calculate_delay, is_churn_detected,
}

module _ {Float : Type 0} (ops : FloatOps Float) where
  -- What AddWithContext does to these fields: `t` is the reading of recordActivity, `t'` the later one.
  unfoldable pub next_delay : ℕ → ℕ → Backoff Float → Backoff Float × ℤ
  next_delay t t' b = calculate_delay ops t' (record_activity t b)

  -- Whether calculateDelay applies the backoff after an activity at `t`.
  unfoldable pub backs_off : ℕ → Backoff Float → Bool
  unfolding is_churn_detected
  backs_off t b =
      is_churn_detected (record_activity t b) && (b.backoff_enabled && ops.gt_one b.backoff_mult)

  -- The delay never exceeds the larger of the base and the maximum delay, and it is stored.
  calculate_delay_bounded :
      (now : ℕ) (b : Backoff Float)
      → let (b', delay) = calculate_delay ops now b in
        (delay ≤ℤ pos (max b.base_delay b.max_delay)) × (b'.current_delay ≡ delay)
  unfolding calculate_delay
  calculate_delay_bounded now b = ground arith

  settings :
      (t : ℕ) (b : Backoff Float)
      → ((record_activity t b).last_activity_time ≡ t)
        × ((record_activity t b).backoff_count ≡ b.backoff_count)
        × ((record_activity t b).decay_reset_duration ≡ b.decay_reset_duration)
        × ((record_activity t b).base_delay ≡ b.base_delay)
        × ((record_activity t b).max_delay ≡ b.max_delay)
        × ((record_activity t b).backoff_mult ≡ b.backoff_mult)
        × ((record_activity t b).backoff_enabled ≡ b.backoff_enabled)
        × ((record_activity t b).churn_threshold ≡ b.churn_threshold)
  unfolding record_activity
  settings t b = (refl, refl, refl, refl, refl, refl, refl, refl)

  -- However long nothing happened before, Add never resets the backoff: recordActivity has just set the
  -- time that calculateDelay compares with. While churn lasts the count grows, else it stays.
  next_delay-never_decays :
      (t t' : ℕ) (b : Backoff Float)
      → t' ≤ t + b.decay_reset_duration
      → (next_delay t t' b).0.backoff_count
        ≡ (if backs_off t b then b.backoff_count + 1 else b.backoff_count)
  unfolding next_delay backs_off calculate_delay
  next_delay-never_decays t t' b soon = ground (arith, settings t b)

  -- The delay under churn, where the conversion of the product to a duration has not overflowed, is
  -- the smaller of the backoff and the maximum delay.
  pub next_delay-churn :
      (t t' : ℕ) (b : Backoff Float)
      → t' ≤ t + b.decay_reset_duration
      → backs_off t b ≡ true
      → let raw = ops.backoff b.base_delay b.backoff_mult (b.backoff_count + 1) in
        (next_delay t t' b).1 ≡ (if lebℤ raw (pos b.max_delay) then raw else pos b.max_delay)
  unfolding next_delay backs_off calculate_delay
  next_delay-churn t t' b soon churn = ground (arith, settings t b)

  next_delay_keeps :
      (t t' : ℕ) (b : Backoff Float)
      → let b' = (next_delay t t' b).0 in
        (b'.decay_reset_duration ≡ b.decay_reset_duration)
        × (b'.base_delay ≡ b.base_delay)
        × (b'.max_delay ≡ b.max_delay)
        × (b'.backoff_mult ≡ b.backoff_mult)
  unfolding next_delay calculate_delay
  next_delay_keeps t t' b = ground (arith, settings t b)

  -- Two calls of Add in a row under churn: the second delay is not shorter, if one more factor does
  -- not make the computed duration smaller.
  pub next_delay_grows :
      (t₁ t₁' t₂ t₂' : ℕ) (b : Backoff Float)
      → ((base count : ℕ)
          → ops.backoff base b.backoff_mult count ≤ℤ ops.backoff base b.backoff_mult (count + 1))
      → t₁' ≤ t₁ + b.decay_reset_duration
      → t₂' ≤ t₂ + b.decay_reset_duration
      → backs_off t₁ b ≡ true
      → backs_off t₂ (next_delay t₁ t₁' b).0 ≡ true
      → (next_delay t₁ t₁' b).1 ≤ℤ (next_delay t₂ t₂' (next_delay t₁ t₁' b).0).1
  next_delay_grows t₁ t₁' t₂ t₂' b mono soon₁ soon₂ churn₁ churn₂ =
      let b' = (next_delay t₁ t₁' b).0 in
      ground (
        arith,
        next_delay_keeps t₁ t₁' b,
        next_delay-never_decays t₁ t₁' b soon₁,
        next_delay-churn t₁ t₁' b soon₁ churn₁,
        next_delay-churn t₂ t₂' b',
        mono b.base_delay (b.backoff_count + 1),
      )

  -- A computed duration that has overflowed to a negative number passes the test against the maximum:
  -- the timer is armed with that negative delay.
  pub next_delay-overflow :
      (t t' : ℕ) (b : Backoff Float)
      → t' ≤ t + b.decay_reset_duration
      → backs_off t b ≡ true
      → is_negative (ops.backoff b.base_delay b.backoff_mult (b.backoff_count + 1)) ≡ true
      → is_negative (next_delay t t' b).1 ≡ true
  next_delay-overflow t t' b soon churn negative =
      ground (arith, next_delay-churn t t' b soon churn)
