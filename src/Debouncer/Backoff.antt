-- ===== src/Debouncer/Backoff.antt =====
-- internal/debouncer/advanced_debouncer.go: the settings, the record of activity and the delay that is
-- computed from it. Clock readings and durations are numbers of nanoseconds; a duration that may be
-- negative is an integer.
pub mod History
pub mod Delay
use dot_sync_manager.Base.{
  ℕ, ◌+◌, ◌-◌, ◌*◌, List, [], ◌∷◌, ◌++◌, Bool, true, ◌&&◌, ltb, leb, if◌then◌else◌, length, drop,
}
use dot_sync_manager.Base.Int.{ℤ, pos, negsuc, lebℤ}

-- float64, as far as the debouncer computes with it: the comparisons with 1.0, the default 2.0, and
-- time.Duration(float64(base) * math.Pow(mult, float64(count))), which may overflow.
pub record FloatOps (Float : Type 0) : Type 0 where
  pub le_one : Float → Bool
  pub gt_one : Float → Bool
  pub two : Float
  pub backoff : ℕ → Float → ℕ → ℤ

pub record Config (Float : Type 0) : Type 0 where
  pub base_delay : ℤ
  pub max_delay : ℤ
  pub backoff_enabled : Bool
  pub backoff_multiplier : Float
  pub churn_threshold : ℤ
  pub churn_window : ℤ
  pub decay_reset_duration : ℤ
  pub manual_sync_timeout : ℤ

abbrev pub second : ℕ
second = 1_000_000_000

abbrev pub default_max_activity_history : ℕ
default_max_activity_history = 1000

module _ {Float : Type 0} (ops : FloatOps Float) where
  unfoldable pub default_advanced_config : Config Float
  default_advanced_config = record {
    base_delay = pos (30 * second);
    max_delay = pos (300 * second);
    backoff_enabled = true;
    backoff_multiplier = ops.two;
    churn_threshold = pos 10;
    churn_window = pos (60 * second);
    decay_reset_duration = pos (300 * second);
    manual_sync_timeout = pos (10 * second);
  }

-- `if x <= 0 { x = default }`, for a default above 0.
unfoldable pub positive_or : ℤ → ℕ → ℕ
positive_or (pos n) fallback = if leb n 0 then fallback else n
positive_or (negsuc n) fallback = fallback

-- The fields of AdvancedDebouncer that the delay depends on.
pub record Backoff (Float : Type 0) : Type 0 where
  pub base_delay : ℕ
  pub current_delay : ℤ
  pub max_delay : ℕ
  pub backoff_mult : Float
  pub backoff_enabled : Bool
  pub churn_threshold : ℕ
  pub churn_window : ℕ
  pub decay_reset_duration : ℕ
  pub activity_history : List ℕ
  pub max_activity_history : ℕ
  pub backoff_count : ℕ
  pub last_activity_time : ℕ

module _ {Float : Type 0} (ops : FloatOps Float) where
  -- NewAdvanced, these fields of it: what is not positive is replaced by its default.
  unfoldable pub new_backoff : Config Float → ℕ → Backoff Float
  unfolding positive_or
  new_backoff c now =
      let base = positive_or c.base_delay (30 * second) in
      record {
        base_delay = base;
        current_delay = pos base;
        max_delay = positive_or c.max_delay (300 * second);
        backoff_mult = if ops.le_one c.backoff_multiplier then ops.two else c.backoff_multiplier;
        backoff_enabled = c.backoff_enabled;
        churn_threshold = positive_or c.churn_threshold 10;
        churn_window = positive_or c.churn_window (60 * second);
        decay_reset_duration = positive_or c.decay_reset_duration (300 * second);
        activity_history = [];
        max_activity_history = default_max_activity_history;
        backoff_count = 0;
        last_activity_time = now;
      }

-- The loop that drops the head while it is before now - window.
unfoldable pub drop_before : ℕ → ℕ → List ℕ → List ℕ
drop_before window now [] = []
drop_before window now (t ∷ ts) =
    let rest = drop_before window now ts in if ltb (t + window) now then rest else t ∷ ts

-- `history[excess:]`, where the history is longer than the cap.
unfoldable pub cap_history : ℕ → List ℕ → List ℕ
cap_history cap ts = if ltb cap (length ts) then drop (length ts - cap) ts else ts

module _ {Float : Type 0} where
  unfoldable pub record_activity : ℕ → Backoff Float → Backoff Float
  unfolding drop_before cap_history
  record_activity now b = record b {
    activity_history =
        cap_history b.max_activity_history
          (drop_before b.churn_window now (b.activity_history ++ now ∷ []));
    last_activity_time = now;
  }

  unfoldable pub is_churn_detected : Backoff Float → Bool
  is_churn_detected b = leb b.churn_threshold (length b.activity_history)

  unfoldable pub set_max_activity_history : ℕ → Backoff Float → Backoff Float
  unfolding cap_history
  set_max_activity_history max b = record b {
    max_activity_history = max;
    activity_history = cap_history max b.activity_history;
  }

  -- After a callback that returned.
  unfoldable pub reset_backoff : Backoff Float → Backoff Float
  reset_backoff b = record b { backoff_count = 0; current_delay = pos b.base_delay }

module _ {Float : Type 0} (ops : FloatOps Float) where
  -- `now` is the reading that time.Since takes. The new state comes with the delay.
  unfoldable pub calculate_delay : ℕ → Backoff Float → Backoff Float × ℤ
  unfolding reset_backoff
  calculate_delay now b =
      if ltb b.decay_reset_duration (now - b.last_activity_time)
      then (reset_backoff b, pos b.base_delay)
      else if leb b.churn_threshold (length b.activity_history)
          && (b.backoff_enabled && ops.gt_one b.backoff_mult)
      then (let count = b.backoff_count + 1 in
          let delay = ops.backoff b.base_delay b.backoff_mult count in
          let capped = if lebℤ delay (pos b.max_delay) then delay else pos b.max_delay in
          (record b { backoff_count = count; current_delay = capped }, capped))
      else (record b { current_delay = pos b.base_delay }, pos b.base_delay)
