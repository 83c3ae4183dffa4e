-- ===== src/Tests/Queueing.antt =====
-- internal/debouncer/advanced_debouncer.go on small inputs. A factor is a number, and a callback too.
use dot_sync_manager.Base.{
  ℕ, ◌+◌, ◌*◌, ◌^◌, ◌≤◌, List, [], ◌∷◌, Bool, true, false, ◌≡◌, refl, codes, length, All, arith,
  leb, ltb,
}
use dot_sync_manager.Base.Int.{pos}
use dot_sync_manager.Debouncer.Backoff.{
  FloatOps, default_advanced_config, new_backoff, record_activity,
}
use dot_sync_manager.Debouncer.Backoff.History.{IsHistory, record_activity-window}
use dot_sync_manager.Debouncer.Advanced.{Advanced, Request, stopped, new_advanced, own}
use dot_sync_manager.Debouncer.Advanced.Queue.{stop_debouncer, start}
use dot_sync_manager.Debouncer.Advanced.Restart.{
  Op, add_op, expire_op, timer_op, run, restarted_never_runs,
}
use dot_sync_manager.Debouncer.Advanced.Manual.{IsBounded}

-- Factors are whole numbers: no overflow and no rounding.
abbrev whole : FloatOps ℕ
whole = record {
  le_one = λ f. leb f 1;
  gt_one = λ f. ltb 1 f;
  two = 2;
  backoff = λ base f count. pos (base * f ^ count);
}

abbrev made : Advanced ℕ ℕ
made = new_advanced whole (default_advanced_config whole) 0

abbrev request : Request ℕ
request = record { id = 1; key = codes "manual"; fn = 5 }

abbrev waiting : Advanced ℕ ℕ
waiting = record made { manual_sync_queue = request ∷ [] }

made_quiet : waiting.stop_once_done ≡ false
unfolding new_advanced
made_quiet = refl

abbrev calm : ℕ → Bool
calm _ = false

empty-IsHistory : IsHistory 0 made.backoff.activity_history
unfolding new_advanced new_backoff
empty-IsHistory = record { ordered = tt; past = tt }

record_activity-window_example :
    let b' = record_activity 9 made.backoff in
    IsHistory 9 b'.activity_history
    × All (λ t. 9 ≤ t + made.backoff.churn_window) b'.activity_history
    × (length b'.activity_history ≤ made.backoff.max_activity_history)
    × (b'.last_activity_time ≡ 9)
record_activity-window_example =
    record_activity-window made.backoff 0 9 empty-IsHistory (omega arith)

soon : 9 ≤ 5 + made.backoff.decay_reset_duration
unfolding new_advanced default_advanced_config
soon = omega arith

made-IsBounded : IsBounded made
unfolding new_advanced
made-IsBounded = omega arith

abbrev rest : List (Op ℕ)
rest = add_op 1 2 own (codes "sync") 8 ∷ expire_op 0 ∷ timer_op 0 false false ∷ []

restarted_never_runs_example :
    let d' = start (stop_debouncer calm waiting) in
    (d'.started ≡ true)
    × (d'.stopped ≡ false)
    × ((run whole rest d').ran ≡ (stop_debouncer calm waiting).ran)
restarted_never_runs_example = restarted_never_runs whole calm rest waiting made_quiet
