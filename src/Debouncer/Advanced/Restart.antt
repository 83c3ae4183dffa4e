-- ===== src/Debouncer/Advanced/Restart.antt =====
-- After Stop and Start the debouncer's context stays cancelled.
use dot_sync_manager.Base.{ℕ, List, [], ◌∷◌, Bool, true, false, ◌≡◌, refl, ◌∙◌, arith, Text}
use dot_sync_manager.Debouncer.Backoff.{FloatOps}
use dot_sync_manager.Debouncer.Advanced.{
  Advanced, Request, Ctx, cancel, add_with_context, expire, on_timer, handle_manual_sync,
}
use dot_sync_manager.Debouncer.Advanced.Queue.{drain, begin_stop, shut_down, stop_debouncer, start}

module _ {Float : Type 0} {F : Type 0} where
  -- A cancelled context is never replaced, and while it is cancelled no timer runs its callback.
  pub on_timer_of_cancelled :
      (i : ℕ) (given_done panics : Bool) (d : Advanced Float F)
      → d.ctx_cancelled ≡ true
      → ((on_timer i given_done panics d).ran ≡ d.ran)
        × ((on_timer i given_done panics d).ctx_cancelled ≡ true)
  unfolding on_timer
  on_timer_of_cancelled i given_done panics d h = ground arith

  start-ctx_cancelled : (d : Advanced Float F) → (start d).ctx_cancelled ≡ d.ctx_cancelled
  unfolding start
  start-ctx_cancelled d = ground arith

  handle-ctx_cancelled :
      (panics : Bool) (r : Request F) (d : Advanced Float F)
      → (handle_manual_sync panics r d).ctx_cancelled ≡ d.ctx_cancelled
  unfolding handle_manual_sync
  handle-ctx_cancelled panics r d = ground arith

  drain-ctx_cancelled :
      (panics : ℕ → Bool) (rs : List (Request F)) (d : Advanced Float F)
      → (drain panics rs d).ctx_cancelled ≡ d.ctx_cancelled
  unfolding drain
  drain-ctx_cancelled panics [] d = refl
  drain-ctx_cancelled panics (r ∷ rs) d =
      drain-ctx_cancelled panics rs _ ∙ handle-ctx_cancelled (panics r.id) r _

  shut_down-ctx_cancelled :
      (panics : ℕ → Bool) (d : Advanced Float F) → (shut_down panics d).ctx_cancelled ≡ true
  unfolding shut_down
  shut_down-ctx_cancelled panics d =
      let d₁ = begin_stop d in drain-ctx_cancelled panics d₁.manual_sync_queue d₁

  stop-ctx_cancelled :
      (panics : ℕ → Bool) (d : Advanced Float F)
      → d.stop_once_done ≡ false
      → (stop_debouncer panics d).ctx_cancelled ≡ true
  unfolding stop_debouncer
  stop-ctx_cancelled panics d first = ground (arith, shut_down-ctx_cancelled panics d)

  drain-started :
      (panics : ℕ → Bool) (rs : List (Request F)) (d : Advanced Float F)
      → (drain panics rs d).started ≡ d.started
  unfolding drain handle_manual_sync
  drain-started panics [] d = refl
  drain-started panics (r ∷ rs) d = drain-started panics rs _ ∙ ground arith

  stop-started :
      (panics : ℕ → Bool) (d : Advanced Float F)
      → d.stop_once_done ≡ false
      → (stop_debouncer panics d).started ≡ false
  unfolding stop_debouncer
  stop-started panics d first =
      let d₁ = begin_stop d in ground (arith, drain-started panics d₁.manual_sync_queue d₁)

  start_lem :
      (d : Advanced Float F)
      → d.started ≡ false
      → ((start d).started ≡ true) × ((start d).stopped ≡ false) × ((start d).ran ≡ d.ran)
  unfolding start
  start_lem d off = ground arith

-- The calls of a client that do not ask for a manual sync, and the timers.
pub data Op (F : Type 0) : Type 0 where
  add_op : ℕ → ℕ → Ctx → Text → F → Op F
  cancel_op : Text → Op F
  expire_op : ℕ → Op F
  timer_op : ℕ → Bool → Bool → Op F
  start_op : Op F

module _ {Float : Type 0} {F : Type 0} (ops : FloatOps Float) where
  unfoldable pub perform : Op F → Advanced Float F → Advanced Float F
  perform (add_op t t' ctx key fn) d = add_with_context ops t t' ctx key fn d
  perform (cancel_op key) d = cancel key d
  perform (expire_op i) d = expire i d
  perform (timer_op i given_done panics) d = on_timer i given_done panics d
  perform start_op d = start d

  unfoldable pub run : List (Op F) → Advanced Float F → Advanced Float F
  unfolding perform
  run [] d = d
  run (op ∷ rest) d = run rest (perform op d)

  perform_of_cancelled :
      (op : Op F) (d : Advanced Float F)
      → d.ctx_cancelled ≡ true
      → ((perform op d).ran ≡ d.ran) × ((perform op d).ctx_cancelled ≡ true)
  unfolding perform add_with_context cancel expire on_timer start
  perform_of_cancelled (add_op t t' ctx key fn) d h = ground arith
  perform_of_cancelled (cancel_op key) d h = ground arith
  perform_of_cancelled (expire_op i) d h = ground arith
  perform_of_cancelled (timer_op i given_done panics) d h = ground arith
  perform_of_cancelled start_op d h = ground arith

  run_of_cancelled :
      (rest : List (Op F)) (d : Advanced Float F)
      → d.ctx_cancelled ≡ true
      → (run rest d).ran ≡ d.ran
  unfolding run
  run_of_cancelled [] d h = refl
  run_of_cancelled (op ∷ rest) d h =
      let (same, still) = perform_of_cancelled op d h in
      run_of_cancelled rest (perform op d) still ∙ same

  -- Once Stop has run, no callback that is added afterwards ever runs, also not after Start, which
  -- reopens the queue but keeps the cancelled context: whatever is added and whichever timers go off.
  pub restarted_never_runs :
      (panics : ℕ → Bool) (rest : List (Op F)) (d : Advanced Float F)
      → d.stop_once_done ≡ false
      → let d' = start (stop_debouncer panics d) in
        (d'.started ≡ true)
        × (d'.stopped ≡ false)
        × ((run rest d').ran ≡ (stop_debouncer panics d).ran)
  restarted_never_runs panics rest d first =
      let d' = stop_debouncer panics d in
      let off = stop-started panics d first in
      let (on, open_again, same) = start_lem d' off in
      (
        on,
        open_again,
        run_of_cancelled rest (start d')
              (start-ctx_cancelled d' ∙ stop-ctx_cancelled panics d first)
            ∙ same,
      )
