-- ===== src/Process/Locks/Racing.antt =====
-- RemovePID takes the lock file away from a process that is about to start.
use mathlib.Core.Path.{subst}
use dot_sync_manager.Base.{
  ℕ, suc, [], ◌∷◌, none, some, true, false, ◌≡◌, ◌≢◌, ◌∙◌, refl, sym, ap, arith,
}
use dot_sync_manager.Base.Result.{ok}
use dot_sync_manager.Process.{Caller, PidInfo, read_pid, cleanup_stale, is_live}
use dot_sync_manager.Process.Locks.{
  Runtime, locked, cleaned, running, set_phase, phase_of, acquire, prepare, write_pid, remove_pid,
}
use dot_sync_manager.Process.Queries.{live_pid, is_daemon_running_pid_only}

-- A query of `asker`, then the start of `second`, and the rest of both starts.
unfoldable pub interleaved : Caller → Caller → Caller → Runtime → Runtime
unfolding is_daemon_running_pid_only acquire prepare write_pid
interleaved asker first second s =
    let s₁ = (is_daemon_running_pid_only asker s).1 in
    let s₂ = (acquire second.self s₁).1 in
    let s₃ = (prepare second (prepare first s₂).1).1 in
    (write_pid second true (write_pid first true s₃).1).1

asked :
    (asker : Caller) (info : PidInfo) (s : Runtime)
    → read_pid s.pid_file ≡ ok info
    → asker.process_exists info.pid ≡ false
    → asker.removes ≡ true
    → (is_daemon_running_pid_only asker s).1 ≡ record s { pid_file = none; lock_file = none }
unfolding is_daemon_running_pid_only live_pid is_live remove_pid
asked asker info s reads dead removes =
    let stale : is_live asker info ≡ false = ground arith in
    rw (is_daemon_running_pid_only, live_pid, reads, stale) (ground arith)

acquired :
    (p : ℕ) (s : Runtime)
    → s.lock_file ≡ none
    → (acquire p s).1 ≡ record s {
      lock_file = some s.fresh;
      fresh = suc s.fresh;
      holders = (record { pid = p; lock_id = s.fresh; phase = locked }) ∷ s.holders;
    }
unfolding acquire
acquired p s gone = ground arith

prepared :
    (c : Caller) (s : Runtime)
    → s.pid_file ≡ none
    → (prepare c s).1 ≡ record s { holders = set_phase c.self cleaned s.holders }
unfolding prepare cleanup_stale read_pid
prepared c s gone = ground arith

-- Where the PID file is of a process that died, and one process holds the lock but has not looked at that
-- file yet, a query of any process that can remove files removes the lock file too. Then a second process
-- locks a new one, and both start.
pub query_splits_lock :
    (asker first second : Caller) (s : Runtime) (i : ℕ) (info : PidInfo)
    → s.holders ≡ (record { pid = first.self; lock_id = i; phase = locked }) ∷ []
    → read_pid s.pid_file ≡ ok info
    → asker.process_exists info.pid ≡ false
    → asker.removes ≡ true
    → first.self ≢ second.self
    → let t = interleaved asker first second s in
      (phase_of first.self t.holders ≡ some running)
      × (phase_of second.self t.holders ≡ some running)
unfolding interleaved write_pid set_phase phase_of
query_splits_lock asker first second s i info held reads dead removes apart =
    let s₁ : Runtime = record s { pid_file = none; lock_file = none } in
    let s₂ : Runtime = record s₁ {
      lock_file = some s.fresh;
      fresh = suc s.fresh;
      holders = (record { pid = second.self; lock_id = s.fresh; phase = locked }) ∷ s.holders;
    } in
    let s₃ : Runtime = record s₂ { holders = set_phase first.self cleaned s₂.holders } in
    let s₄ : Runtime = record s₃ { holders = set_phase second.self cleaned s₃.holders } in
    let rest = λ (u : Runtime). (write_pid second true (write_pid first true u).1).1.holders in
    let e₁ = asked asker info s reads dead removes in
    let e₂ = ap (λ u. (acquire second.self u).1) e₁ ∙ acquired second.self s₁ refl in
    let e₃ = ap (λ u. (prepare first u).1) e₂ ∙ prepared first s₂ refl in
    let e₄ : (prepare second
          (prepare first (acquire second.self (is_daemon_running_pid_only asker s).1).1).1).1
        ≡ s₄ =
      ap (λ u. (prepare second u).1) e₃ ∙ prepared second s₃ refl in
    subst (λ hs. (phase_of first.self hs ≡ some running) × (phase_of second.self hs ≡ some running))
      (sym (ap rest e₄)) (rw held (ground arith))
