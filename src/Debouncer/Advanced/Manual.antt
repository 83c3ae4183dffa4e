-- ===== src/Debouncer/Advanced/Manual.antt =====
-- Manual syncs: which requests are accepted, and that each accepted one is answered exactly once.
use dot_sync_manager.Base.{
  ℕ, ◌≤◌, List, [], ◌∷◌, ◌++◌, Option, none, some, Bool, true, false, ◌≡◌, arith, if◌then◌else◌,
  length, length-append, ◌⊎◌,
}
use dot_sync_manager.Base.Dict.{Dict}
use dot_sync_manager.Debouncer.Advanced.{
  Advanced, Request, Error, stopped, manual_panic, handle_manual_sync,
  default_manual_sync_queue_size,
}
use dot_sync_manager.Debouncer.Advanced.Queue.{
  queued, direct, refused, trigger_manual_sync, process_round,
}

-- The answer that a request's result channel receives.
unfoldable pub answer : {F : Type 0} → (ℕ → Bool) → Request F → ℕ × Option Error
answer panics r = (r.id, if panics r.id then some (manual_panic r.key) else none)

module _ {Float : Type 0} {F : Type 0} where
  -- The capacity of the channel bounds the queue.
  abbrev pub IsBounded : Advanced Float F → Type 0
  IsBounded d = length d.manual_sync_queue ≤ default_manual_sync_queue_size

  handle_lem :
      (panics : ℕ → Bool) (r : Request F) (d : Advanced Float F)
      → let d' = handle_manual_sync (panics r.id) r d in
        (d'.answers ≡ d.answers ++ answer panics r ∷ [])
        × (d'.ran ≡ d.ran ++ r.fn ∷ [])
        × (d'.manual_sync_queue ≡ d.manual_sync_queue)
        × (d'.stopped ≡ d.stopped)
  unfolding handle_manual_sync answer
  handle_lem panics r d = ground arith

  -- Of every request exactly one of three things is true. After Stop it is refused and nothing changes.
  -- Else it waits at the end of the queue, which keeps within its capacity; or the queue was full, and
  -- the callback has run once and its result was sent.
  trigger_manual_sync_outcome :
      (panics : ℕ → Bool) (r : Request F) (d : Advanced Float F)
      → IsBounded d
      → let (d', sent) = trigger_manual_sync (panics r.id) r d in
        ((d.stopped ≡ true) × (sent ≡ refused stopped) × (d' ≡ d))
        ⊎ ((d.stopped ≡ false)
            × (sent ≡ queued)
            × (d' ≡ record d { manual_sync_queue = d.manual_sync_queue ++ r ∷ [] })
            × IsBounded d')
        ⊎ ((d.stopped ≡ false)
            × (sent ≡ direct)
            × (length d.manual_sync_queue ≡ default_manual_sync_queue_size)
            × (d'.manual_sync_queue ≡ d.manual_sync_queue)
            × (d'.ran ≡ d.ran ++ r.fn ∷ [])
            × (d'.answers ≡ d.answers ++ answer panics r ∷ []))
  unfolding trigger_manual_sync
  trigger_manual_sync_outcome panics r d bounded =
      ground (arith, handle_lem panics r d, length-append d.manual_sync_queue (r ∷ []))

  -- A round of the queue's goroutine with a request waiting handles the oldest one, once, unless the
  -- goroutine leaves, which it does only after Stop closed the done channel.
  pub process_round_oldest :
      (done_first : Bool) (panics : ℕ → Bool) (r : Request F) (rest : List (Request F))
      (d : Advanced Float F)
      → d.manual_sync_queue ≡ r ∷ rest
      → let d' = process_round done_first panics d in
        ((d'.manual_sync_queue ≡ rest)
          × (d'.ran ≡ d.ran ++ r.fn ∷ [])
          × (d'.answers ≡ d.answers ++ answer panics r ∷ []))
        ⊎ ((d.done ≡ true) × (d'.manual_sync_queue ≡ r ∷ rest) × (d'.answers ≡ d.answers))
  unfolding process_round
  process_round_oldest done_first panics r rest d e =
      ground (arith, handle_lem panics r (record d { manual_sync_queue = rest }))
