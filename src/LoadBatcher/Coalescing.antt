-- ===== src/LoadBatcher/Coalescing.antt =====
-- What a batcher sends for a series of updates (pkg/agent/load_calculator.go).
use livekit_agent_sdk_go.Prelude.{
  ℕ, ◌+◌, ◌≡◌, refl, ap, Bool-cases, false, none, some, List, [], ◌∷◌, ◌++◌, leb, inl, inr,
  if◌then◌else◌,
}
use livekit_agent_sdk_go.LoadBatcher.{
  LoadBatcher, WorkerStatus, Load, update, flush, stop, pending, elapse, run_updates, sent_list,
}

-- The updates that are followed by a pause of the interval or more, the last one in any case.
unfoldable pub settled :
    ℕ → ℕ → WorkerStatus → Load → List (ℕ × WorkerStatus × Load) → List (WorkerStatus × Load)
settled interval at status load [] = (status, load) ∷ []
settled interval at status load ((next, status', load') ∷ rest) =
    let later = settled interval next status' load' rest in
    if leb (at + interval) next then (status, load) ∷ later else later

-- The batcher that holds one update since a time.
holding : ℕ → ℕ → WorkerStatus → Load → LoadBatcher
holding interval at status load = record {
  interval = interval;
  pending_load = some load;
  pending_status = some status;
  timer = some (at + interval);
  closed = false;
}

-- What is sent for the updates and by Stop after them.
sent_until_stop : List (ℕ × WorkerStatus × Load) → LoadBatcher → List (WorkerStatus × Load)
unfolding run_updates stop
sent_until_stop updates b = let (sent, c) = run_updates updates b in sent ++ sent_list (stop c).1

batches-holding :
    (interval at : ℕ) (status : WorkerStatus) (load : Load) (rest : List (ℕ × WorkerStatus × Load))
    → sent_until_stop rest (holding interval at status load) ≡ settled interval at status load rest
unfolding sent_until_stop run_updates stop settled holding elapse flush update pending
batches-holding interval at status load [] = refl
batches-holding interval at status load ((next, status', load') ∷ rest) =
    let h = batches-holding interval next status' load' rest in
    elim (Bool-cases (leb (at + interval) next)) [
      | inl due ↦ rw due (ap (λ l. (status, load) ∷ l) h)
      | inr early ↦ rw early h
    ]

-- An open batcher with nothing pending that gets updates and is then stopped sends exactly those
-- updates that are followed by a pause of the interval or more, and the last one, in their order: an
-- update that the next one follows sooner is never sent, however long such a series goes on.
pub batches_exact :
    (b : LoadBatcher) (at : ℕ) (status : WorkerStatus) (load : Load)
    (rest : List (ℕ × WorkerStatus × Load))
    → b.closed ≡ false
    → b.timer ≡ none
    → (run_updates ((at, status, load) ∷ rest) b).0
        ++ sent_list (stop (run_updates ((at, status, load) ∷ rest) b).1).1
      ≡ settled b.interval at status load rest
unfolding sent_until_stop run_updates stop holding elapse flush update pending
batches_exact b at status load rest is_open idle =
    rw (idle, is_open) (batches-holding b.interval at status load rest)
