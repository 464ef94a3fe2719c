-- ===== src/LoadBatcher/Examples.antt =====
-- Concrete runs of the batcher of status updates.
use livekit_agent_sdk_go.Prelude.{◌≡◌, refl, [], ◌∷◌, ◌++◌}
use livekit_agent_sdk_go.Prelude.Int.{pos}
use livekit_agent_sdk_go.LoadBatcher.{
  LoadBatcher, worker_status_available, worker_status_full, ratio, new_load_batcher, run_updates,
  sent_list, stop,
}
use livekit_agent_sdk_go.LoadBatcher.Coalescing.{settled, batches_exact}

abbrev batcher : LoadBatcher
batcher = new_load_batcher (pos 10)

batches_exact_example :
    (run_updates
        ((0, worker_status_available, ratio 1 2)
          ∷ (5, worker_status_full, ratio 2 2)
          ∷ (20, worker_status_available, ratio 1 2)
          ∷ [])
        batcher).0
      ++ sent_list
          (stop
            (run_updates
              ((0, worker_status_available, ratio 1 2)
                ∷ (5, worker_status_full, ratio 2 2)
                ∷ (20, worker_status_available, ratio 1 2)
                ∷ [])
              batcher).1).1
    ≡ (worker_status_full, ratio 2 2) ∷ (worker_status_available, ratio 1 2) ∷ []
unfolding new_load_batcher settled
batches_exact_example =
    batches_exact batcher 0 worker_status_available (ratio 1 2)
      ((5, worker_status_full, ratio 2 2) ∷ (20, worker_status_available, ratio 1 2) ∷ []) refl refl
