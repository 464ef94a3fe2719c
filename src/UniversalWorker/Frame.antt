-- ===== src/UniversalWorker/Frame.antt =====
-- What sends, reports of status and updates of the load leave alone in the worker's state.
use livekit_agent_sdk_go.Prelude.{
  ℕ, ◌≡◌, refl, ◌∙◌, String, false, Option, none, some, List, [], ◌∷◌, leb, if_cases,
}
use livekit_agent_sdk_go.RaceProtector.{JobStatus, StatusUpdate}
use livekit_agent_sdk_go.NetworkHandler.{
  NetworkHandler, new_network_handler, write_message_with_retry,
}
use livekit_agent_sdk_go.LoadBatcher.{LoadBatcher, WorkerStatus, Load, worker_status_available}
use livekit_agent_sdk_go.UniversalWorker.Types.{
  UniversalWorker, WorkerMessage, Environment, World, with_worker,
}
use livekit_agent_sdk_go.UniversalWorker.StatusGuard.{queue_status_update as guard_update}
use livekit_agent_sdk_go.UniversalWorker.Sending.{
  SendError, send_message, write_marshalled, can_send, update_status, is_connected, announce,
  update_load, file_failed, queue_status_update, update_job_status, retry_update, retry_updates,
  process_status_queue,
}

-- The worker without the parts that a send, a report or an update of the load may change.
abbrev pub core : UniversalWorker → UniversalWorker
core w = record w {
  network_handler = new_network_handler 0;
  status = worker_status_available;
  status_queue = [];
  status_queue_chan = 0;
  load_batcher = none;
  race_protector = record { queued_updates = []; is_reconnecting = false };
}

-- A world with the same core, and the same state outside the worker but for events and writes.
pub record Kept (s t : World) : Type 0 where
  pub same_core : core t.worker ≡ core s.worker
  pub same_context : t.next_context ≡ s.next_context
  pub same_stored : t.stored_metadata ≡ s.stored_metadata

pub Kept-refl : (s : World) → Kept s s
Kept-refl s = record { same_core = refl; same_context = refl; same_stored = refl }

pub Kept-trans : {s t u : World} → Kept s t → Kept t u → Kept s u
Kept-trans h k = record {
  same_core = k.same_core ∙ h.same_core;
  same_context = k.same_context ∙ h.same_context;
  same_stored = k.same_stored ∙ h.same_stored;
}

module _ (env : Environment) where
  write_marshalled-worker :
      (msg : WorkerMessage) (o : Option (List ℕ)) (s : World)
      → (h : NetworkHandler) × ((write_marshalled env msg o s).0.worker
          ≡ record (s.worker) { network_handler = h })
  unfolding write_marshalled
  write_marshalled-worker msg none s = (s.worker.network_handler, refl)
  write_marshalled-worker msg (some bytes) s = (
    (write_message_with_retry (env.connection s.writes) (env.clock s.writes) 2 bytes
        s.worker.network_handler).0,
    refl,
  )

  -- A send changes nothing in the worker but its network handler.
  pub send_message-worker :
      (msg : WorkerMessage) (s : World)
      → (h : NetworkHandler) × ((send_message env msg s).0.worker
          ≡ record (s.worker) { network_handler = h })
  unfolding send_message
  send_message-worker msg s =
      if_cases
        (λ (r : World × Option SendError).
          (h : NetworkHandler) × (r.0.worker ≡ record (s.worker) { network_handler = h }))
        (can_send s.worker) (write_marshalled-worker msg (env.marshal msg) s)
        (s.worker.network_handler, refl)

  write_marshalled-Kept :
      (msg : WorkerMessage) (o : Option (List ℕ)) (s : World)
      → Kept s (write_marshalled env msg o s).0
  unfolding write_marshalled
  write_marshalled-Kept msg none s = Kept-refl s
  write_marshalled-Kept msg (some bytes) s = record {
    same_core = refl;
    same_context = refl;
    same_stored = refl;
  }

  pub send_message-Kept : (msg : WorkerMessage) (s : World) → Kept s (send_message env msg s).0
  unfolding send_message
  send_message-Kept msg s =
      if_cases (λ (r : World × Option SendError). Kept s r.0) (can_send s.worker)
        (write_marshalled-Kept msg (env.marshal msg) s) (Kept-refl s)

  pub update_status-Kept :
      (status : WorkerStatus) (load : Load) (s : World) → Kept s (update_status env status load s).0
  unfolding update_status with_worker
  update_status-Kept status load s =
      let noted : Kept s (with_worker (λ w. record w { status = status }) s) = record {
        same_core = refl;
        same_context = refl;
        same_stored = refl;
      } in
      if_cases (λ (r : World × Option SendError). Kept s r.0) (is_connected s.worker.ws_state)
        (Kept-trans noted (send_message-Kept _ _)) noted

  announce-Kept :
      (status : WorkerStatus) (load : Load) (now : ℕ) (o : Option LoadBatcher) (s : World)
      → Kept s (announce env status load now o s)
  unfolding announce with_worker
  announce-Kept status load now none s = update_status-Kept status load s
  announce-Kept status load now (some b) s = record {
    same_core = refl;
    same_context = refl;
    same_stored = refl;
  }

  pub update_load-Kept : (now : ℕ) (s : World) → Kept s (update_load env now s)
  unfolding update_load
  update_load-Kept now s = announce-Kept _ _ now s.worker.load_batcher s

  pub file_failed-Kept :
      (u : StatusUpdate) (r : World × Option SendError) → Kept r.0 (file_failed u r)
  unfolding file_failed queue_status_update with_worker
  file_failed-Kept u (s, none) = Kept-refl s
  file_failed-Kept u (s, some err) = record {
    same_core = refl;
    same_context = refl;
    same_stored = refl;
  }

  pub update_job_status-Kept :
      (id : String) (status : JobStatus) (message : String) (now : ℕ) (s : World)
      → Kept s (update_job_status env id status message now s)
  unfolding update_job_status with_worker
  update_job_status-Kept id status message now s =
      if_cases (λ (t : World). Kept s t) (guard_update id status message s.worker.race_protector).1
        (record { same_core = refl; same_context = refl; same_stored = refl })
        (Kept-trans (send_message-Kept _ s) (file_failed-Kept _ _))

  retry_update-Kept : (u : StatusUpdate) (s : World) → Kept s (retry_update env u s)
  unfolding retry_update
  retry_update-Kept u s =
      if_cases (λ (t : World). Kept s t) (leb 3 u.retry_count) (Kept-refl s)
        (Kept-trans (send_message-Kept _ s) (file_failed-Kept _ _))

  retry_updates-Kept : (us : List StatusUpdate) (s : World) → Kept s (retry_updates env us s)
  unfolding retry_updates
  retry_updates-Kept [] s = Kept-refl s
  retry_updates-Kept (u ∷ us) s =
      Kept-trans (retry_update-Kept u s) (retry_updates-Kept us (retry_update env u s))

  pub process_status_queue-Kept : (s : World) → Kept s (process_status_queue env s)
  unfolding process_status_queue with_worker
  process_status_queue-Kept s =
      Kept-trans (record { same_core = refl; same_context = refl; same_stored = refl })
        (retry_updates-Kept s.worker.status_queue _)
