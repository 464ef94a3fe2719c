-- ===== src/UniversalWorker/Sending.antt =====
-- Messages of the worker to the server, and the updates of its load and of the status of jobs
-- (pkg/agent/universal_worker.go, universal_worker_websocket.go, universal_helpers.go).
use livekit_agent_sdk_go.Prelude.{
  ℕ, ◌+◌, ◌%◌, ◌^◌, String, Bool, true, false, ◌&&◌, ◌||◌, Option, none, some, is_some, List, [],
  ◌∷◌, ◌++◌, ltb, leb, if◌then◌else◌, length,
}
use livekit_agent_sdk_go.Prelude.Dict.{Dict}
use livekit_agent_sdk_go.Prelude.Int.{ℤ, sub_ℕ}
use livekit_agent_sdk_go.RaceProtector.{JobStatus, StatusUpdate}
use livekit_agent_sdk_go.NetworkHandler.{
  WriteResult, sent, deadline_failed, will_retry, network_failed, write_failed,
  write_message_with_retry,
}
use livekit_agent_sdk_go.LoadBatcher.{
  LoadBatcher, WorkerStatus, worker_status_available, worker_status_full, Load, ratio, calculated,
  update,
}
use livekit_agent_sdk_go.UniversalWorker.Types.{
  WebSocketState, disconnected, connecting, connected, reconnecting, UniversalWorker, WorkerMessage,
  update_job, update_worker, wrote, Environment, World, LoadMetrics, with_worker,
}
use livekit_agent_sdk_go.UniversalWorker.StatusGuard.{queue_status_update as guard_update}

pub data SendError : Type 0 where
  not_connected marshal_failed write_error : SendError

unfoldable pub is_connected : WebSocketState → Bool
is_connected connected = true
is_connected connecting = false
is_connected disconnected = false
is_connected reconnecting = false

-- Whether sendMessage lets a message through: while connecting (for the registration) or connected.
unfoldable pub can_send : UniversalWorker → Bool
can_send w = is_some w.conn && may_send w.ws_state
  where
    may_send : WebSocketState → Bool
    may_send connecting = true
    may_send connected = true
    may_send disconnected = false
    may_send reconnecting = false

unfoldable pub send_result : WriteResult → Option SendError
send_result sent = none
send_result (deadline_failed e) = some write_error
send_result (will_retry e) = some write_error
send_result (network_failed e) = some write_error
send_result (write_failed e) = some write_error

-- now.Sub(startTime) for every job.
unfoldable pub job_durations : ℕ → Dict ℕ → Dict ℤ
job_durations now [] = []
job_durations now ((id, start) ∷ rest) = (id, sub_ℕ now start) ∷ job_durations now rest

unfoldable pub build_load_metrics : ℕ → UniversalWorker → LoadMetrics
unfolding job_durations
build_load_metrics now w = record {
  active_jobs = length w.active_jobs;
  max_jobs = w.opts.max_jobs;
  job_duration = job_durations now w.job_start_times;
}

-- The channel has room for 100 signals.
unfoldable pub queue_status_update : StatusUpdate → World → World
unfolding with_worker
queue_status_update u s =
    with_worker
      (λ w. record w {
        status_queue = w.status_queue ++ u ∷ [];
        status_queue_chan = if ltb w.status_queue_chan 100 then w.status_queue_chan + 1 else 100;
      })
      s

-- What follows the call of sendMessage: an update that was not sent is filed for a retry.
unfoldable pub file_failed : StatusUpdate → World × Option SendError → World
unfolding queue_status_update
file_failed u (s, none) = s
file_failed u (s, some err) = queue_status_update u s

module _ (env : Environment) where
  -- websocket.BinaryMessage is 2.
  unfoldable pub write_marshalled :
      WorkerMessage → Option (List ℕ) → World → World × Option SendError
  unfolding send_result
  write_marshalled msg none s = (s, some marshal_failed)
  write_marshalled msg (some bytes) s =
      let (handler, result, frame) =
        write_message_with_retry (env.connection s.writes) (env.clock s.writes) 2 bytes
          s.worker.network_handler in
      (
        record s {
          worker = record (s.worker) { network_handler = handler };
          writes = s.writes + 1;
          trace = wrote msg result frame ∷ s.trace;
        },
        send_result result,
      )

  unfoldable pub send_message : WorkerMessage → World → World × Option SendError
  unfolding write_marshalled can_send
  send_message msg s =
      if can_send s.worker
      then write_marshalled msg (env.marshal msg) s
      else (s, some not_connected)

  unfoldable pub update_status : WorkerStatus → Load → World → World × Option SendError
  unfolding with_worker send_message
  update_status status load s =
      let s' = with_worker (λ w. record w { status = status }) s in
      if is_connected s.worker.ws_state
      then send_message (update_worker status load (length s.worker.active_jobs % 2 ^ 32)) s'
      else (s', some not_connected)

  unfoldable pub current_load : ℕ → UniversalWorker → Load
  unfolding build_load_metrics
  current_load now w =
      if ltb 0 w.opts.max_jobs
      then ratio (length w.active_jobs) w.opts.max_jobs
      else calculated (env.calculate (build_load_metrics now w))

  unfoldable pub load_status : ℕ → UniversalWorker → WorkerStatus
  unfolding current_load
  load_status now w =
      if (ltb 0 w.opts.max_jobs && leb w.opts.max_jobs (length w.active_jobs))
        || env.at_least_one (current_load now w)
      then worker_status_full
      else worker_status_available

  -- The batcher takes the update if there is one; an error of UpdateStatus is only logged.
  unfoldable pub announce : WorkerStatus → Load → ℕ → Option LoadBatcher → World → World
  unfolding update_status with_worker
  announce status load now none s = (update_status status load s).0
  announce status load now (some b) s =
      with_worker (λ w. record w { load_batcher = some (update status load now b) }) s

  unfoldable pub update_load : ℕ → World → World
  unfolding announce load_status current_load
  update_load now s =
      announce (load_status now s.worker) (current_load now s.worker) now s.worker.load_batcher s

  unfoldable pub update_job_status : String → JobStatus → String → ℕ → World → World
  unfolding with_worker send_message file_failed
  update_job_status id status message now s =
      let (guard, queued) = guard_update id status message s.worker.race_protector in
      if queued
      then with_worker (λ w. record w { race_protector = guard }) s
      else file_failed
          (record {
            job_id = id;
            status = status;
            error = message;
            timestamp = now;
            retry_count = 0;
          })
          (send_message (update_job id status message) s)

  -- One round of the loop over the queue that was taken.
  unfoldable pub retry_update : StatusUpdate → World → World
  unfolding send_message file_failed
  retry_update u s =
      if leb 3 u.retry_count
      then s
      else file_failed (record u { retry_count = u.retry_count + 1 })
          (send_message (update_job u.job_id u.status u.error) s)

  unfoldable pub retry_updates : List StatusUpdate → World → World
  unfolding retry_update
  retry_updates [] s = s
  retry_updates (u ∷ us) s = retry_updates us (retry_update u s)

  unfoldable pub process_status_queue : World → World
  unfolding retry_updates with_worker
  process_status_queue s =
      retry_updates s.worker.status_queue (with_worker (λ w. record w { status_queue = [] }) s)
