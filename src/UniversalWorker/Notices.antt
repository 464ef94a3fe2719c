-- ===== src/UniversalWorker/Notices.antt =====
-- How often the handler is told that a job has ended (pkg/agent/universal_worker.go,
-- universal_worker_websocket.go).
use livekit_agent_sdk_go.Prelude.{
  ℕ, ◌+◌, ◌≡◌, refl, ap, ◌∙◌, String, Option, none, some, List, [], ◌∷◌, arith, str_eq, eq_iff,
  if◌then◌else◌, if_cases,
}
use livekit_agent_sdk_go.Prelude.Dict.{lookup}
use livekit_agent_sdk_go.RaceProtector.{JobStatus, StatusUpdate}
use livekit_agent_sdk_go.LoadBatcher.{LoadBatcher, WorkerStatus, Load}
use livekit_agent_sdk_go.UniversalWorker.Types.{
  Room, JobContext, WorkerMessage, Event, wrote, job_terminated, room_connected, job_assigned,
  cancelled, room_disconnected, conn_closed, handler_stopped, handler_started, handler_called,
  Environment, World, with_worker, emit,
}
use livekit_agent_sdk_go.UniversalWorker.StatusGuard.{queue_status_update as guard_update}
use livekit_agent_sdk_go.UniversalWorker.Sending.{
  SendError, send_message, write_marshalled, can_send, update_status, is_connected, announce,
  update_load, file_failed, queue_status_update, update_job_status,
}
use livekit_agent_sdk_go.UniversalWorker.Jobs.{
  JobOutcome, final_status, final_error, forget_job, disconnect, count_completed, finish_job,
  cancel_context, end_job, handle_job_termination,
}

-- The calls of OnJobTerminated for the job.
unfoldable pub notices : String → List Event → ℕ
notices id [] = 0
notices id (job_terminated j ∷ es) = let n = notices id es in if str_eq j id then n + 1 else n
notices id (wrote m r f ∷ es) = notices id es
notices id (room_connected j ∷ es) = notices id es
notices id (job_assigned j ∷ es) = notices id es
notices id (cancelled c ∷ es) = notices id es
notices id (room_disconnected c ∷ es) = notices id es
notices id (conn_closed c ∷ es) = notices id es
notices id (handler_stopped c ∷ es) = notices id es
notices id (handler_started c ∷ es) = notices id es
notices id (handler_called c ∷ es) = notices id es

module _ (env : Environment) (id : String) where
  -- The two worlds have told the handler as often.
  abbrev pub Silent : World → World → Type 0
  Silent s t = notices id t.trace ≡ notices id s.trace

  write_marshalled-Silent :
      (msg : WorkerMessage) (o : Option (List ℕ)) (s : World)
      → Silent s (write_marshalled env msg o s).0
  unfolding write_marshalled notices
  write_marshalled-Silent msg none s = refl
  write_marshalled-Silent msg (some bytes) s = refl

  send_message-Silent : (msg : WorkerMessage) (s : World) → Silent s (send_message env msg s).0
  unfolding send_message
  send_message-Silent msg s =
      if_cases (λ (r : World × Option SendError). Silent s r.0) (can_send s.worker)
        (write_marshalled-Silent msg (env.marshal msg) s) refl

  pub update_status-Silent :
      (status : WorkerStatus) (load : Load) (s : World)
      → Silent s (update_status env status load s).0
  unfolding update_status with_worker
  update_status-Silent status load s =
      if_cases (λ (r : World × Option SendError). Silent s r.0) (is_connected s.worker.ws_state)
        (send_message-Silent _ (with_worker (λ w. record w { status = status }) s)) refl

  announce-Silent :
      (status : WorkerStatus) (load : Load) (now : ℕ) (o : Option LoadBatcher) (s : World)
      → Silent s (announce env status load now o s)
  unfolding announce with_worker
  announce-Silent status load now none s = update_status-Silent status load s
  announce-Silent status load now (some b) s = refl

  update_load-Silent : (now : ℕ) (s : World) → Silent s (update_load env now s)
  unfolding update_load
  update_load-Silent now s = announce-Silent _ _ now s.worker.load_batcher s

  file_failed-Silent :
      (u : StatusUpdate) (r : World × Option SendError) → Silent r.0 (file_failed u r)
  unfolding file_failed queue_status_update with_worker
  file_failed-Silent u (s, none) = refl
  file_failed-Silent u (s, some err) = refl

  update_job_status-Silent :
      (j : String) (status : JobStatus) (message : String) (now : ℕ) (s : World)
      → Silent s (update_job_status env j status message now s)
  unfolding update_job_status with_worker
  update_job_status-Silent j status message now s =
      if_cases (λ (t : World). Silent s t) (guard_update j status message s.worker.race_protector).1
        refl (file_failed-Silent _ _ ∙ send_message-Silent _ s)

  disconnect-Silent : (o : Option Room) (s : World) → Silent s (disconnect o s)
  unfolding notices
  disconnect-Silent none s = refl
  disconnect-Silent (some room) s = refl

  pub cancel_context-Silent : (ctx : JobContext) (s : World) → Silent s (cancel_context ctx s)
  unfolding cancel_context emit notices
  cancel_context-Silent ctx s = if_cases (λ (t : World). Silent s t) ctx.cancellable refl refl

  end_job-Silent : (o : Option JobContext) (s : World) → Silent s (end_job id o s)
  unfolding end_job with_worker
  end_job-Silent none s = refl
  end_job-Silent (some ctx) s = cancel_context-Silent ctx _

  -- The end of a run tells the handler once.
  finish_job-notices :
      (outcome : JobOutcome) (ctx : JobContext) (now : ℕ) (s : World)
      → ctx.job.id ≡ id
      → notices id (finish_job env outcome ctx now s).trace ≡ notices id s.trace + 1
  unfolding finish_job with_worker emit count_completed notices
  finish_job-notices outcome ctx now s same =
      let told =
        update_job_status env ctx.job.id (final_status outcome) (final_error outcome) now s in
      let cleaned = disconnect ctx.room (with_worker (forget_job ctx.job.id ctx.room) told) in
      let telling =
        update_job_status-Silent ctx.job.id (final_status outcome) (final_error outcome) now s in
      let away = disconnect-Silent ctx.room (with_worker (forget_job ctx.job.id ctx.room) told) in
      let self = (eq_iff ctx.job.id id).1 same in
      update_load-Silent now
        (emit (job_terminated ctx.job.id) (with_worker count_completed cleaned))
      ∙ rw self (ap (λ n. n + 1) (away ∙ telling))

  termination-notices :
      (now : ℕ) (s : World)
      → notices id (handle_job_termination env id now s).trace ≡ notices id s.trace + 1
  unfolding handle_job_termination emit notices
  termination-notices now s =
      let ended = end_job id (lookup id s.worker.active_jobs) s in
      let self = (eq_iff id id).1 refl in
      update_load-Silent now (emit (job_terminated id) ended)
      ∙ rw self (ap (λ n. n + 1) (end_job-Silent (lookup id s.worker.active_jobs) s))

module _ (env : Environment) where
  -- A job that the server terminates and whose handler then ends, in whatever way, has been reported
  -- to the handler as terminated twice.
  pub terminated_told_twice :
      (outcome : JobOutcome) (ctx : JobContext) (now later : ℕ) (s : World)
      → notices ctx.job.id
          (finish_job env outcome ctx later (handle_job_termination env ctx.job.id now s)).trace
        ≡ notices ctx.job.id s.trace + 2
  terminated_told_twice outcome ctx now later s =
      let first = termination-notices env ctx.job.id now s in
      let second =
        finish_job-notices env ctx.job.id outcome ctx later
          (handle_job_termination env ctx.job.id now s) refl in
      omega (arith, first, second)
