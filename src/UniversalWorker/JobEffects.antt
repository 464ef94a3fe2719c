-- ===== src/UniversalWorker/JobEffects.antt =====
-- What each operation of the worker does to its active jobs, their start times and the counts
-- (pkg/agent/universal_worker.go, universal_worker_websocket.go).
use livekit_agent_sdk_go.Prelude.{
  ℕ, ◌+◌, ◌≡◌, refl, ap, ◌∙◌, String, Bool, true, false, Option, none, some, is_some, ltb,
  if◌then◌else◌, if_cases,
}
use livekit_agent_sdk_go.Prelude.Dict.{Dict, lookup, insert, delete}
use livekit_agent_sdk_go.Prelude.Exec.{Ends, ends, panics, Ends-bind}
use livekit_agent_sdk_go.JobQueue.Item.{Job}
use livekit_agent_sdk_go.RaceProtector.{js_running, js_failed}
use livekit_agent_sdk_go.Prelude.Int.{ℤ}
use livekit_agent_sdk_go.UniversalWorker.Types.{
  JobMetadata, Room, JobContext, Metrics, UniversalWorker, disconnected, Environment, World,
  with_worker, emit,
}
use livekit_agent_sdk_go.UniversalWorker.Sending.{SendError, update_job_status}
use livekit_agent_sdk_go.UniversalWorker.Jobs.{
  JobAssignment, MetadataAnswer, no_metadata, fresh, shared, store_metadata, RoomRequest, joined,
  join_failed, JobOutcome, new_context, take_pending, count_accepted, begin_assignment,
  begin_assigned, begin_job_in, store_job, finish_assignment, forget_job, disconnect,
  count_completed, finish_job, final_status, final_error, cancel_context, end_job,
  handle_job_termination, handle_availability_request,
}
use livekit_agent_sdk_go.UniversalWorker.Connection.{
  drop_conn, close_conn, stop_handler, stop_message_handler, request_reconnect,
  handle_connection_error, send_ping, ping_tick, note_ping, note_missed, pong_overdue,
  ConnectAnswers, ConnectError, after_reconnect, reconnect_turn,
}
use livekit_agent_sdk_go.UniversalWorker.Frame.{
  Kept-trans, send_message-Kept, update_load-Kept, update_job_status-Kept,
}
use livekit_agent_sdk_go.UniversalWorker.Reconnection.{
  JobsKept, JobsKept-refl, JobsKept-trans, Kept-JobsKept, reconnect-Ends,
}

-- The jobs, the times and the counts that a world has.
pub record JobsAre (w : Dict JobContext) (at : Dict ℕ) (m : Metrics) (s : World) : Type 0 where
  pub jobs : s.worker.active_jobs ≡ w
  pub times : s.worker.job_start_times ≡ at
  pub counts : s.worker.metrics ≡ m

close_conn-JobsKept : (o : Option ℕ) (s : World) → JobsKept s (close_conn o s)
close_conn-JobsKept none s = JobsKept-refl s
close_conn-JobsKept (some c) s = record { same_metrics = refl; same_jobs = refl; same_times = refl }

stop_handler-JobsKept : (o : Option ℕ) (s : World) → JobsKept s (stop_handler o s)
unfolding stop_handler with_worker emit
stop_handler-JobsKept none s = JobsKept-refl s
stop_handler-JobsKept (some c) s = record {
  same_metrics = refl;
  same_jobs = refl;
  same_times = refl;
}

request-JobsKept : (s : World) → JobsKept s (with_worker request_reconnect s)
unfolding with_worker request_reconnect
request-JobsKept s =
    if_cases (λ (w : UniversalWorker). JobsKept s (record s { worker = w })) s.worker.reconnect_chan
      (record { same_metrics = refl; same_jobs = refl; same_times = refl })
      (record { same_metrics = refl; same_jobs = refl; same_times = refl })

pub handle_connection_error-JobsKept : (s : World) → JobsKept s (handle_connection_error s)
unfolding handle_connection_error drop_conn stop_message_handler with_worker
handle_connection_error-JobsKept s =
    if_cases (λ (t : World). JobsKept s t) s.worker.reconnecting (JobsKept-refl s)
      (let marked = with_worker (λ w. record w { reconnecting = true }) s in
        let dropped = drop_conn disconnected marked in
        let closing = close_conn-JobsKept s.worker.conn marked in
        JobsKept-trans
          (record {
            same_metrics = closing.same_metrics;
            same_jobs = closing.same_jobs;
            same_times = closing.same_times;
          })
          (JobsKept-trans (stop_handler-JobsKept dropped.worker.message_handler_cancel dropped)
            (request-JobsKept (stop_message_handler dropped))))

forget_job-jobs :
    (id : String) (o : Option Room) (w : UniversalWorker)
    → ((forget_job id o w).active_jobs ≡ delete id w.active_jobs)
      × ((forget_job id o w).job_start_times ≡ delete id w.job_start_times)
      × ((forget_job id o w).metrics ≡ w.metrics)
unfolding forget_job
forget_job-jobs id none w = (refl, refl, refl)
forget_job-jobs id (some room) w = (refl, refl, refl)

disconnect-JobsKept : (o : Option Room) (s : World) → JobsKept s (disconnect o s)
disconnect-JobsKept none s = JobsKept-refl s
disconnect-JobsKept (some room) s = record {
  same_metrics = refl;
  same_jobs = refl;
  same_times = refl;
}

abbrev pub completed_once : Metrics → Metrics
completed_once m = record m { jobs_completed = m.jobs_completed + 1 }

abbrev pub accepted_once : Metrics → Metrics
accepted_once m = record m { jobs_accepted = m.jobs_accepted + 1 }

store_metadata-JobsKept :
    (answer : MetadataAnswer) (m : JobMetadata) (s : World) → JobsKept s (store_metadata answer m s)
unfolding store_metadata
store_metadata-JobsKept no_metadata m s = JobsKept-refl s
store_metadata-JobsKept (fresh _) m s = JobsKept-refl s
store_metadata-JobsKept (shared a) m s = record {
  same_metrics = refl;
  same_jobs = refl;
  same_times = refl;
}

take_pending-JobsKept :
    (id : String) (answer : MetadataAnswer) (o : Option JobMetadata) (s : World)
    → JobsKept s (take_pending id answer o s).0
unfolding take_pending with_worker
take_pending-JobsKept id answer none s = JobsKept-refl s
take_pending-JobsKept id answer (some pending) s =
    let storing = store_metadata-JobsKept answer _ s in
    record {
      same_metrics = storing.same_metrics;
      same_jobs = storing.same_jobs;
      same_times = storing.same_times;
    }

-- What handleJobAssignment leaves before it joins the room.
abbrev pub Begun : World → World × Option (Job × RoomRequest) → Type 0
Begun s (t, none) = JobsKept s t
Begun s (t, some _) =
    JobsAre s.worker.active_jobs s.worker.job_start_times (accepted_once s.worker.metrics) t

begin_job_in-Begun :
    (a : JobAssignment) (job : Job) (room : Option String) (answer : MetadataAnswer) (s : World)
    → Ends (Begun s) (begin_job_in a job room answer s)
unfolding begin_job_in with_worker count_accepted
begin_job_in-Begun a job none answer s = panics
begin_job_in-Begun a job (some room) answer s =
    let taking =
      take_pending-JobsKept job.id answer (lookup job.id s.worker.pending_job_metadata) s in
    ends (record {
      jobs = taking.same_jobs;
      times = taking.same_times;
      counts = ap accepted_once taking.same_metrics;
    })

begin_assigned-Begun :
    (a : JobAssignment) (o : Option Job) (answer : MetadataAnswer) (s : World)
    → Ends (Begun s) (begin_assigned a o answer s)
unfolding begin_assigned
begin_assigned-Begun a none answer s = ends (JobsKept-refl s)
begin_assigned-Begun a (some job) answer s = begin_job_in-Begun a job job.room_name answer s

pub begin_assignment-Begun :
    (a : JobAssignment) (answer : MetadataAnswer) (s : World)
    → Ends (Begun s) (begin_assignment a answer s)
unfolding begin_assignment
begin_assignment-Begun a answer s = begin_assigned-Begun a a.job answer s

module _ (env : Environment) where
  pub finish_job-jobs :
      (outcome : JobOutcome) (ctx : JobContext) (now : ℕ) (s : World)
      → JobsAre
          (delete ctx.job.id s.worker.active_jobs)
          (delete ctx.job.id s.worker.job_start_times)
          (completed_once s.worker.metrics)
          (finish_job env outcome ctx now s)
  unfolding finish_job with_worker emit count_completed
  finish_job-jobs outcome ctx now s =
      let told =
        update_job_status env ctx.job.id (final_status outcome) (final_error outcome) now s in
      let telling = Kept-JobsKept (
        update_job_status-Kept env ctx.job.id (final_status outcome) (final_error outcome) now s) in
      let forgotten = forget_job-jobs ctx.job.id ctx.room told.worker in
      let away = disconnect-JobsKept ctx.room (with_worker (forget_job ctx.job.id ctx.room) told) in
      let loading = Kept-JobsKept (update_load-Kept env now _) in
      record {
        jobs =
            loading.same_jobs
            ∙ away.same_jobs
            ∙ forgotten.0
            ∙ ap (λ m. delete ctx.job.id m) telling.same_jobs;
        times =
            loading.same_times
            ∙ away.same_times
            ∙ forgotten.1
            ∙ ap (λ m. delete ctx.job.id m) telling.same_times;
        counts =
            loading.same_metrics
            ∙ ap completed_once (away.same_metrics ∙ forgotten.2 ∙ telling.same_metrics);
      }

  pub joined-jobs :
      (job : Job) (room : Room) (now : ℕ) (s : World)
      → JobsAre
          (insert job.id (new_context job room now s) s.worker.active_jobs)
          (insert job.id now s.worker.job_start_times)
          s.worker.metrics
          (finish_assignment env job (joined room) now s).0
  unfolding finish_assignment with_worker store_job new_context
  joined-jobs job room now s =
      let stored = record (with_worker (store_job (new_context job room now s) room) s) {
        next_context = s.next_context + 1;
      } in
      let telling = update_job_status-Kept env job.id js_running "" now stored in
      let loading =
        update_load-Kept env now (update_job_status env job.id js_running "" now stored) in
      let both = Kept-JobsKept (Kept-trans telling loading) in
      record { jobs = both.same_jobs; times = both.same_times; counts = both.same_metrics }

  pub join_failed-JobsKept :
      (job : Job) (err : String) (now : ℕ) (s : World)
      → JobsKept s (finish_assignment env job (join_failed err) now s).0
  unfolding finish_assignment
  join_failed-JobsKept job err now s =
      Kept-JobsKept (update_job_status-Kept env job.id js_failed err now s)

  cancel_context-JobsKept : (ctx : JobContext) (s : World) → JobsKept s (cancel_context ctx s)
  unfolding cancel_context emit
  cancel_context-JobsKept ctx s =
      if_cases (λ (t : World). JobsKept s t) ctx.cancellable
        (record { same_metrics = refl; same_jobs = refl; same_times = refl }) (JobsKept-refl s)

  -- Deleting an entry that is not there.
  end_job-jobs :
      (id : String) (o : Option JobContext) (s : World)
      → JobsAre
          (if is_some o then delete id s.worker.active_jobs else s.worker.active_jobs)
          (if is_some o then delete id s.worker.job_start_times else s.worker.job_start_times)
          s.worker.metrics
          (end_job id o s)
  unfolding end_job with_worker
  end_job-jobs id none s = record { jobs = refl; times = refl; counts = refl }
  end_job-jobs id (some ctx) s =
      let forgotten = forget_job-jobs id ctx.room s.worker in
      let off = cancel_context-JobsKept ctx (with_worker (forget_job id ctx.room) s) in
      record {
        jobs = off.same_jobs ∙ forgotten.0;
        times = off.same_times ∙ forgotten.1;
        counts = off.same_metrics ∙ forgotten.2;
      }

  pub termination-jobs :
      (id : String) (now : ℕ) (s : World)
      → JobsAre
          (if is_some (lookup id s.worker.active_jobs)
            then delete id s.worker.active_jobs
            else s.worker.active_jobs)
          (if is_some (lookup id s.worker.active_jobs)
            then delete id s.worker.job_start_times
            else s.worker.job_start_times)
          s.worker.metrics
          (handle_job_termination env id now s)
  unfolding handle_job_termination emit
  termination-jobs id now s =
      let ended = end_job-jobs id (lookup id s.worker.active_jobs) s in
      let loading = Kept-JobsKept (update_load-Kept env now _) in
      record {
        jobs = loading.same_jobs ∙ ended.jobs;
        times = loading.same_times ∙ ended.times;
        counts = loading.same_metrics ∙ ended.counts;
      }

  pub availability-JobsKept :
      (job : Job) (accept : Bool) (metadata : Option JobMetadata) (s : World)
      → JobsKept s (handle_availability_request env job accept metadata s).0
  unfolding handle_availability_request with_worker
  availability-JobsKept job accept metadata s =
      JobsKept-trans (record { same_metrics = refl; same_jobs = refl; same_times = refl })
        (Kept-JobsKept (send_message-Kept env _ _))

  send_ping-JobsKept : (now : ℕ) (s : World) → JobsKept s (send_ping env now s).0
  unfolding send_ping note_ping note_missed with_worker
  send_ping-JobsKept now s =
      let noted = with_worker (note_ping now) s in
      let missed = with_worker note_missed noted in
      let noting : JobsKept s noted = record {
        same_metrics = refl;
        same_jobs = refl;
        same_times = refl;
      } in
      let missing : JobsKept s missed = record {
        same_metrics = refl;
        same_jobs = refl;
        same_times = refl;
      } in
      if_cases (λ (r : World × Option SendError). JobsKept s r.0) (pong_overdue now s.worker)
        (if_cases (λ (r : World × Option SendError). JobsKept s r.0)
          (ltb 3 missed.worker.health_check.missed_pings)
          (JobsKept-trans missing (handle_connection_error-JobsKept missed))
          (JobsKept-trans missing (Kept-JobsKept (send_message-Kept env _ missed))))
        (JobsKept-trans noting (Kept-JobsKept (send_message-Kept env _ noted)))

  pub ping_tick-JobsKept : (now : ℕ) (s : World) → JobsKept s (ping_tick env now s)
  unfolding ping_tick
  ping_tick-JobsKept now s =
      if_cases (λ (t : World). JobsKept s t) (is_some (send_ping env now s).1)
        (JobsKept-trans (send_ping-JobsKept now s) (handle_connection_error-JobsKept _))
        (send_ping-JobsKept now s)

  after_reconnect-world :
      (jitter : ℤ → ℤ) (attempts : ℕ) (r : World × Option ConnectError)
      → (after_reconnect jitter attempts r).0 ≡ r.0
  unfolding after_reconnect
  after_reconnect-world jitter attempts (s, none) = refl
  after_reconnect-world jitter attempts (s, some err) = refl

  pub reconnect_turn-JobsKept :
      (jitter : ℤ → ℤ) (a : ConnectAnswers) (handler now attempts : ℕ) (s : World)
      → Ends (λ r. JobsKept s r.0) (reconnect_turn env jitter a handler now attempts s)
  unfolding reconnect_turn with_worker
  reconnect_turn-JobsKept jitter a handler now attempts s =
      Ends-bind
        (reconnect-Ends env a handler now
          (with_worker (λ w. record w { reconnect_chan = false }) s))
        (λ r out. ends {a = after_reconnect jitter attempts r} (
          rw (after_reconnect-world jitter attempts r) (
            JobsKept-trans (record { same_metrics = refl; same_jobs = refl; same_times = refl })
              out.outcome.jobs)))
