-- ===== src/UniversalWorker/Jobs.antt =====
-- The life of a job in the worker: availability, assignment, the run of the handler, termination and
-- Stop (pkg/agent/universal_worker.go, universal_worker_websocket.go). What the handler answers is an
-- argument. A call that blocks on the network or on the handler is cut there into two functions.
use Prim.Native.String.{◌++◌ as string_append}
use livekit_agent_sdk_go.Prelude.{
  ℕ, ◌+◌, String, Bool, true, false, ◌||◌, Option, none, some, List, [], ◌∷◌, ◌==◌, if◌then◌else◌,
  str_eq,
}
use livekit_agent_sdk_go.Prelude.Dict.{Dict, lookup, insert, delete}
use livekit_agent_sdk_go.Prelude.Exec.{Exec, ok, panic}
use livekit_agent_sdk_go.JobQueue.Item.{
  Job, JobType, jt_room, jt_publisher, jt_participant, unrecognized,
}
use livekit_agent_sdk_go.RaceProtector.{JobStatus, js_running, js_success, js_failed}
use livekit_agent_sdk_go.UniversalWorker.Types.{
  JobMetadata, empty_metadata, Room, JobContext, UniversalWorker, availability,
  AvailabilityResponse, Environment, World, with_worker, emit, job_terminated, room_connected,
  job_assigned, cancelled, room_disconnected,
}
use livekit_agent_sdk_go.UniversalWorker.Sending.{
  SendError, send_message, update_load, update_job_status,
}

-- fmt.Sprintf("agent-%s", id)
abbrev pub default_identity : String → String
default_identity id = string_append "agent-" id

abbrev pub or_text : String → String → String
or_text first second = if str_eq first "" then second else first

-- A nil pointer reads like the empty metadata: the response starts with zero fields.
abbrev pub metadata_or_empty : Option JobMetadata → JobMetadata
metadata_or_empty none = empty_metadata
metadata_or_empty (some m) = m

-- The identity and the name that the worker answers with are never empty.
unfoldable pub resolve_metadata : String → String → JobMetadata → JobMetadata
resolve_metadata agent_name id m = record m {
  participant_identity = or_text m.participant_identity (default_identity id);
  participant_name = or_text m.participant_name (or_text agent_name "Agent");
}

abbrev pub response : String → Bool → JobMetadata → AvailabilityResponse
response id accept m = record {
  job_id = id;
  available = accept;
  supports_resume = m.supports_resume;
  participant_identity = m.participant_identity;
  participant_name = m.participant_name;
  participant_metadata = m.participant_metadata;
  participant_attributes = m.participant_attributes;
}

-- What GetJobMetadata answers: nil, a value of its own, or the address of metadata that the handler
-- keeps.
pub data MetadataAnswer : Type 0 where
  no_metadata : MetadataAnswer
  fresh : JobMetadata → MetadataAnswer
  shared : ℕ → MetadataAnswer

unfoldable pub load_metadata : MetadataAnswer → World → JobMetadata
load_metadata no_metadata s = empty_metadata
load_metadata (fresh m) s = m
load_metadata (shared a) s = s.stored_metadata a

-- The writes through the pointer that GetJobMetadata answered.
unfoldable pub store_metadata : MetadataAnswer → JobMetadata → World → World
store_metadata no_metadata m s = s
store_metadata (fresh _) m s = s
store_metadata (shared a) m s = record s {
  stored_metadata = λ b. if a == b then m else s.stored_metadata b;
}

abbrev pub or_attributes : Option (Dict String) → Option (Dict String) → Option (Dict String)
or_attributes none second = second
or_attributes (some a) second = some a

unfoldable pub merge_metadata : JobMetadata → JobMetadata → JobMetadata
merge_metadata m pending = record {
  participant_identity = or_text m.participant_identity pending.participant_identity;
  participant_name = or_text m.participant_name pending.participant_name;
  participant_metadata = or_text m.participant_metadata pending.participant_metadata;
  participant_attributes = or_attributes m.participant_attributes pending.participant_attributes;
  supports_resume = m.supports_resume || pending.supports_resume;
}

-- livekit.JobAssignment: nil for the job and for the URL is none.
pub record JobAssignment : Type 0 where
  pub job : Option Job
  pub url : Option String
  pub token : String

-- The call that joins the room: the URL with the token, or with the room, the identity and the
-- metadata.
pub data RoomRequest : Type 0 where
  with_token : String → String → RoomRequest
  with_api_key : String → String → String → JobMetadata → RoomRequest

unfoldable pub room_url : String → Option String → String
room_url server none = server
room_url server (some url) = or_text url server

unfoldable pub room_request : String → String → JobAssignment → String → JobMetadata → RoomRequest
unfolding room_url
room_request server id a room m =
    if str_eq a.token ""
    then with_api_key (room_url server a.url) room
        (or_text m.participant_identity (default_identity id)) m
    else with_token (room_url server a.url) a.token

unfoldable pub count_accepted : UniversalWorker → UniversalWorker
count_accepted w = record w {
  metrics = record (w.metrics) { jobs_accepted = w.metrics.jobs_accepted + 1 };
}

-- The pending metadata of the job is merged into the handler's, and forgotten.
unfoldable pub take_pending :
    String → MetadataAnswer → Option JobMetadata → World → World × JobMetadata
unfolding load_metadata store_metadata merge_metadata with_worker
take_pending id answer none s = (s, load_metadata answer s)
take_pending id answer (some pending) s =
    let m = merge_metadata (load_metadata answer s) pending in
    (
      with_worker (λ w. record w { pending_job_metadata = delete id w.pending_job_metadata })
          (store_metadata answer m s),
      m,
    )

-- The assignment of a job to the room with the name; a nil room panics.
unfoldable pub begin_job_in :
    JobAssignment
    → Job
    → Option String
    → MetadataAnswer
    → World
    → Exec (World × Option (Job × RoomRequest))
unfolding take_pending count_accepted room_request with_worker
begin_job_in a job none answer s = panic
begin_job_in a job (some room) answer s =
    let (s', m) = take_pending job.id answer (lookup job.id s.worker.pending_job_metadata) s in
    ok (with_worker count_accepted s', some (job, room_request s.worker.server_url job.id a room m))

unfoldable pub begin_assigned :
    JobAssignment → Option Job → MetadataAnswer → World → Exec (World × Option (Job × RoomRequest))
unfolding begin_job_in
begin_assigned a none answer s = ok (s, none)
begin_assigned a (some job) answer s = begin_job_in a job job.room_name answer s

-- handleJobAssignment until it joins the room: none if the assignment has no job.
unfoldable pub begin_assignment :
    JobAssignment → MetadataAnswer → World → Exec (World × Option (Job × RoomRequest))
unfolding begin_assigned
begin_assignment a answer s = begin_assigned a a.job answer s

unfoldable pub new_context : Job → Room → ℕ → World → JobContext
new_context job room now s = record {
  job = job;
  room = some room;
  context = s.next_context;
  cancellable = true;
  started_at = now;
  target_participant = none;
}

unfoldable pub store_job : JobContext → Room → UniversalWorker → UniversalWorker
store_job ctx room w = record w {
  active_jobs = insert ctx.job.id ctx w.active_jobs;
  job_start_times = insert ctx.job.id ctx.started_at w.job_start_times;
  rooms = insert room.name room w.rooms;
  participant_trackers = insert room.name room w.participant_trackers;
}

-- What joining the room answers.
pub data RoomAnswer : Type 0 where
  joined : Room → RoomAnswer
  join_failed : String → RoomAnswer

-- runJobHandler: how OnJobAssigned ends.
pub data JobOutcome : Type 0 where
  returned_nil : JobOutcome
  returned_error : String → JobOutcome
  panicked : String → JobOutcome

unfoldable pub final_status : JobOutcome → JobStatus
final_status returned_nil = js_success
final_status (returned_error e) = js_failed
final_status (panicked e) = js_failed

unfoldable pub final_error : JobOutcome → String
final_error returned_nil = ""
final_error (returned_error e) = e
final_error (panicked e) = string_append "handler panic: " e

abbrev pub forget_room : Option Room → UniversalWorker → UniversalWorker
forget_room none w = w
forget_room (some room) w = record w {
  rooms = delete room.name w.rooms;
  participant_trackers = delete room.name w.participant_trackers;
}

-- The deletions in runJobHandler and handleJobTermination.
unfoldable pub forget_job : String → Option Room → UniversalWorker → UniversalWorker
forget_job id room w = forget_room room (record w {
  active_jobs = delete id w.active_jobs;
  job_start_times = delete id w.job_start_times;
})

abbrev pub disconnect : Option Room → World → World
disconnect none s = s
disconnect (some room) s = record s { trace = room_disconnected room.handle ∷ s.trace }

unfoldable pub count_completed : UniversalWorker → UniversalWorker
count_completed w = record w {
  metrics = record (w.metrics) { jobs_completed = w.metrics.jobs_completed + 1 };
}

-- The first participant with the identity.
unfoldable pub find_participant : String → List String → Option String
find_participant identity [] = none
find_participant identity (p ∷ ps) =
    if str_eq p identity then some p else find_participant identity ps

unfoldable pub is_participant_job : JobType → Bool
is_participant_job jt_participant = true
is_participant_job jt_room = false
is_participant_job jt_publisher = false
is_participant_job (unrecognized n) = false

-- jobCtx.TargetParticipant after the loop over the room's participants.
unfoldable pub find_target : Job → List String → Option String → Option String
unfolding find_participant
find_target job present before = elim job.participant_identity [
  | none ↦ before
  | some identity ↦
      if is_participant_job job.job_type then keep (find_participant identity present) else before
]
  where
    keep : Option String → Option String
    keep none = before
    keep (some p) = some p

-- The context is shared with the map: the entry that holds it shows the target too.
unfoldable pub show_target : JobContext → Option JobContext → UniversalWorker → UniversalWorker
show_target ctx none w = w
show_target ctx (some c) w =
    if c.context == ctx.context
    then record w { active_jobs = insert ctx.job.id ctx w.active_jobs }
    else w

-- runJobHandler until the handler runs; it has set the target of the context.
unfoldable pub begin_job : List String → JobContext → World → World × JobContext
unfolding find_target emit show_target with_worker
begin_job present ctx s =
    let found = record ctx {
      target_participant = find_target ctx.job present ctx.target_participant;
    } in
    (
      emit (job_assigned ctx.job.id) (
          emit (room_connected ctx.job.id)
            (with_worker (show_target found (lookup ctx.job.id s.worker.active_jobs)) s)),
      found,
    )

unfoldable pub cancel_context : JobContext → World → World
unfolding emit
cancel_context ctx s = if ctx.cancellable then emit (cancelled ctx.context) s else s

unfoldable pub end_job : String → Option JobContext → World → World
unfolding forget_job cancel_context with_worker
end_job id none s = s
end_job id (some ctx) s = cancel_context ctx (with_worker (forget_job id ctx.room) s)

-- The loop of Stop over the active jobs.
unfoldable pub stop_jobs : Dict JobContext → World → World
unfolding cancel_context emit
stop_jobs [] s = s
stop_jobs ((id, ctx) ∷ rest) s = stop_jobs rest (emit (job_terminated id) (cancel_context ctx s))

module _ (env : Environment) where
  unfoldable pub handle_availability_request :
      Job → Bool → Option JobMetadata → World → World × Option SendError
  unfolding resolve_metadata with_worker
  handle_availability_request job accept metadata s =
      let m = resolve_metadata s.worker.opts.agent_name job.id (metadata_or_empty metadata) in
      send_message env (availability (response job.id accept m)) (
        with_worker
          (λ w. record w {
            pending_job_metadata =
                if accept
                then insert job.id m w.pending_job_metadata
                else delete job.id w.pending_job_metadata;
          })
          s)

  -- handleJobAssignment from the answer of the room on, with the context that is then run.
  unfoldable pub finish_assignment : Job → RoomAnswer → ℕ → World → World × Option JobContext
  unfolding store_job new_context with_worker
  finish_assignment job (join_failed err) now s =
      (update_job_status env job.id js_failed err now s, none)
  finish_assignment job (joined room) now s =
      let ctx = new_context job room now s in
      let stored = record (with_worker (store_job ctx room) s) {
        next_context = s.next_context + 1;
      } in
      (update_load env now (update_job_status env job.id js_running "" now stored), some ctx)

  -- The deferred function of runJobHandler.
  unfoldable pub finish_job : JobOutcome → JobContext → ℕ → World → World
  unfolding final_status final_error forget_job count_completed with_worker emit
  finish_job outcome ctx now s =
      let told =
        update_job_status env ctx.job.id (final_status outcome) (final_error outcome) now s in
      let cleaned = disconnect ctx.room (with_worker (forget_job ctx.job.id ctx.room) told) in
      update_load env now (emit (job_terminated ctx.job.id) (with_worker count_completed cleaned))

  unfoldable pub handle_job_termination : String → ℕ → World → World
  unfolding end_job emit
  handle_job_termination id now s =
      update_load env now (emit (job_terminated id) (end_job id (lookup id s.worker.active_jobs) s))
