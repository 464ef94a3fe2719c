-- ===== src/UniversalWorker/JobSteps.antt =====
-- The jobs of the worker over the interleavings of its goroutines (pkg/agent/universal_worker.go,
-- universal_worker_websocket.go). One goroutine runs per assignment: it begins, joins the room or
-- fails to, and runs the handler to its end. In between, the other goroutines do their steps.
use livekit_agent_sdk_go.Prelude.{
  ℕ, suc, ◌+◌, ◌≡◌, refl, ap, String, Bool, false, ◌||◌, Option, some, List, [], ◌∷◌, arith, str_eq,
  length,
}
use livekit_agent_sdk_go.Prelude.Int.{ℤ}
use livekit_agent_sdk_go.Prelude.Exec.{ok}
use livekit_agent_sdk_go.JobQueue.Item.{Job}
use livekit_agent_sdk_go.RaceProtector.{JobStatus}
use livekit_agent_sdk_go.UniversalWorker.Types.{
  JobMetadata, Room, JobContext, Environment, World, with_worker,
}
use livekit_agent_sdk_go.UniversalWorker.Sending.{update_job_status, process_status_queue}
use livekit_agent_sdk_go.UniversalWorker.Jobs.{
  JobAssignment, MetadataAnswer, RoomRequest, joined, join_failed, JobOutcome, begin_assignment,
  new_context, finish_assignment, begin_job, finish_job, handle_job_termination,
  handle_availability_request,
}
use livekit_agent_sdk_go.UniversalWorker.Connection.{
  handle_connection_error, ping_tick, receive_pong, ConnectAnswers, reconnect_turn,
}

-- One entry of a list, and the rest of it.
pub data Picked {A : Type 0} (x : A) : List A → List A → Type 0 where
  first : {xs : List A} → Picked x (x ∷ xs) xs
  later : {y : A} {xs ys : List A} → Picked x xs ys → Picked x (y ∷ xs) (y ∷ ys)

pub Picked-length :
    {A : Type 0} {x : A} {xs ys : List A} → Picked x xs ys → length xs ≡ suc (length ys)
Picked-length first = refl
Picked-length (later p) = ap suc (Picked-length p)

-- Whether a goroutine runs a job with the id.
unfoldable pub has_job : String → List JobContext → Bool
has_job id [] = false
has_job id (c ∷ cs) = str_eq c.job.id id || has_job id cs

pub has_job-Picked :
    {c : JobContext} {xs ys : List JobContext} (id : String)
    → Picked c xs ys
    → has_job id xs ≡ (str_eq c.job.id id || has_job id ys)
unfolding has_job
has_job-Picked id first = refl
has_job-Picked id (later p) = ground (arith, has_job-Picked id p)

-- The worker with the goroutines of its jobs: those that join a room, and those that run the handler;
-- `failed` counts those that could not join.
pub record System : Type 0 where
  pub world : World
  pub joining : List Job
  pub running : List JobContext
  pub failed : ℕ

module _ (env : Environment) where
  pub data Step (s : System) : System → Type 0 where
    assigned :
        (a : JobAssignment) (answer : MetadataAnswer) (w : World) (job : Job)
        (request : RoomRequest)
        → begin_assignment a answer s.world ≡ ok (w, some (job, request))
        → Step s (record s { world = w; joining = job ∷ s.joining })
    joins :
        (job : Job) (rest : List Job) (room : Room) (now : ℕ)
        → Picked job s.joining rest
        → Step s (record s {
          world = (finish_assignment env job (joined room) now s.world).0;
          joining = rest;
          running = new_context job room now s.world ∷ s.running;
        })
    fails :
        (job : Job) (rest : List Job) (err : String) (now : ℕ)
        → Picked job s.joining rest
        → Step s (record s {
          world = (finish_assignment env job (join_failed err) now s.world).0;
          joining = rest;
          failed = s.failed + 1;
        })
    starts :
        (ctx : JobContext) (rest : List JobContext) (present : List String)
        → Picked ctx s.running rest
        → Step s (record s {
          world = (begin_job present ctx s.world).0;
          running = (begin_job present ctx s.world).1 ∷ rest;
        })
    finishes :
        (ctx : JobContext) (rest : List JobContext) (outcome : JobOutcome) (now : ℕ)
        → Picked ctx s.running rest
        → Step s (record s { world = finish_job env outcome ctx now s.world; running = rest })
    terminated :
        (id : String) (now : ℕ)
        → Step s (record s { world = handle_job_termination env id now s.world })
    asked :
        (job : Job) (accept : Bool) (metadata : Option JobMetadata)
        → Step s
            (record s { world = (handle_availability_request env job accept metadata s.world).0 })
    reported :
        (id : String) (status : JobStatus) (message : String) (now : ℕ)
        → Step s (record s { world = update_job_status env id status message now s.world })
    retried : Step s (record s { world = process_status_queue env s.world })
    ticked : (now : ℕ) → Step s (record s { world = ping_tick env now s.world })
    answered : (now : ℕ) → Step s (record s { world = with_worker (receive_pong now) s.world })
    broke : Step s (record s { world = handle_connection_error s.world })
    reconnected :
        (jitter : ℤ → ℤ) (a : ConnectAnswers) (handler now attempts : ℕ) (r : World × ℕ × Option ℤ)
        → reconnect_turn env jitter a handler now attempts s.world ≡ ok r
        → Step s (record s { world = r.0 })

  pub data Reach (s : System) : System → Type 0 where
    start : Reach s s
    step : {t u : System} → Reach s t → Step t u → Reach s u
