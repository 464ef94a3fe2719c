-- ===== src/UniversalWorker/Types.antt =====
-- The state of the worker and its messages (pkg/agent/universal_worker.go, universal_types.go,
-- universal_helpers.go).
use livekit_agent_sdk_go.Prelude.{
  ℕ, String, Bool, true, false, Option, none, List, [], ◌∷◌, if◌then◌else◌, ◌==◌,
}
use livekit_agent_sdk_go.Prelude.Dict.{Dict}
use livekit_agent_sdk_go.Prelude.Int.{ℤ}
use livekit_agent_sdk_go.JobQueue.Item.{Job, JobType}
use livekit_agent_sdk_go.Permissions.Policy.{ParticipantPermission}
use livekit_agent_sdk_go.RaceProtector.{JobStatus, StatusUpdate}
use livekit_agent_sdk_go.NetworkHandler.{
  NetworkHandler, Connection, WriteResult, new_network_handler,
}
use livekit_agent_sdk_go.LoadBatcher.{LoadBatcher, WorkerStatus, Load, worker_status_available}

pub data WebSocketState : Type 0 where
  disconnected connecting connected reconnecting : WebSocketState

-- The attributes are none where the Go map is nil.
pub record JobMetadata : Type 0 where
  pub participant_identity : String
  pub participant_name : String
  pub participant_metadata : String
  pub participant_attributes : Option (Dict String)
  pub supports_resume : Bool

abbrev pub empty_metadata : JobMetadata
empty_metadata = record {
  participant_identity = "";
  participant_name = "";
  participant_metadata = "";
  participant_attributes = none;
  supports_resume = false;
}

-- lksdk.Room: its own number and its name.
pub record Room : Type 0 where
  pub handle : ℕ
  pub name : String

-- `context` is the number of the context that a job runs with; `cancellable` tells whether its
-- cancel function is set. StartedAt is a time.
pub record JobContext : Type 0 where
  pub job : Job
  pub room : Option Room
  pub context : ℕ
  pub cancellable : Bool
  pub started_at : ℕ
  pub target_participant : Option String

-- The zero time is none.
pub record HealthCheck : Type 0 where
  pub last_ping : Option ℕ
  pub last_pong : Option ℕ
  pub missed_pings : ℕ
  pub is_healthy : Bool

pub record Metrics : Type 0 where
  pub jobs_accepted : ℕ
  pub jobs_rejected : ℕ
  pub jobs_completed : ℕ
  pub jobs_failed : ℕ

pub record StatusUpdateRaceProtector : Type 0 where
  pub queued_updates : List StatusUpdate
  pub is_reconnecting : Bool

-- A remote participant: its identity and its permissions.
pub record Participant : Type 0 where
  pub identity : String
  pub permissions : Option ParticipantPermission

-- The fields of ParticipantInfo that the worker sets.
pub record ParticipantInfo : Type 0 where
  pub participant : Participant
  pub joined_at : ℕ
  pub last_activity : ℕ
  pub permissions : Option ParticipantPermission

-- The options that the code below reads; a limit of jobs that is not positive is 0.
pub record WorkerOptions : Type 0 where
  pub agent_name : String
  pub job_type : JobType
  pub version : String
  pub namespace : String
  pub permissions : Option ParticipantPermission
  pub ping_interval : ℕ
  pub max_jobs : ℕ
  pub ping_timeout : ℕ
  pub strict_protocol_mode : Bool

-- A connection and a message handler are numbers. A channel that only signals is a Boolean or the
-- number of its signals. The network handler is never nil: NewUniversalWorker sets it.
pub record UniversalWorker : Type 0 where
  pub server_url : String
  pub opts : WorkerOptions
  pub conn : Option ℕ
  pub ws_state : WebSocketState
  pub reconnect_chan : Bool
  pub reconnecting : Bool
  pub message_handler_cancel : Option ℕ
  pub worker_id : String
  pub saved_worker_id : String
  pub status : WorkerStatus
  pub active_jobs : Dict JobContext
  pub job_start_times : Dict ℕ
  pub rooms : Dict Room
  pub participant_trackers : Dict Room
  pub status_queue : List StatusUpdate
  pub status_queue_chan : ℕ
  pub load_batcher : Option LoadBatcher
  pub pending_job_metadata : Dict JobMetadata
  pub race_protector : StatusUpdateRaceProtector
  pub network_handler : NetworkHandler
  pub metrics : Metrics
  pub health_check : HealthCheck
  pub participants : Dict ParticipantInfo
  pub target_participant : Option Participant
  pub subscribed_tracks : Dict ℕ
  pub stopped : Bool

-- A namespace that is not set is none; the ping interval is a uint32 of seconds.
pub record RegisterWorkerRequest : Type 0 where
  pub job_type : JobType
  pub agent_name : String
  pub version : String
  pub ping_interval : ℕ
  pub allowed_permissions : ParticipantPermission
  pub namespace : Option String

pub record AvailabilityResponse : Type 0 where
  pub job_id : String
  pub available : Bool
  pub supports_resume : Bool
  pub participant_identity : String
  pub participant_name : String
  pub participant_metadata : String
  pub participant_attributes : Option (Dict String)

-- The job count of update_worker is a uint32.
pub data WorkerMessage : Type 0 where
  register : RegisterWorkerRequest → WorkerMessage
  availability : AvailabilityResponse → WorkerMessage
  update_job : String → JobStatus → String → WorkerMessage
  update_worker : WorkerStatus → Load → ℕ → WorkerMessage
  ping : ℕ → WorkerMessage

pub record LoadMetrics : Type 0 where
  pub active_jobs : ℕ
  pub max_jobs : ℕ
  pub job_duration : Dict ℤ

-- The calls of the handler for events in a room: its name or number, and who is concerned.
pub data HandlerCall : Type 0 where
  room_left : ℕ → String → HandlerCall
  metadata_changed : ℕ → String → HandlerCall
  participant_joined participant_left participant_changed : String → HandlerCall
  track_subscribed track_unsubscribed : String → HandlerCall
  data_received : Option String → HandlerCall

-- What the worker does to the world outside: a call of WriteMessageWithRetry, with its result and the
-- frame that the connection was given; a call of the handler; and calls on contexts, rooms and
-- connections.
pub data Event : Type 0 where
  wrote : WorkerMessage → WriteResult → Option (ℕ × List ℕ) → Event
  job_terminated room_connected job_assigned : String → Event
  cancelled : ℕ → Event
  room_disconnected : ℕ → Event
  conn_closed handler_stopped handler_started : ℕ → Event
  handler_called : HandlerCall → Event

-- The parts of the process that the worker asks: the answers of the connection and the clock, by the
-- number of the write; proto.Marshal; the load calculator; and whether a load is 1.0 or more.
pub record Environment : Type 0 where
  pub connection : ℕ → Connection
  pub clock : ℕ → ℕ
  pub marshal : WorkerMessage → Option (List ℕ)
  pub calculate : LoadMetrics → ℕ
  pub at_least_one : Load → Bool

-- The worker, the events so far with the last one first, the number of writes, the next number of a
-- context, and the metadata that the handler's code keeps, by their addresses.
pub record World : Type 0 where
  pub worker : UniversalWorker
  pub trace : List Event
  pub writes : ℕ
  pub next_context : ℕ
  pub stored_metadata : ℕ → JobMetadata

unfoldable pub with_worker : (UniversalWorker → UniversalWorker) → World → World
with_worker f s = record s { worker = f s.worker }

unfoldable pub emit : Event → World → World
emit e s = record s { trace = e ∷ s.trace }

-- The options with the defaults for what is 0.
unfoldable pub with_defaults : WorkerOptions → WorkerOptions
with_defaults o = record o {
  ping_interval = if o.ping_interval == 0 then 30000000000 else o.ping_interval;
  ping_timeout = if o.ping_timeout == 0 then 10000000000 else o.ping_timeout;
}

unfoldable pub new_universal_worker :
    String → WorkerOptions → Option LoadBatcher → ℕ → UniversalWorker
unfolding new_network_handler with_defaults
new_universal_worker server_url opts batcher now = record {
  server_url = server_url;
  opts = with_defaults opts;
  conn = none;
  ws_state = disconnected;
  reconnect_chan = false;
  reconnecting = false;
  message_handler_cancel = none;
  worker_id = "";
  saved_worker_id = "";
  status = worker_status_available;
  active_jobs = [];
  job_start_times = [];
  rooms = [];
  participant_trackers = [];
  status_queue = [];
  status_queue_chan = 0;
  load_batcher = batcher;
  pending_job_metadata = [];
  race_protector = record { queued_updates = []; is_reconnecting = false };
  network_handler = new_network_handler now;
  metrics = record { jobs_accepted = 0; jobs_rejected = 0; jobs_completed = 0; jobs_failed = 0 };
  health_check = record { last_ping = none; last_pong = none; missed_pings = 0; is_healthy = true };
  participants = [];
  target_participant = none;
  subscribed_tracks = [];
  stopped = false;
}
