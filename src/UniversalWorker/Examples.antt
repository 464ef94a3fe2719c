-- ===== src/UniversalWorker/Examples.antt =====
-- Concrete runs of the worker.
use livekit_agent_sdk_go.Prelude.{
  is_some, ℕ, ◌≡◌, refl, String, true, false, none, some, List, [], ◌∷◌, arith, eq_iff,
}
use livekit_agent_sdk_go.Prelude.Dict.{lookup}
use livekit_agent_sdk_go.Prelude.Int.{pos}
use livekit_agent_sdk_go.Prelude.Exec.{Exec, ok, panic, out_of_fuel, Returns}
use livekit_agent_sdk_go.JobQueue.Item.{Job, jt_room, jt_participant}
use livekit_agent_sdk_go.RaceProtector.{js_success}
use livekit_agent_sdk_go.NetworkHandler.{write_message_with_retry}
use livekit_agent_sdk_go.NetworkHandler.Writes.{working}
use livekit_agent_sdk_go.UniversalWorker.Types.{
  Participant, JobMetadata, empty_metadata, Room, JobContext, WorkerOptions, new_universal_worker,
  Environment, World, with_worker, update_job, connected,
}
use livekit_agent_sdk_go.UniversalWorker.Sending.{can_send, update_job_status, process_status_queue}
use livekit_agent_sdk_go.UniversalWorker.Jobs.{
  JobAssignment, no_metadata, with_api_key, room_url, begin_assignment, begin_assigned,
  begin_job_in, take_pending, count_accepted, room_request, load_metadata, returned_nil, panicked,
  finish_job, joined, finish_assignment, new_context, handle_job_termination,
}
use livekit_agent_sdk_go.UniversalWorker.Connection.{
  ConnectAnswers, dialed, registered, other_message, reconnect, backoff_delay, after_reconnect,
  pong_overdue, registration_timeout,
}
use livekit_agent_sdk_go.UniversalWorker.Reconnection.{Reconnected, decides, reconnect_settles}
use livekit_agent_sdk_go.UniversalWorker.JobSteps.{
  System, start, step, assigned, joins, finishes, first,
}
use livekit_agent_sdk_go.UniversalWorker.JobLife.{Sound, reachable-Sound}
use livekit_agent_sdk_go.UniversalWorker.StatusRetries.{rounds, IsWorking, written}
use livekit_agent_sdk_go.UniversalWorker.StatusDelivery.{report_recovers}
use livekit_agent_sdk_go.UniversalWorker.SharedMetadata.{
  begin_both, joined_identity, identity_leaks,
}
use livekit_agent_sdk_go.UniversalWorker.Backoff.{IsNear, backoff_doubles, backoff_vanishes}
use livekit_agent_sdk_go.UniversalWorker.SharedRoom.{shared_room_lost}
use livekit_agent_sdk_go.UniversalWorker.Notices.{notices, terminated_told_twice}
use livekit_agent_sdk_go.UniversalWorker.Targets.{
  RoomEvent, connects, disconnects, after_events, is_there, TargetPresent, participants_followed,
}
use livekit_agent_sdk_go.UniversalWorker.Shutdown.{stop, stop_tells_each_once}
use livekit_agent_sdk_go.UniversalWorker.Health.{ping_ticks, overdue_pings_counted}

abbrev env : Environment
env = record {
  connection = λ i. working;
  clock = λ i. 0;
  marshal = λ m. some (1 ∷ []);
  calculate = λ m. 0;
  at_least_one = λ l. false;
}

abbrev options : WorkerOptions
options = record {
  agent_name = "helper";
  job_type = jt_room;
  version = "1";
  namespace = "";
  permissions = none;
  ping_interval = 5000000000;
  max_jobs = 2;
  ping_timeout = 10;
  strict_protocol_mode = false;
}

abbrev idle_world : World
idle_world = record {
  worker = new_universal_worker "ws" options none 0;
  trace = [];
  writes = 0;
  next_context = 0;
  stored_metadata = λ a. empty_metadata;
}

abbrev a_job : String → Job
a_job id = record {
  id = id;
  metadata = "";
  job_type = jt_room;
  room_name = some "room";
  participant_identity = none;
}

abbrev assignment : String → JobAssignment
assignment id = record { job = some (a_job id); url = none; token = "" }

abbrev a_room : Room
a_room = record { handle = 7; name = "room" }

-- A job is assigned, joins its room and ends.
abbrev system : World → List Job → List JobContext → System
system w joining running = record { world = w; joining = joining; running = running; failed = 0 }

abbrev world₁ : World
world₁ = with_worker count_accepted idle_world

abbrev world₂ : World
world₂ = (finish_assignment env (a_job "a") (joined a_room) 5 world₁).0

abbrev context : JobContext
context = new_context (a_job "a") a_room 5 world₁

abbrev world₃ : World
world₃ = finish_job env returned_nil context 9 world₂

begun_first :
    begin_assignment (assignment "a") no_metadata idle_world
    ≡ ok (world₁, some (a_job "a", with_api_key "ws" "room" "agent-a" empty_metadata))
unfolding begin_assignment begin_assigned begin_job_in take_pending load_metadata room_request
    room_url new_universal_worker lookup with_worker
begun_first = refl

idle-Sound : Sound (system idle_world [] [])
unfolding new_universal_worker lookup
idle-Sound = record {
  counted = refl;
  active_run = λ id h. absurd (ground arith);
  timed = λ id. refl;
}

reachable-Sound_example : Sound (system world₃ [] [])
reachable-Sound_example =
    reachable-Sound env
      (step
        (step
          (step start (
            assigned (assignment "a") no_metadata world₁ (a_job "a")
              (with_api_key "ws" "room" "agent-a" empty_metadata) begun_first))
          (joins (a_job "a") [] a_room 5 first))
        (finishes context [] returned_nil 9 first))
      idle-Sound

abbrev named : String → JobMetadata
named identity = record empty_metadata { participant_identity = identity }

abbrev two_offered : World
two_offered =
    with_worker
      (λ w. record w { pending_job_metadata = ("a", named "alice") ∷ ("b", named "bob") ∷ [] })
      idle_world

identity_leaks_example :
    joined_identity (begin_both (assignment "a") (assignment "b") 3 two_offered) ≡ some "alice"
unfolding lookup with_worker
identity_leaks_example =
    identity_leaks (assignment "a") (assignment "b") (a_job "a") (a_job "b") "room" "room" 3
      (named "alice") (named "bob") two_offered refl refl refl refl refl refl refl refl refl
      (λ p. ground (arith, (eq_iff "alice" "").1 p))

idle_off : can_send idle_world.worker ≡ false
unfolding can_send new_universal_worker
idle_off = refl

env-IsWorking : IsWorking (λ m. 1 ∷ []) env
env-IsWorking = record { taken = λ i. refl; marshalled = λ m. refl }

abbrev answers : ConnectAnswers
answers = record {
  token_error = none;
  dial = dialed 4;
  turns = other_message ∷ registered "w" ∷ [];
}

-- An update of an idle worker, after two rounds of retries and a reconnection.
abbrev late_report : World
late_report = rounds env 2 (update_job_status env "a" js_success "" 6 idle_world)

-- The world that a call returned, if it did.
abbrev or_idle : {E : Type 0} → Exec (World × E) → World
or_idle (ok (s, e)) = s
or_idle panic = idle_world
or_idle out_of_fuel = idle_world

abbrev back_world : World
back_world = or_idle (reconnect env answers 1 8 late_report)

back_again : reconnect env answers 1 8 late_report ≡ ok (back_world, none)
unfolding reconnect write_message_with_retry
back_again = refl

report_recovers_example :
    (late_report.trace ≡ [])
    × ((process_status_queue env back_world).worker.status_queue ≡ [])
    × ((process_status_queue env back_world).trace
        ≡ written (λ m. 1 ∷ []) (update_job "a" js_success "") ∷ back_world.trace)
unfolding new_universal_worker
report_recovers_example =
    report_recovers env (λ m. 1 ∷ []) env-IsWorking "a" js_success "" 6 2 answers 1 8 idle_world
      back_world idle_off refl refl refl back_again

reconnect_settles_example :
    Returns (Reconnected env idle_world) (reconnect env answers 1 8 idle_world)
unfolding decides
reconnect_settles_example = reconnect_settles env answers 1 8 idle_world refl

backoff_doubles_example :
    (slept : ℕ) × (after_reconnect (λ d. d) 3 (idle_world, some registration_timeout)
      ≡ (idle_world, 4, some (pos slept)))
    × IsNear 4000000000 slept
backoff_doubles_example =
    backoff_doubles (λ d. d) 3 idle_world registration_timeout
      (λ d. (d, refl, (omega arith, omega arith))) (omega arith)

backoff_vanishes_example : backoff_delay 60 ≡ pos 0
backoff_vanishes_example = backoff_vanishes 60 (omega arith)

-- The last pong came at the time 0.
abbrev answered_once : World
answered_once =
    with_worker
      (λ w. record w {
        health_check = record {
          last_ping = none;
          last_pong = some 0;
          missed_pings = 0;
          is_healthy = true;
        };
      })
      idle_world

overdue_pings_counted_example :
    ((ping_ticks env (20 ∷ 40 ∷ []) answered_once).worker.health_check.missed_pings ≡ 2)
    × ((ping_ticks env (20 ∷ 40 ∷ []) answered_once).worker.health_check.is_healthy ≡ true)
unfolding pong_overdue with_worker new_universal_worker
overdue_pings_counted_example =
    overdue_pings_counted env (20 ∷ 40 ∷ []) answered_once (refl, (refl, tt)) refl refl

abbrev missed_three : World
missed_three =
    with_worker
      (λ w. record w {
        conn = some 4;
        ws_state = connected;
        health_check = record {
          last_ping = none;
          last_pong = some 0;
          missed_pings = 3;
          is_healthy = true;
        };
      })
      idle_world

abbrev in_room : String → ℕ → JobContext
in_room id c = record {
  job = a_job id;
  room = some a_room;
  context = c;
  cancellable = true;
  started_at = 0;
  target_participant = none;
}

abbrev two_running : World
two_running =
    with_worker
      (λ w. record w {
        active_jobs = ("a", in_room "a" 0) ∷ ("b", in_room "b" 1) ∷ [];
        rooms = ("room", a_room) ∷ [];
        participant_trackers = ("room", a_room) ∷ [];
      })
      idle_world

shared_room_lost_example :
    (lookup "b" (finish_job env returned_nil (in_room "a" 0) 9 two_running).worker.active_jobs
      ≡ some (in_room "b" 1))
    × (lookup "room" (finish_job env returned_nil (in_room "a" 0) 9 two_running).worker.rooms
        ≡ none)
    × (lookup "room"
          (finish_job env returned_nil (in_room "a" 0) 9 two_running).worker.participant_trackers
        ≡ none)
unfolding lookup with_worker
shared_room_lost_example =
    shared_room_lost env returned_nil (in_room "a" 0) (in_room "b" 1) a_room 9 two_running refl refl
      refl

terminated_told_twice_example :
    notices "a"
      (finish_job env
        (panicked "stopped")
        (in_room "a" 0)
        9
        (handle_job_termination env "a" 8 two_running)).trace
    ≡ 2
unfolding notices with_worker
terminated_told_twice_example =
    terminated_told_twice env (panicked "stopped") (in_room "a" 0) 8 9 two_running

abbrev guest : Participant
guest = record { identity = "guest"; permissions = none }

abbrev guest_job : Job
guest_job = record {
  id = "a";
  metadata = "";
  job_type = jt_participant;
  room_name = some "room";
  participant_identity = some "guest";
}

-- The target comes, somebody else comes and goes.
abbrev visits : List RoomEvent
visits =
    connects guest_job guest 1
    ∷ connects guest_job (record { identity = "host"; permissions = none }) 2
    ∷ disconnects "host"
    ∷ []

participants_followed_example :
    (is_some (lookup "guest" (after_events visits idle_world).worker.participants) ≡ true)
    × TargetPresent
        (after_events visits idle_world).worker.target_participant
        (after_events visits idle_world).worker.participants
unfolding is_there new_universal_worker
participants_followed_example = participants_followed "guest" visits idle_world tt

stop_tells_each_once_example :
    (notices "b" (stop env two_running).trace ≡ 1)
    × (stop env (stop env two_running) ≡ stop env two_running)
unfolding notices lookup with_worker new_universal_worker
stop_tells_each_once_example = stop_tells_each_once env "b" two_running refl (refl, (refl, tt))
