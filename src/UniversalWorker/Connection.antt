-- ===== src/UniversalWorker/Connection.antt =====
-- The connection of the worker to the server: registration, messages, pings, errors and reconnection
-- (pkg/agent/universal_worker_websocket.go). What the network and the handler answer is an argument.
use livekit_agent_sdk_go.Prelude.{
  ℕ, ◌+◌, ◌-◌, ◌*◌, ◌/◌, ◌%◌, ◌^◌, String, Bool, true, false, ◌&&◌, Option, none, some, is_some,
  List, [], ◌∷◌, ltb, leb, ◌==◌, if◌then◌else◌, str_eq,
}
use livekit_agent_sdk_go.Prelude.Exec.{Exec, ok, out_of_fuel, ◌>>=◌}
use livekit_agent_sdk_go.Prelude.Int.{ℤ, pos, negsuc, ltb_ℤ}
use livekit_agent_sdk_go.JobQueue.Item.{Job}
use livekit_agent_sdk_go.Permissions.Policy.{ParticipantPermission, no_permission}
use livekit_agent_sdk_go.RaceProtector.{StatusUpdate}
use livekit_agent_sdk_go.UniversalWorker.Types.{
  WebSocketState, disconnected, connecting, connected, reconnecting, JobMetadata, UniversalWorker,
  register, ping, Environment, World, with_worker, emit, conn_closed, handler_stopped,
  handler_started, WorkerOptions, RegisterWorkerRequest,
}
use livekit_agent_sdk_go.UniversalWorker.StatusGuard.{process_queued_updates}
use livekit_agent_sdk_go.UniversalWorker.Sending.{
  SendError, send_message, update_load, update_job_status,
}
use livekit_agent_sdk_go.UniversalWorker.Jobs.{
  JobAssignment, handle_availability_request, handle_job_termination,
}

abbrev pub close_conn : Option ℕ → World → World
close_conn none s = s
close_conn (some c) s = record s { trace = conn_closed c ∷ s.trace }

-- Closing the connection and setting the state, as at the start of a reconnection.
unfoldable pub drop_conn : WebSocketState → World → World
unfolding with_worker
drop_conn state s =
    with_worker (λ w. record w { conn = none; ws_state = state }) (close_conn s.worker.conn s)

unfoldable pub stop_handler : Option ℕ → World → World
unfolding with_worker emit
stop_handler none s = s
stop_handler (some h) s =
    with_worker (λ w. record w { message_handler_cancel = none }) (emit (handler_stopped h) s)

unfoldable pub stop_message_handler : World → World
unfolding stop_handler
stop_message_handler s = stop_handler s.worker.message_handler_cancel s

-- The channel for reconnections has room for one request.
unfoldable pub request_reconnect : UniversalWorker → UniversalWorker
request_reconnect w =
    if w.reconnect_chan
    then record w { reconnecting = false }
    else record w { reconnect_chan = true }

unfoldable pub handle_connection_error : World → World
unfolding drop_conn stop_message_handler request_reconnect with_worker
handle_connection_error s =
    if s.worker.reconnecting
    then s
    else with_worker request_reconnect (
        stop_message_handler
          (drop_conn disconnected (with_worker (λ w. record w { reconnecting = true }) s)))

-- A turn of the loop that waits for the registration: the context or the timer is done, the read
-- fails, the server assigns an id, or it sends another message.
pub data RegistrationTurn : Type 0 where
  context_done timed_out read_failed : RegistrationTurn
  registered : String → RegistrationTurn
  other_message : RegistrationTurn

pub data ConnectError : Type 0 where
  no_token : String → ConnectError
  dial_failed : String → ConnectError
  register_failed : SendError → ConnectError
  registration_cancelled registration_timeout registration_unread no_worker_id : ConnectError

pub data Registration : Type 0 where
  assigned : String → Registration
  unregistered : ConnectError → Registration

-- Without a further turn the loop goes on waiting.
unfoldable pub wait_for_registration : List RegistrationTurn → Exec Registration
wait_for_registration [] = out_of_fuel
wait_for_registration (context_done ∷ ts) = ok (unregistered registration_cancelled)
wait_for_registration (timed_out ∷ ts) = ok (unregistered registration_timeout)
wait_for_registration (read_failed ∷ ts) = ok (unregistered registration_unread)
wait_for_registration (registered id ∷ ts) =
    ok (if str_eq id "" then unregistered no_worker_id else assigned id)
wait_for_registration (other_message ∷ ts) = wait_for_registration ts

-- The answer of the dialer: the number of the new connection, or an error.
pub data Dial : Type 0 where
  dialed : ℕ → Dial
  undialed : String → Dial

-- How an attempt to connect goes: the error of the token, the dial, and the turns of the registration.
pub record ConnectAnswers : Type 0 where
  pub token_error : Option String
  pub dial : Dial
  pub turns : List RegistrationTurn

unfoldable pub after_registration : ℕ → Registration → World → World × Option ConnectError
unfolding with_worker emit
after_registration c (unregistered err) s = (emit (conn_closed c) s, some err)
after_registration c (assigned id) s = (
  with_worker (λ w. record w { worker_id = id; saved_worker_id = id; ws_state = connected }) s,
  none,
)

-- uint32(PingInterval.Seconds()), and 1 for a part of a second.
unfoldable pub ping_seconds : ℕ → ℕ
ping_seconds interval =
    let seconds = interval / 1000000000 % 2 ^ 32 in
    if (seconds == 0) && ltb 0 interval then 1 else seconds

abbrev default_permissions : ParticipantPermission
default_permissions = record no_permission {
  can_subscribe = true;
  can_publish = true;
  can_publish_data = true;
  can_update_metadata = true;
}

abbrev or_permissions : Option ParticipantPermission → ParticipantPermission
or_permissions none = default_permissions
or_permissions (some p) = p

-- The message of sendRegister; workerTypeToProto is the identity.
unfoldable pub register_request : WorkerOptions → RegisterWorkerRequest
unfolding ping_seconds
register_request o = record {
  job_type = o.job_type;
  agent_name = o.agent_name;
  version = o.version;
  ping_interval = ping_seconds o.ping_interval;
  allowed_permissions = or_permissions o.permissions;
  namespace = if str_eq o.namespace "" then none else some o.namespace;
}

-- attempts ≥ 1: `500 * time.Millisecond << (attempts - 1)` on 64 bits.
unfoldable pub shifted_delay : ℕ → ℤ
shifted_delay attempts =
    let bits = 500000000 * 2 ^ (attempts - 1) % 2 ^ 64 in
    if ltb bits (2 ^ 63) then pos bits else negsuc (2 ^ 64 - 1 - bits)

-- The delay before the jitter.
unfoldable pub backoff_delay : ℕ → ℤ
unfolding shifted_delay
backoff_delay attempts =
    if ltb_ℤ (pos 30000000000) (shifted_delay attempts)
    then pos 30000000000
    else shifted_delay attempts

unfoldable pub receive_pong : ℕ → UniversalWorker → UniversalWorker
receive_pong now w = record w {
  health_check = record (w.health_check) {
    last_pong = some now;
    missed_pings = 0;
    is_healthy = true;
  };
}

-- Whether the last pong is older than the timeout; before the first pong it is not.
unfoldable pub pong_overdue : ℕ → UniversalWorker → Bool
pong_overdue now w = elim w.health_check.last_pong [
  | none ↦ false
  | some at ↦ ltb (at + w.opts.ping_timeout) now
]

unfoldable pub note_ping : ℕ → UniversalWorker → UniversalWorker
note_ping now w = record w { health_check = record (w.health_check) { last_ping = some now } }

unfoldable pub note_missed : UniversalWorker → UniversalWorker
note_missed w = record w {
  health_check = record (w.health_check) {
    missed_pings = w.health_check.missed_pings + 1;
    is_healthy = w.health_check.is_healthy && leb (w.health_check.missed_pings + 1) 3;
  };
}

-- A message of the server, with what the handler answers to a request for availability. The handler
-- of unknown messages is not modelled.
pub data ServerMessage : Type 0 where
  register_message pong_message : ServerMessage
  availability_message : Job → Bool → Option JobMetadata → ServerMessage
  assignment_message : JobAssignment → ServerMessage
  termination_message : String → ServerMessage
  unknown_message : ServerMessage

-- How the call ends: it returns (with the error of a send), starts a goroutine for an assignment, or
-- refuses the message.
pub data Handled : Type 0 where
  done : Option SendError → Handled
  spawned : JobAssignment → Handled
  refused_unknown : Handled

-- The case for a request to reconnect, which it has taken from the channel: the worker, the attempts
-- so far and the time to sleep before the request is put back. `jitter` is the product of floating-point
-- numbers that gives this time from the delay, with a factor from 0.8 to 1.2 that the clock gives.
unfoldable pub after_reconnect : (ℤ → ℤ) → ℕ → World × Option ConnectError → World × ℕ × Option ℤ
unfolding backoff_delay
after_reconnect jitter attempts (s, none) = (s, 0, none)
after_reconnect jitter attempts (s, some err) =
    (s, attempts + 1, some (jitter (backoff_delay (attempts + 1))))

module _ (env : Environment) where
  unfoldable pub after_register :
      ℕ → List RegistrationTurn → World × Option SendError → Exec (World × Option ConnectError)
  unfolding wait_for_registration after_registration emit
  after_register c turns (s, some err) = ok (emit (conn_closed c) s, some (register_failed err))
  after_register c turns (s, none) = do
    answer ← wait_for_registration turns
    ok (after_registration c answer s)

  -- The answers of the token and the dial, and the turns of the registration.
  unfoldable pub connect_with :
      Option String → Dial → List RegistrationTurn → World → Exec (World × Option ConnectError)
  unfolding with_worker send_message after_register register_request
  connect_with (some err) dial turns s = ok (s, some (no_token err))
  connect_with none (undialed err) turns s = ok (s, some (dial_failed err))
  connect_with none (dialed c) turns s = after_register c turns (
      send_message env (register (register_request s.worker.opts))
        (with_worker (λ w. record w { conn = some c; ws_state = connecting }) s))

  unfoldable pub connect : ConnectAnswers → World → Exec (World × Option ConnectError)
  unfolding connect_with
  connect a s = connect_with a.token_error a.dial a.turns s

  unfoldable pub report_all : List StatusUpdate → ℕ → World → World
  unfolding update_job_status
  report_all [] now s = s
  report_all (u ∷ us) now s =
      report_all us now (update_job_status env u.job_id u.status u.error now s)

  -- What reconnect does after connect; `handler` is the number of the new message handler.
  unfoldable pub after_connect : ℕ → ℕ → World × Option ConnectError → World × Option ConnectError
  unfolding report_all update_load process_queued_updates with_worker emit
  after_connect handler now (s, some err) =
      (with_worker (λ w. record w { reconnecting = false }) s, some err)
  after_connect handler now (s, none) =
      let started =
        emit (handler_started handler)
          (with_worker (λ w. record w { message_handler_cancel = some handler }) s) in
      let loaded = update_load env now started in
      let (guard, updates) = process_queued_updates loaded.worker.race_protector in
      let reported =
        report_all updates now (with_worker (λ w. record w { race_protector = guard }) loaded) in
      (with_worker (λ w. record w { reconnecting = false }) reported, none)

  unfoldable pub reconnect : ConnectAnswers → ℕ → ℕ → World → Exec (World × Option ConnectError)
  unfolding drop_conn connect after_connect
  reconnect a handler now s = do
    answer ← connect a (drop_conn reconnecting s)
    ok (after_connect handler now answer)

  -- The timestamp of a ping is in seconds.
  unfoldable pub send_ping : ℕ → World → World × Option SendError
  unfolding pong_overdue note_ping note_missed handle_connection_error send_message with_worker
  send_ping now s =
      let noted = with_worker (note_ping now) s in
      if pong_overdue now s.worker
      then (let missed = with_worker note_missed noted in
          if ltb 3 missed.worker.health_check.missed_pings
          then (handle_connection_error missed, none)
          else send_message env (ping (now / 1000000000)) missed)
      else send_message env (ping (now / 1000000000)) noted

  -- The case of maintainConnection for a tick of the timer.
  unfoldable pub ping_tick : ℕ → World → World
  unfolding send_ping handle_connection_error
  ping_tick now s =
      let (s', failed) = send_ping now s in
      if is_some failed then handle_connection_error s' else s'

  unfoldable pub reconnect_turn :
      (ℤ → ℤ) → ConnectAnswers → ℕ → ℕ → ℕ → World → Exec (World × ℕ × Option ℤ)
  unfolding reconnect after_reconnect with_worker
  reconnect_turn jitter a handler now attempts s = do
    answer ← reconnect a handler now (with_worker (λ w. record w { reconnect_chan = false }) s)
    ok (after_reconnect jitter attempts answer)

  unfoldable pub handle_server_message : ServerMessage → ℕ → World → World × Handled
  unfolding handle_availability_request handle_job_termination receive_pong with_worker
  handle_server_message register_message now s = (s, done none)
  handle_server_message pong_message now s = (with_worker (receive_pong now) s, done none)
  handle_server_message (availability_message job accept metadata) now s =
      let (s', err) = handle_availability_request env job accept metadata s in (s', done err)
  handle_server_message (assignment_message a) now s = (s, spawned a)
  handle_server_message (termination_message id) now s =
      (handle_job_termination env id now s, done none)
  handle_server_message unknown_message now s =
      if s.worker.opts.strict_protocol_mode then (s, refused_unknown) else (s, done none)
