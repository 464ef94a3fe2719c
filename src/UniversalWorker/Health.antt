-- ===== src/UniversalWorker/Health.antt =====
-- Missed pongs and the connection they end (pkg/agent/universal_worker_websocket.go).
use livekit_agent_sdk_go.Prelude.{
  ℕ, ◌+◌, ◌/◌, ◌≤◌, ◌≡◌, refl, ap, ◌∙◌, Bool-cases, true, false, ◌&&◌, Option, none, some, is_some,
  List, [], ◌∷◌, arith, ltb, leb, if◌then◌else◌, if_cases, length, All, inl, inr,
}
use livekit_agent_sdk_go.UniversalWorker.Types.{
  UniversalWorker, disconnected, HealthCheck, WorkerOptions, ping, Environment, World, with_worker,
  emit,
}
use livekit_agent_sdk_go.UniversalWorker.Sending.{SendError, send_message}
use livekit_agent_sdk_go.UniversalWorker.Connection.{
  close_conn, drop_conn, stop_handler, stop_message_handler, request_reconnect,
  handle_connection_error, send_ping, ping_tick, note_ping, note_missed, pong_overdue,
}
use livekit_agent_sdk_go.UniversalWorker.Frame.{send_message-Kept}

-- The health of the worker and its options are those given.
record HealthIs (h : HealthCheck) (o : WorkerOptions) (w : UniversalWorker) : Type 0 where
  health : w.health_check ≡ h
  options : w.opts ≡ o

close_conn-worker : (o : Option ℕ) (s : World) → (close_conn o s).worker ≡ s.worker
close_conn-worker none s = refl
close_conn-worker (some c) s = refl

-- What becomes of the connection when a connection error is handled.
record IsDropped (w : UniversalWorker) : Type 0 where
  no_conn : w.conn ≡ none
  state : w.ws_state ≡ disconnected

stop_handler-keeps :
    (o : Option ℕ) (h : HealthCheck) (opts : WorkerOptions) (s : World)
    → HealthIs h opts s.worker
    → IsDropped s.worker
    → HealthIs h opts (stop_handler o s).worker × IsDropped (stop_handler o s).worker
unfolding stop_handler with_worker emit
stop_handler-keeps none h opts s k d = (k, d)
stop_handler-keeps (some c) h opts s k d = (
  record { health = k.health; options = k.options },
  record { no_conn = d.no_conn; state = d.state },
)

request-keeps :
    (h : HealthCheck) (opts : WorkerOptions) (w : UniversalWorker)
    → HealthIs h opts w
    → IsDropped w
    → HealthIs h opts (request_reconnect w)
      × IsDropped (request_reconnect w)
      × ((request_reconnect w).reconnect_chan ≡ true)
unfolding request_reconnect
request-keeps h opts w k d = elim (Bool-cases w.reconnect_chan) [
  | inl full ↦ rw full (
    record { health = k.health; options = k.options },
    record { no_conn = d.no_conn; state = d.state },
    refl,
  )
  | inr room ↦ rw room (
    record { health = k.health; options = k.options },
    record { no_conn = d.no_conn; state = d.state },
    refl,
  )
]

-- The handling of a connection error that starts a reconnection.
connection_error_effects :
    (s : World)
    → HealthIs s.worker.health_check s.worker.opts
        (with_worker request_reconnect (
          stop_message_handler (
            drop_conn disconnected (with_worker (λ w. record w { reconnecting = true }) s)))).worker
      × IsDropped
          (with_worker request_reconnect (
            stop_message_handler (
              drop_conn disconnected
                (with_worker (λ w. record w { reconnecting = true }) s)))).worker
      × ((with_worker request_reconnect (
            stop_message_handler (
              drop_conn disconnected
                (with_worker (λ w. record w { reconnecting = true }) s)))).worker.reconnect_chan
          ≡ true)
unfolding drop_conn stop_message_handler with_worker
connection_error_effects s =
    let marked = with_worker (λ w. record w { reconnecting = true }) s in
    let closed = close_conn-worker s.worker.conn marked in
    let dropped = drop_conn disconnected marked in
    let (k, d) =
      stop_handler-keeps dropped.worker.message_handler_cancel s.worker.health_check s.worker.opts
        dropped
        (record {
          health = ap (λ (w : UniversalWorker). w.health_check) closed;
          options = ap (λ (w : UniversalWorker). w.opts) closed;
        })
        (record { no_conn = refl; state = refl }) in
    request-keeps s.worker.health_check s.worker.opts
      (stop_handler dropped.worker.message_handler_cancel dropped).worker k d

connection_error-keeps :
    (s : World) → HealthIs s.worker.health_check s.worker.opts (handle_connection_error s).worker
unfolding handle_connection_error
connection_error-keeps s =
    if_cases (λ (t : World). HealthIs s.worker.health_check s.worker.opts t.worker)
      s.worker.reconnecting (record { health = refl; options = refl })
      (connection_error_effects s).0

abbrev dropped_world : World → World
dropped_world s = with_worker request_reconnect (
    stop_message_handler
      (drop_conn disconnected (with_worker (λ w. record w { reconnecting = true }) s)))

connection_error_starts :
    (s : World) → s.worker.reconnecting ≡ false → handle_connection_error s ≡ dropped_world s
unfolding handle_connection_error
connection_error_starts s idle = ap (λ b. if b then s else dropped_world s) idle

-- The health after an overdue pong is noticed at `now`.
abbrev missed_once : ℕ → HealthCheck → HealthCheck
missed_once now h = record {
  last_ping = some now;
  last_pong = h.last_pong;
  missed_pings = h.missed_pings + 1;
  is_healthy = h.is_healthy && leb (h.missed_pings + 1) 3;
}

overdue-later :
    (now later : ℕ) (w v : UniversalWorker)
    → HealthIs (missed_once now w.health_check) w.opts v
    → pong_overdue later v ≡ pong_overdue later w
unfolding pong_overdue
overdue-later now later w v k = rw (k.health, k.options) refl

-- The pong is overdue at each of the times.
abbrev pub AllOverdue : List ℕ → UniversalWorker → Type 0
AllOverdue times w = All (λ now. pong_overdue now w ≡ true) times

AllOverdue-later :
    (now : ℕ) (times : List ℕ) (w v : UniversalWorker)
    → HealthIs (missed_once now w.health_check) w.opts v
    → AllOverdue times w
    → AllOverdue times v
AllOverdue-later now [] w v k h = tt
AllOverdue-later now (t ∷ ts) w v k h =
    (overdue-later now t w v k ∙ h.0, AllOverdue-later now ts w v k h.1)

module _ (env : Environment) where
  unfoldable pub ping_ticks : List ℕ → World → World
  unfolding ping_tick
  ping_ticks [] s = s
  ping_ticks (now ∷ later) s = ping_ticks later (ping_tick env now s)

  fourth_ping :
      (now : ℕ) (s : World)
      → pong_overdue now s.worker ≡ true
      → 3 ≤ s.worker.health_check.missed_pings
      → send_ping env now s
        ≡ (handle_connection_error (with_worker note_missed (with_worker (note_ping now) s)), none)
  unfolding send_ping note_ping note_missed with_worker
  fourth_ping now s late third =
      let many : ltb 3 (s.worker.health_check.missed_pings + 1) ≡ true = ground arith in
      rw (late, many) refl

  sending-keeps :
      (now : ℕ) (s : World)
      → HealthIs s.worker.health_check s.worker.opts (send_message env (ping now) s).0.worker
  sending-keeps now s =
      let kept = (send_message-Kept env (ping now) s).same_core in
      record {
        health = ap (λ (w : UniversalWorker). w.health_check) kept;
        options = ap (λ (w : UniversalWorker). w.opts) kept;
      }

  overdue_ping :
      (now : ℕ) (s : World)
      → pong_overdue now s.worker ≡ true
      → HealthIs
          (missed_once now s.worker.health_check)
          s.worker.opts
          (send_ping env now s).0.worker
  unfolding send_ping note_ping note_missed with_worker
  overdue_ping now s late =
      let missed = with_worker note_missed (with_worker (note_ping now) s) in
      rw late (
        if_cases
          (λ (r : World × Option SendError).
            HealthIs (missed_once now s.worker.health_check) s.worker.opts r.0.worker)
          (ltb 3 (s.worker.health_check.missed_pings + 1)) (connection_error-keeps missed)
          (sending-keeps (now / 1000000000) missed))

  overdue_tick :
      (now : ℕ) (s : World)
      → pong_overdue now s.worker ≡ true
      → HealthIs (missed_once now s.worker.health_check) s.worker.opts (ping_tick env now s).worker
  unfolding ping_tick
  overdue_tick now s late =
      let pinged = overdue_ping now s late in
      let after = connection_error-keeps (send_ping env now s).0 in
      if_cases
        (λ (t : World). HealthIs (missed_once now s.worker.health_check) s.worker.opts t.worker)
        (is_some (send_ping env now s).1)
        (record { health = after.health ∙ pinged.health; options = after.options ∙ pinged.options })
        pinged

  ticks-counted :
      (times : List ℕ) (missed : ℕ) (s : World)
      → AllOverdue times s.worker
      → s.worker.health_check.missed_pings ≡ missed
      → s.worker.health_check.is_healthy ≡ leb missed 3
      → ((ping_ticks times s).worker.health_check.missed_pings ≡ missed + length times)
        × ((ping_ticks times s).worker.health_check.is_healthy ≡ leb (missed + length times) 3)
  unfolding ping_ticks
  ticks-counted [] missed s late count healthy =
      let same : missed ≡ missed + 0 = omega arith in
      (count ∙ same, healthy ∙ ap (λ n. leb n 3) same)
  ticks-counted (now ∷ times) missed s late count healthy =
      let t = ping_tick env now s in
      let k = overdue_tick now s late.0 in
      let moved : (missed + 1) + length times ≡ missed + length (now ∷ times) = omega arith in
      let next : s.worker.health_check.missed_pings + 1 ≡ missed + 1 = omega (arith, count) in
      let fit : (leb missed 3 && leb (missed + 1) 3) ≡ leb (missed + 1) 3 = ground arith in
      let (counted, well) =
        ticks-counted times (missed + 1) t (AllOverdue-later now times s.worker t.worker k late.1)
          (ap (λ (h : HealthCheck). h.missed_pings) k.health ∙ next)
          (ap (λ (h : HealthCheck). h.is_healthy) k.health ∙ rw (healthy, next) fit) in
      (counted ∙ moved, well ∙ ap (λ n. leb n 3) moved)

  -- After any number of pings at times when the last pong is overdue, however their sends end, the
  -- worker has counted each of them, and it takes itself for healthy exactly if they are at most three.
  pub overdue_pings_counted :
      (times : List ℕ) (s : World)
      → AllOverdue times s.worker
      → s.worker.health_check.missed_pings ≡ 0
      → s.worker.health_check.is_healthy ≡ true
      → ((ping_ticks times s).worker.health_check.missed_pings ≡ length times)
        × ((ping_ticks times s).worker.health_check.is_healthy ≡ leb (length times) 3)
  overdue_pings_counted times s late count healthy =
      let (counted, well) = ticks-counted times 0 s late count healthy in
      let same : 0 + length times ≡ length times = omega arith in
      (counted ∙ same, well ∙ ap (λ n. leb n 3) same)

  -- A ping whose pong is overdue for the fourth time or more drops the connection and leaves a request
  -- to reconnect, unless a reconnection is in progress.
  pub fourth_miss_reconnects :
      (now : ℕ) (s : World)
      → pong_overdue now s.worker ≡ true
      → 3 ≤ s.worker.health_check.missed_pings
      → s.worker.reconnecting ≡ false
      → ((ping_tick env now s).worker.conn ≡ none)
        × ((ping_tick env now s).worker.ws_state ≡ disconnected)
        × ((ping_tick env now s).worker.reconnect_chan ≡ true)
  unfolding ping_tick
  fourth_miss_reconnects now s late third idle = rw (fourth_ping now s late third) (
      let (k, d, asked) =
        connection_error_effects (with_worker note_missed (with_worker (note_ping now) s)) in
      rw (connection_error_starts (with_worker note_missed (with_worker (note_ping now) s)) idle)
        (d.no_conn, d.state, asked))
