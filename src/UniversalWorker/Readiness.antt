-- ===== src/UniversalWorker/Readiness.antt =====
-- Sends over a working connection, and what a reconnection over one leaves of the queue of status updates
-- (pkg/agent/universal_worker_websocket.go).
use livekit_agent_sdk_go.Prelude.{
  ℕ, ◌≡◌, refl, ap, ◌∙◌, String, true, false, Option, none, some, is_some, List, [], ◌∷◌, ◌&&◌,
  arith, ltb, if_cases, length,
}
use livekit_agent_sdk_go.Prelude.Exec.{ok, Ends, ends, Ends-bind, Ends-value}
use livekit_agent_sdk_go.RaceProtector.{JobStatus, StatusUpdate}
use livekit_agent_sdk_go.LoadBatcher.{LoadBatcher, WorkerStatus, Load}
use livekit_agent_sdk_go.NetworkHandler.{
  write_message_with_retry, choose_message, clear_partial_write,
}
use livekit_agent_sdk_go.UniversalWorker.Types.{
  connecting, reconnecting, UniversalWorker, WorkerMessage, Environment, World, update_job,
  register, handler_started, with_worker, emit,
}
use livekit_agent_sdk_go.UniversalWorker.StatusGuard.{
  queue_status_update as guard_update, process_queued_updates,
}
use livekit_agent_sdk_go.UniversalWorker.Sending.{
  SendError, can_send, is_connected, send_message, write_marshalled, send_result, update_status,
  announce, update_load, load_status, current_load, update_job_status,
}
use livekit_agent_sdk_go.UniversalWorker.Connection.{
  ConnectAnswers, ConnectError, RegistrationTurn, Registration, assigned, unregistered, Dial,
  dialed, undialed, after_registration, after_register, register_request, connect, connect_with,
  close_conn, drop_conn, report_all, after_connect, reconnect,
}
use livekit_agent_sdk_go.UniversalWorker.Reconnection.{wait_for_registration-Ends}
use livekit_agent_sdk_go.UniversalWorker.StatusRetries.{
  IsReady, IsWorking, written, first_try, file_failed-none,
}

module _ (env : Environment) (bytes : WorkerMessage → List ℕ)
    (working_env : IsWorking bytes env) where
  -- A message was written, and nothing was filed.
  pub record Sent (msg : WorkerMessage) (s t : World) : Type 0 where
    pub told : t.trace ≡ written bytes msg ∷ s.trace
    pub ready : IsReady t.worker
    pub same_queue : t.worker.status_queue ≡ s.worker.status_queue
    pub same_conn : t.worker.conn ≡ s.worker.conn

  pub send_ready :
      (msg : WorkerMessage) (s : World)
      → IsReady s.worker
      → ((send_message env msg s).1 ≡ none) × Sent msg s (send_message env msg s).0
  unfolding send_message write_marshalled write_message_with_retry choose_message
      clear_partial_write send_result can_send
  send_ready msg s ready =
      let empty : ltb 0 (length s.worker.network_handler.partial_write_buffer) ≡ false =
        ground (arith, ap length ready.no_partial) in
      rw (ready.on, working_env.marshalled msg, working_env.taken s.writes, empty)
        (
          refl,
          record {
            told = refl;
            ready = record { on = ready.on; no_partial = refl };
            same_queue = refl;
            same_conn = refl;
          },
        )

-- A worker that can send, with no partial write in progress and a queue of status updates.
pub record Fit (us : List StatusUpdate) (w : UniversalWorker) : Type 0 where
  pub ready : IsReady w
  pub has_conn : is_some w.conn ≡ true
  pub queue : w.status_queue ≡ us

-- If the call gave no error, the worker is fit.
abbrev FitUnless {ℓ} : {E : Type ℓ} → List StatusUpdate → World × Option E → Type 0
FitUnless us (t, none) = Fit us t.worker
FitUnless us (t, some err) = Unit

module _ (env : Environment) (bytes : WorkerMessage → List ℕ) (working_env : IsWorking bytes env)
    (us : List StatusUpdate) where
  send-Fit :
      (msg : WorkerMessage) (s : World) → Fit us s.worker → Fit us (send_message env msg s).0.worker
  send-Fit msg s fit =
      let sending = (send_ready env bytes working_env msg s fit.ready).1 in
      record {
        ready = sending.ready;
        has_conn = ap is_some sending.same_conn ∙ fit.has_conn;
        queue = sending.same_queue ∙ fit.queue;
      }

  update_status-Fit :
      (status : WorkerStatus) (load : Load) (s : World)
      → Fit us s.worker
      → Fit us (update_status env status load s).0.worker
  unfolding update_status with_worker can_send
  update_status-Fit status load s fit =
      let noted : Fit us (with_worker (λ w. record w { status = status }) s).worker = record {
        ready = record { on = fit.ready.on; no_partial = fit.ready.no_partial };
        has_conn = fit.has_conn;
        queue = fit.queue;
      } in
      if_cases (λ (r : World × Option SendError). Fit us r.0.worker)
        (is_connected s.worker.ws_state) (send-Fit _ _ noted) noted

  announce-Fit :
      (status : WorkerStatus) (load : Load) (now : ℕ) (o : Option LoadBatcher) (s : World)
      → Fit us s.worker
      → Fit us (announce env status load now o s).worker
  unfolding announce with_worker can_send
  announce-Fit status load now none s fit = update_status-Fit status load s fit
  announce-Fit status load now (some b) s fit = record {
    ready = record { on = fit.ready.on; no_partial = fit.ready.no_partial };
    has_conn = fit.has_conn;
    queue = fit.queue;
  }

  update_job_status-Fit :
      (id : String) (status : JobStatus) (message : String) (now : ℕ) (s : World)
      → Fit us s.worker
      → Fit us (update_job_status env id status message now s).worker
  unfolding update_job_status with_worker can_send
  update_job_status-Fit id status message now s fit =
      let msg = update_job id status message in
      let filed =
        file_failed-none (first_try id status message now) (send_message env msg s)
          (send_ready env bytes working_env msg s fit.ready).0 in
      if_cases (λ (t : World). Fit us t.worker)
        (guard_update id status message s.worker.race_protector).1
        (record {
          ready = record { on = fit.ready.on; no_partial = fit.ready.no_partial };
          has_conn = fit.has_conn;
          queue = fit.queue;
        })
        (rw filed (send-Fit msg s fit))

  report_all-Fit :
      (reports : List StatusUpdate) (now : ℕ) (s : World)
      → Fit us s.worker
      → Fit us (report_all env reports now s).worker
  unfolding report_all
  report_all-Fit [] now s fit = fit
  report_all-Fit (u ∷ rest) now s fit =
      report_all-Fit rest now (update_job_status env u.job_id u.status u.error now s)
        (update_job_status-Fit u.job_id u.status u.error now s fit)

  after_registration-Fit :
      (c : ℕ) (answer : Registration) (s : World)
      → Fit us s.worker
      → FitUnless us (after_registration c answer s)
  unfolding after_registration with_worker can_send
  after_registration-Fit c (unregistered err) s fit = tt
  after_registration-Fit c (assigned id) s fit = record {
    ready = record { on = ap (λ b. b && true) fit.has_conn; no_partial = fit.ready.no_partial };
    has_conn = fit.has_conn;
    queue = fit.queue;
  }

  after_register-Fit :
      (c : ℕ) (turns : List RegistrationTurn) (r : World × Option SendError)
      → Fit us r.0.worker
      → Ends (FitUnless us) (after_register env c turns r)
  unfolding after_register
  after_register-Fit c turns (s, some err) fit = ends tt
  after_register-Fit c turns (s, none) fit =
      Ends-bind (wait_for_registration-Ends turns)
        (λ answer _. ends (after_registration-Fit c answer s fit))

  connect_with-Fit :
      (o : Option String) (d : Dial) (turns : List RegistrationTurn) (s : World)
      → s.worker.network_handler.partial_write_buffer ≡ []
      → s.worker.status_queue ≡ us
      → Ends (FitUnless us) (connect_with env o d turns s)
  unfolding connect_with with_worker can_send
  connect_with-Fit (some err) d turns s no_partial queue = ends tt
  connect_with-Fit none (undialed err) turns s no_partial queue = ends tt
  connect_with-Fit none (dialed c) turns s no_partial queue =
      let message = register (register_request s.worker.opts) in
      let dialing = with_worker (λ w. record w { conn = some c; ws_state = connecting }) s in
      after_register-Fit c turns (send_message env message dialing) (
        send-Fit message dialing (record {
          ready = record { on = refl; no_partial = no_partial };
          has_conn = refl;
          queue = queue;
        }))

  after_connect-Fit :
      (handler now : ℕ) (r : World × Option ConnectError)
      → FitUnless us r
      → FitUnless us (after_connect env handler now r)
  unfolding after_connect with_worker emit update_load can_send
  after_connect-Fit handler now (s, some err) fit = tt
  after_connect-Fit handler now (s, none) fit =
      let started =
        emit (handler_started handler)
          (with_worker (λ w. record w { message_handler_cancel = some handler }) s) in
      let loaded =
        announce-Fit (load_status env now started.worker) (current_load env now started.worker) now
          s.worker.load_batcher started
          (record {
            ready = record { on = fit.ready.on; no_partial = fit.ready.no_partial };
            has_conn = fit.has_conn;
            queue = fit.queue;
          }) in
      let guarded = process_queued_updates (update_load env now started).worker.race_protector in
      let reported =
        report_all-Fit (guarded.1) now
          (with_worker (λ w. record w { race_protector = guarded.0 }) (update_load env now started))
          (record {
            ready = record { on = loaded.ready.on; no_partial = loaded.ready.no_partial };
            has_conn = loaded.has_conn;
            queue = loaded.queue;
          }) in
      record {
        ready = record { on = reported.ready.on; no_partial = reported.ready.no_partial };
        has_conn = reported.has_conn;
        queue = reported.queue;
      }

  close_conn-same : (o : Option ℕ) (s : World) → (close_conn o s).worker ≡ s.worker
  close_conn-same none s = refl
  close_conn-same (some c) s = refl

  -- A reconnection that gives no error leaves a worker that can send, and the queue of before.
  pub reconnect-Fit :
      (a : ConnectAnswers) (handler now : ℕ) (s t : World)
      → s.worker.network_handler.partial_write_buffer ≡ []
      → s.worker.status_queue ≡ us
      → reconnect env a handler now s ≡ ok (t, none)
      → Fit us t.worker
  unfolding reconnect connect drop_conn with_worker
  reconnect-Fit a handler now s t no_partial queue run =
      let same = close_conn-same s.worker.conn s in
      Ends-value {P = λ (r : World × Option ConnectError). FitUnless us r}
        (Ends-bind
          (connect_with-Fit a.token_error a.dial a.turns (drop_conn reconnecting s)
            (ap (λ (w : UniversalWorker). w.network_handler.partial_write_buffer) same ∙ no_partial)
            (ap (λ (w : UniversalWorker). w.status_queue) same ∙ queue))
          (λ r fit. ends (after_connect-Fit handler now r fit)))
        run
