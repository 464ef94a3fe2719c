-- ===== src/UniversalWorker/Reconnection.antt =====
-- How an attempt to reconnect ends (pkg/agent/universal_worker_websocket.go).
use livekit_agent_sdk_go.Prelude.{
  ℕ, ◌≡◌, refl, ap, ◌∙◌, String, Bool, true, false, Option, none, some, is_some, not, List, [], ◌∷◌,
  arith,
}
use livekit_agent_sdk_go.Prelude.Exec.{
  Ends, ends, starves, Ends-bind, Ends-map, Returns, returns, Returns-bind, Returns-Ends,
  ok-Returns,
}
use livekit_agent_sdk_go.RaceProtector.{StatusUpdate}
use livekit_agent_sdk_go.UniversalWorker.Types.{
  connecting, reconnecting, UniversalWorker, Environment, World, register, handler_started,
  with_worker, emit,
}
use livekit_agent_sdk_go.UniversalWorker.StatusGuard.{process_queued_updates}
use livekit_agent_sdk_go.UniversalWorker.Sending.{
  SendError, send_message, update_load, update_job_status, is_connected,
}
use livekit_agent_sdk_go.UniversalWorker.Connection.{
  ConnectAnswers, ConnectError, RegistrationTurn, context_done, timed_out, read_failed, registered,
  other_message, Registration, assigned, unregistered, wait_for_registration, after_registration,
  after_register, register_request, connect, connect_with, Dial, close_conn, drop_conn, dialed,
  undialed, report_all, after_connect, reconnect,
}
use livekit_agent_sdk_go.UniversalWorker.Frame.{
  Kept, Kept-refl, Kept-trans, send_message-Kept, update_load-Kept, update_job_status-Kept,
}

-- The jobs of the worker and their counts.
pub record JobsKept (s t : World) : Type 0 where
  pub same_metrics : t.worker.metrics ≡ s.worker.metrics
  pub same_jobs : t.worker.active_jobs ≡ s.worker.active_jobs
  pub same_times : t.worker.job_start_times ≡ s.worker.job_start_times

pub JobsKept-refl : (s : World) → JobsKept s s
JobsKept-refl s = record { same_metrics = refl; same_jobs = refl; same_times = refl }

pub JobsKept-trans : {s t u : World} → JobsKept s t → JobsKept t u → JobsKept s u
JobsKept-trans h k = record {
  same_metrics = k.same_metrics ∙ h.same_metrics;
  same_jobs = k.same_jobs ∙ h.same_jobs;
  same_times = k.same_times ∙ h.same_times;
}

pub Kept-JobsKept : {s t : World} → Kept s t → JobsKept s t
Kept-JobsKept h = record {
  same_metrics = ap (λ (w : UniversalWorker). w.metrics) h.same_core;
  same_jobs = ap (λ (w : UniversalWorker). w.active_jobs) h.same_core;
  same_times = ap (λ (w : UniversalWorker). w.job_start_times) h.same_core;
}

-- The state of the connection agrees with the error that a call answers, and the jobs are kept.
pub record Outcome (s : World) (r : World × Option ConnectError) : Type 0 where
  pub jobs : JobsKept s r.0
  pub agrees : is_connected r.0.worker.ws_state ≡ not (is_some r.1)

after_registration-Outcome :
    (c : ℕ) (answer : Registration) (s : World)
    → s.worker.ws_state ≡ connecting
    → Outcome s (after_registration c answer s)
unfolding after_registration with_worker emit is_connected
after_registration-Outcome c (unregistered err) s h = record {
  jobs = record { same_metrics = refl; same_jobs = refl; same_times = refl };
  agrees = ap is_connected h;
}
after_registration-Outcome c (assigned id) s h = record {
  jobs = record { same_metrics = refl; same_jobs = refl; same_times = refl };
  agrees = refl;
}

pub wait_for_registration-Ends :
    (turns : List RegistrationTurn) → Ends (λ _. Unit {0}) (wait_for_registration turns)
unfolding wait_for_registration
wait_for_registration-Ends [] = starves
wait_for_registration-Ends (context_done ∷ ts) = ends tt
wait_for_registration-Ends (timed_out ∷ ts) = ends tt
wait_for_registration-Ends (read_failed ∷ ts) = ends tt
wait_for_registration-Ends (registered id ∷ ts) = ends tt
wait_for_registration-Ends (other_message ∷ ts) = wait_for_registration-Ends ts

-- Whether some turn ends the wait.
unfoldable pub decides : List RegistrationTurn → Bool
decides [] = false
decides (other_message ∷ ts) = decides ts
decides (context_done ∷ ts) = true
decides (timed_out ∷ ts) = true
decides (read_failed ∷ ts) = true
decides (registered id ∷ ts) = true

wait_for_registration-Returns :
    (turns : List RegistrationTurn)
    → decides turns ≡ true
    → Returns (λ _. Unit {0}) (wait_for_registration turns)
unfolding wait_for_registration decides
wait_for_registration-Returns [] h = absurd (ground arith)
wait_for_registration-Returns (context_done ∷ ts) h = returns tt
wait_for_registration-Returns (timed_out ∷ ts) h = returns tt
wait_for_registration-Returns (read_failed ∷ ts) h = returns tt
wait_for_registration-Returns (registered id ∷ ts) h = returns tt
wait_for_registration-Returns (other_message ∷ ts) h = wait_for_registration-Returns ts h

module _ (env : Environment) where
  after_register-Outcome :
      (c : ℕ) (turns : List RegistrationTurn) (r : World × Option SendError)
      → r.0.worker.ws_state ≡ connecting
      → Ends (Outcome r.0) (after_register env c turns r)
  unfolding after_register emit is_connected
  after_register-Outcome c turns (s, some err) h = ends (record {
    jobs = record { same_metrics = refl; same_jobs = refl; same_times = refl };
    agrees = ap is_connected h;
  })
  after_register-Outcome c turns (s, none) h =
      Ends-bind (wait_for_registration-Ends turns)
        (λ a _. ends (after_registration-Outcome c a s h))

  connect_with-Outcome :
      (o : Option String) (d : Dial) (turns : List RegistrationTurn) (s : World)
      → is_connected s.worker.ws_state ≡ false
      → Ends (Outcome s) (connect_with env o d turns s)
  unfolding connect_with with_worker
  connect_with-Outcome (some err) d turns s off =
      ends (record { jobs = JobsKept-refl s; agrees = off })
  connect_with-Outcome none (undialed err) turns s off =
      ends (record { jobs = JobsKept-refl s; agrees = off })
  connect_with-Outcome none (dialed c) turns s off =
      let dialing = with_worker (λ w. record w { conn = some c; ws_state = connecting }) s in
      let begun : JobsKept s dialing = record {
        same_metrics = refl;
        same_jobs = refl;
        same_times = refl;
      } in
      let message = register (register_request s.worker.opts) in
      let sending = send_message-Kept env message dialing in
      Ends-map
        (after_register-Outcome c turns (send_message env message dialing)
          (ap (λ (w : UniversalWorker). w.ws_state) sending.same_core))
        (λ r out. record {
          jobs = JobsKept-trans begun (JobsKept-trans (Kept-JobsKept sending) out.jobs);
          agrees = out.agrees;
        })

  report_all-Kept :
      (us : List StatusUpdate) (now : ℕ) (s : World) → Kept s (report_all env us now s)
  unfolding report_all
  report_all-Kept [] now s = Kept-refl s
  report_all-Kept (u ∷ us) now s =
      Kept-trans (update_job_status-Kept env u.job_id u.status u.error now s)
        (report_all-Kept us now (update_job_status env u.job_id u.status u.error now s))

  after_connect-Outcome :
      (handler now : ℕ) (r : World × Option ConnectError)
      → is_connected r.0.worker.ws_state ≡ not (is_some r.1)
      → Outcome r.0 (after_connect env handler now r)
        × ((after_connect env handler now r).0.worker.reconnecting ≡ false)
        × ((after_connect env handler now r).1 ≡ r.1)
  unfolding after_connect with_worker emit
  after_connect-Outcome handler now (s, some err) agrees = (
    record {
      jobs = record { same_metrics = refl; same_jobs = refl; same_times = refl };
      agrees = agrees;
    },
    refl,
    refl,
  )
  after_connect-Outcome handler now (s, none) agrees =
      let started =
        emit (handler_started handler)
          (with_worker (λ w. record w { message_handler_cancel = some handler }) s) in
      let loading = update_load-Kept env now started in
      let loaded = update_load env now started in
      let (guard, updates) = process_queued_updates loaded.worker.race_protector in
      let cleared = with_worker (λ w. record w { race_protector = guard }) loaded in
      let reporting = report_all-Kept updates now cleared in
      let both : Kept started (report_all env updates now cleared) = Kept-trans loading (
        Kept-trans (record { same_core = refl; same_context = refl; same_stored = refl })
          reporting) in
      (
        record {
          jobs = record {
            same_metrics = ap (λ (w : UniversalWorker). w.metrics) both.same_core;
            same_jobs = ap (λ (w : UniversalWorker). w.active_jobs) both.same_core;
            same_times = ap (λ (w : UniversalWorker). w.job_start_times) both.same_core;
          };
          agrees = ap (λ (w : UniversalWorker). is_connected w.ws_state) both.same_core ∙ agrees;
        },
        refl,
        refl,
      )

  close_conn-worker : (o : Option ℕ) (s : World) → (close_conn o s).worker ≡ s.worker
  close_conn-worker none s = refl
  close_conn-worker (some c) s = refl

  -- What reconnect leaves, by the error that it answers.
  pub record Reconnected (s : World) (r : World × Option ConnectError) : Type 0 where
    pub outcome : Outcome s r
    pub free : r.0.worker.reconnecting ≡ false

  pub reconnect-Ends :
      (a : ConnectAnswers) (handler now : ℕ) (s : World)
      → Ends (Reconnected s) (reconnect env a handler now s)
  unfolding reconnect connect drop_conn with_worker is_connected
  reconnect-Ends a handler now s =
      let dropped = drop_conn reconnecting s in
      let closed = close_conn-worker s.worker.conn s in
      let begun : JobsKept s dropped = record {
        same_metrics = ap (λ (w : UniversalWorker). w.metrics) closed;
        same_jobs = ap (λ (w : UniversalWorker). w.active_jobs) closed;
        same_times = ap (λ (w : UniversalWorker). w.job_start_times) closed;
      } in
      Ends-bind (connect_with-Outcome a.token_error a.dial a.turns dropped refl) (λ r out.
        let (last, free, same) = after_connect-Outcome handler now r out.agrees in
        ends (record {
          outcome = record {
            jobs = JobsKept-trans begun (JobsKept-trans out.jobs last.jobs);
            agrees = last.agrees;
          };
          free = free;
        }))

  after_register-Returns :
      (c : ℕ) (turns : List RegistrationTurn) (r : World × Option SendError)
      → decides turns ≡ true
      → Returns (λ _. Unit {0}) (after_register env c turns r)
  unfolding after_register
  after_register-Returns c turns (s, some err) h = returns tt
  after_register-Returns c turns (s, none) h =
      Returns-bind (wait_for_registration-Returns turns h) (λ _ _. returns tt)

  connect_with-Returns :
      (o : Option String) (d : Dial) (turns : List RegistrationTurn) (s : World)
      → decides turns ≡ true
      → Returns (λ _. Unit {0}) (connect_with env o d turns s)
  unfolding connect_with
  connect_with-Returns (some err) d turns s h = returns tt
  connect_with-Returns none (undialed err) turns s h = returns tt
  connect_with-Returns none (dialed c) turns s h = after_register-Returns c turns _ h

  -- If the wait for the registration comes to a turn that ends it, reconnect returns: the worker's
  -- state is then connected exactly if it returned no error, the flag of a reconnection in progress
  -- is cleared, so that a later error starts a new one, and the active jobs, their start times and
  -- the counts are those of before.
  pub reconnect_settles :
      (a : ConnectAnswers) (handler now : ℕ) (s : World)
      → decides a.turns ≡ true
      → Returns (Reconnected s) (reconnect env a handler now s)
  unfolding reconnect connect
  reconnect_settles a handler now s h =
      Returns-Ends
        (Returns-bind (connect_with-Returns a.token_error a.dial a.turns _ h)
          (λ r _. ok-Returns (after_connect env handler now r)))
        (reconnect-Ends a handler now s)
