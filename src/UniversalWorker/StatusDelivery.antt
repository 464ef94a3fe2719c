-- ===== src/UniversalWorker/StatusDelivery.antt =====
-- Status updates of jobs that are sent once the worker is connected again (pkg/agent/universal_helpers.go,
-- universal_worker_websocket.go).
use livekit_agent_sdk_go.Prelude.{
  ℕ, ◌+◌, ◌≤◌, ◌≡◌, refl, sym, ap, ◌∙◌, String, Bool-cases, true, false, none, List, [], ◌∷◌, ◌++◌,
  arith, ltb, leb, if◌then◌else◌, inl, inr,
}
use livekit_agent_sdk_go.Prelude.Exec.{ok}
use livekit_agent_sdk_go.RaceProtector.{JobStatus, StatusUpdate}
use livekit_agent_sdk_go.NetworkHandler.{NetworkHandler}
use livekit_agent_sdk_go.UniversalWorker.Types.{
  WorkerMessage, update_job, Environment, World, with_worker,
}
use livekit_agent_sdk_go.UniversalWorker.Sending.{
  can_send, send_message, queue_status_update, update_job_status, retry_update, retry_updates,
  process_status_queue,
}
use livekit_agent_sdk_go.UniversalWorker.Connection.{ConnectAnswers, reconnect}
use livekit_agent_sdk_go.UniversalWorker.StatusRetries.{
  left_after, left_after-early, left_after-late, tried, first_try, IsReady, IsWorking, written,
  file_failed-none, queue-Waiting, report_offline, rounds, rounds-Waiting,
}
use livekit_agent_sdk_go.UniversalWorker.Readiness.{Sent, send_ready, reconnect-Fit}

module _ (env : Environment) (bytes : WorkerMessage → List ℕ)
    (working_env : IsWorking bytes env) where
  retry_ready :
      (u : StatusUpdate) (s : World)
      → IsReady s.worker
      → leb 3 u.retry_count ≡ false
      → Sent env bytes working_env (update_job u.job_id u.status u.error) s (retry_update env u s)
  unfolding retry_update
  retry_ready u s ready left =
      let (no_error, sending) =
        send_ready env bytes working_env (update_job u.job_id u.status u.error) s ready in
      let filed =
        file_failed-none (record u { retry_count = u.retry_count + 1 })
          (send_message env (update_job u.job_id u.status u.error) s) no_error in
      rw (left, filed) sending

  -- A round with one update that may still be tried.
  round_ready :
      (u : StatusUpdate) (s : World)
      → IsReady s.worker
      → s.worker.status_queue ≡ u ∷ []
      → leb 3 u.retry_count ≡ false
      → ((process_status_queue env s).worker.status_queue ≡ [])
        × ((process_status_queue env s).trace
            ≡ written bytes (update_job u.job_id u.status u.error) ∷ s.trace)
  unfolding process_status_queue retry_updates with_worker can_send
  round_ready u s ready one left =
      let emptied = with_worker (λ w. record w { status_queue = [] }) s in
      let sending =
        retry_ready u emptied (record { on = ready.on; no_partial = ready.no_partial }) left in
      rw one (sending.same_queue, sending.told)

  -- A round with an empty queue.
  round_idle :
      (s : World)
      → s.worker.status_queue ≡ []
      → ((process_status_queue env s).worker.status_queue ≡ [])
        × ((process_status_queue env s).trace ≡ s.trace)
  unfolding process_status_queue retry_updates with_worker
  round_idle s none_left = rw none_left (refl, refl)

  -- A round with one update that was tried three times.
  round_spent :
      (u : StatusUpdate) (s : World)
      → s.worker.status_queue ≡ u ∷ []
      → leb 3 u.retry_count ≡ true
      → ((process_status_queue env s).worker.status_queue ≡ [])
        × ((process_status_queue env s).trace ≡ s.trace)
  unfolding process_status_queue retry_updates retry_update with_worker
  round_spent u s one spent = rw (one, spent) (refl, refl)

  -- The round after `offline` others, for an update that was not tried before them.
  last_round :
      (u : StatusUpdate) (s t : World) (offline : ℕ)
      → u.retry_count ≡ 0
      → t.worker.status_queue ≡ left_after offline (u ∷ [])
      → t.trace ≡ s.trace
      → IsReady t.worker
      → ((process_status_queue env t).worker.status_queue ≡ [])
        × ((process_status_queue env t).trace ≡ (
            if ltb offline 3
            then written bytes (update_job u.job_id u.status u.error) ∷ s.trace
            else s.trace))
  last_round u s t offline fresh queue silent ready = elim (Bool-cases (ltb offline 3)) [
    | inl soon ↦
        let few : u.retry_count + offline ≤ 3 = ground arith in
        let left : leb 3 (u.retry_count + offline) ≡ false = ground arith in
        let done =
          round_ready (tried u (u.retry_count + offline)) t ready
            (queue ∙ left_after-early offline u few) left in
        rw soon (
          done.0,
          done.1 ∙ ap (λ l. written bytes (update_job u.job_id u.status u.error) ∷ l) silent,
        )
    | inr late ↦ elim (Bool-cases (leb offline 3)) [
      | inl third ↦
          let few : u.retry_count + offline ≤ 3 = ground arith in
          let spent : leb 3 (u.retry_count + offline) ≡ true = ground arith in
          let done =
            round_spent (tried u (u.retry_count + offline)) t
              (queue ∙ left_after-early offline u few) spent in
          rw late (done.0, done.1 ∙ silent)
      | inr gone ↦
          let done =
            round_idle t (queue ∙ left_after-late offline u (omega arith) (ground arith)) in
          rw late (done.0, done.1 ∙ silent)
    ]
  ]

  -- An update that is made while nothing can be sent, none is queued, the guard is off and no partial
  -- write is pending goes through `offline` rounds of retries, in which nothing is written. If reconnect
  -- then returns without an error, over a connection that takes every message, and every message can be
  -- marshalled, the first round after it writes exactly the update, once, if there were fewer than three
  -- rounds before, and else nothing; the queue is empty afterwards in either case.
  pub report_recovers :
      (id : String) (status : JobStatus) (message : String) (now offline : ℕ) (a : ConnectAnswers)
      (handler later : ℕ) (s t : World)
      → can_send s.worker ≡ false
      → s.worker.race_protector.is_reconnecting ≡ false
      → s.worker.status_queue ≡ []
      → s.worker.network_handler.partial_write_buffer ≡ []
      → reconnect env a handler later
          (rounds env offline (update_job_status env id status message now s))
        ≡ ok (t, none)
      → ((rounds env offline (update_job_status env id status message now s)).trace ≡ s.trace)
        × ((process_status_queue env t).worker.status_queue ≡ [])
        × ((process_status_queue env t).trace ≡ (
            if ltb offline 3
            then written bytes (update_job id status message) ∷ t.trace
            else t.trace))
  report_recovers id status message now offline a handler later s t off unguarded idle no_partial
        run =
      let u = first_try id status message now in
      let filed = queue-Waiting env u s off in
      let reported = report_offline env id status message now s off unguarded in
      let waiting = rounds-Waiting env offline (u ∷ []) s (queue_status_update u s) (record {
        queue = filed.queue ∙ ap (λ q. q ++ u ∷ []) idle;
        silent = filed.silent;
        same_handler = filed.same_handler;
        off = filed.off;
      }) in
      let fit =
        reconnect-Fit env bytes working_env (left_after offline (u ∷ [])) a handler later
          (rounds env offline (queue_status_update u s)) t
          (ap (λ (n : NetworkHandler). n.partial_write_buffer) waiting.same_handler ∙ no_partial)
          waiting.queue
          (ap (λ w. reconnect env a handler later (rounds env offline w)) (sym reported) ∙ run) in
      let (emptied, told) = last_round u t t offline refl fit.queue refl fit.ready in
      (ap (λ w. (rounds env offline w).trace) reported ∙ waiting.silent, emptied, told)
