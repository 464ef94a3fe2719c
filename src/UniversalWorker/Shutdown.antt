-- ===== src/UniversalWorker/Shutdown.antt =====
-- Stop (pkg/agent/universal_worker.go). The services that it stops have no effect on the worker but for
-- the batcher, which may send a last update.
use livekit_agent_sdk_go.Prelude.{
  ℕ, ◌+◌, ◌≡◌, refl, sym, ap, ◌∙◌, String, true, false, Option, none, some, is_some, [], ◌∷◌, arith,
  eq_iff, if◌then◌else◌, if_cases,
}
use livekit_agent_sdk_go.Prelude.Dict.{Dict, lookup, Unique}
use livekit_agent_sdk_go.LoadBatcher.{LoadBatcher, WorkerStatus, Load, stop as stop_batcher}
use livekit_agent_sdk_go.UniversalWorker.Types.{
  JobContext, UniversalWorker, job_terminated, Environment, World, with_worker, emit,
}
use livekit_agent_sdk_go.UniversalWorker.Sending.{update_status}
use livekit_agent_sdk_go.UniversalWorker.Jobs.{cancel_context, stop_jobs}
use livekit_agent_sdk_go.UniversalWorker.Connection.{close_conn, stop_handler, stop_message_handler}
use livekit_agent_sdk_go.UniversalWorker.Frame.{update_status-Kept}
use livekit_agent_sdk_go.UniversalWorker.Notices.{
  notices, Silent, cancel_context-Silent, update_status-Silent,
}

close_conn-worker : (o : Option ℕ) (s : World) → (close_conn o s).worker ≡ s.worker
close_conn-worker none s = refl
close_conn-worker (some c) s = refl

stop_handler-stopped :
    (o : Option ℕ) (s : World) → (stop_handler o s).worker.stopped ≡ s.worker.stopped
unfolding stop_handler with_worker emit
stop_handler-stopped none s = refl
stop_handler-stopped (some h) s = refl

cancelled-worker : (ctx : JobContext) (s : World) → (cancel_context ctx s).worker ≡ s.worker
unfolding cancel_context emit
cancelled-worker ctx s = if_cases (λ (t : World). t.worker ≡ s.worker) ctx.cancellable refl refl

stop_jobs-worker : (jobs : Dict JobContext) (s : World) → (stop_jobs jobs s).worker ≡ s.worker
unfolding stop_jobs emit
stop_jobs-worker [] s = refl
stop_jobs-worker ((j, ctx) ∷ rest) s =
    stop_jobs-worker rest (emit (job_terminated j) (cancel_context ctx s)) ∙ cancelled-worker ctx s

module _ (env : Environment) where
  unfoldable pub send_last : Option (WorkerStatus × Load) → World → World
  unfolding update_status
  send_last none s = s
  send_last (some (status, load)) s = (update_status env status load s).0

  unfoldable pub stop_batching : Option LoadBatcher → World → World
  unfolding send_last stop_batcher with_worker
  stop_batching none s = s
  stop_batching (some b) s =
      send_last (stop_batcher b).1
        (with_worker (λ w. record w { load_batcher = some (stop_batcher b).0 }) s)

  -- What Stop does the first time: the connection is closed, but stays set.
  unfoldable pub stop_once : World → World
  unfolding stop_message_handler stop_jobs stop_batching with_worker
  stop_once s =
      let marked = stop_message_handler (with_worker (λ w. record w { stopped = true }) s) in
      let ended = close_conn s.worker.conn (stop_jobs s.worker.active_jobs marked) in
      stop_batching s.worker.load_batcher ended

  unfoldable pub stop : World → World
  unfolding stop_once
  stop s = if s.worker.stopped then s else stop_once s

  module _ (id : String) where
    close_conn-Silent : (o : Option ℕ) (s : World) → Silent env id s (close_conn o s)
    unfolding notices
    close_conn-Silent none s = refl
    close_conn-Silent (some c) s = refl

    stop_handler-Silent : (o : Option ℕ) (s : World) → Silent env id s (stop_handler o s)
    unfolding stop_handler with_worker emit notices
    stop_handler-Silent none s = refl
    stop_handler-Silent (some h) s = refl

    send_last-Silent :
        (o : Option (WorkerStatus × Load)) (s : World) → Silent env id s (send_last o s)
    unfolding send_last
    send_last-Silent none s = refl
    send_last-Silent (some (status, load)) s = update_status-Silent env id status load s

    stop_batching-Silent :
        (o : Option LoadBatcher) (s : World) → Silent env id s (stop_batching o s)
    unfolding stop_batching with_worker
    stop_batching-Silent none s = refl
    stop_batching-Silent (some b) s = send_last-Silent (stop_batcher b).1 _

    stop_jobs-notices :
        (jobs : Dict JobContext) (s : World)
        → Unique jobs
        → notices id (stop_jobs jobs s).trace
          ≡ (if is_some (lookup id jobs) then notices id s.trace + 1 else notices id s.trace)
    unfolding stop_jobs emit notices lookup
    stop_jobs-notices [] s u = refl
    stop_jobs-notices ((j, ctx) ∷ rest) s u =
        let next = emit (job_terminated j) (cancel_context ctx s) in
        let told = stop_jobs-notices rest next u.1 in
        ground (arith, told, cancel_context-Silent env id ctx s, eq_iff j id, u.0)

  stop_once-notices :
      (id : String) (s : World)
      → Unique s.worker.active_jobs
      → notices id (stop_once s).trace ≡ (
          if is_some (lookup id s.worker.active_jobs)
          then notices id s.trace + 1
          else notices id s.trace)
  unfolding stop_once stop_message_handler with_worker
  stop_once-notices id s unique =
      let marked = with_worker (λ w. record w { stopped = true }) s in
      let handled = stop_handler s.worker.message_handler_cancel marked in
      let ended = stop_jobs s.worker.active_jobs handled in
      stop_batching-Silent id s.worker.load_batcher (close_conn s.worker.conn ended)
      ∙ close_conn-Silent id s.worker.conn ended
      ∙ stop_jobs-notices id s.worker.active_jobs handled unique
      ∙ ap (λ n. if is_some (lookup id s.worker.active_jobs) then n + 1 else n)
          (stop_handler-Silent id s.worker.message_handler_cancel marked)

  send_last-stopped :
      (o : Option (WorkerStatus × Load)) (s : World)
      → s.worker.stopped ≡ true
      → (send_last o s).worker.stopped ≡ true
  unfolding send_last
  send_last-stopped none s h = h
  send_last-stopped (some (status, load)) s h =
      ap (λ (w : UniversalWorker). w.stopped) (update_status-Kept env status load s).same_core ∙ h

  stop_batching-stopped :
      (o : Option LoadBatcher) (s : World)
      → s.worker.stopped ≡ true
      → (stop_batching o s).worker.stopped ≡ true
  unfolding stop_batching with_worker
  stop_batching-stopped none s h = h
  stop_batching-stopped (some b) s h = send_last-stopped (stop_batcher b).1 _ h

  stop_once-stopped : (s : World) → (stop_once s).worker.stopped ≡ true
  unfolding stop_once stop_message_handler with_worker
  stop_once-stopped s =
      let marked = with_worker (λ w. record w { stopped = true }) s in
      let handled = stop_handler s.worker.message_handler_cancel marked in
      stop_batching-stopped s.worker.load_batcher _ (
        ap (λ (w : UniversalWorker). w.stopped)
          (close_conn-worker s.worker.conn (stop_jobs s.worker.active_jobs handled)
            ∙ stop_jobs-worker s.worker.active_jobs handled)
        ∙ stop_handler-stopped s.worker.message_handler_cancel marked)

  -- The first Stop tells the handler exactly once of each active job that it is terminated, and of no
  -- other job; a second Stop does nothing.
  pub stop_tells_each_once :
      (id : String) (s : World)
      → s.worker.stopped ≡ false
      → Unique s.worker.active_jobs
      → (notices id (stop s).trace ≡ (
          if is_some (lookup id s.worker.active_jobs)
          then notices id s.trace + 1
          else notices id s.trace))
        × (stop (stop s) ≡ stop s)
  unfolding stop
  stop_tells_each_once id s running unique =
      let first : stop s ≡ stop_once s = ap (λ b. if b then s else stop_once s) running in
      (
        ap (λ (t : World). notices id t.trace) first ∙ stop_once-notices id s unique,
        ap (λ t. stop t) first
            ∙ ap (λ b. if b then stop_once s else stop_once (stop_once s)) (stop_once-stopped s)
            ∙ sym first,
      )
