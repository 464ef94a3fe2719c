-- ===== src/UniversalWorker/StatusRetries.antt =====
-- Rounds of retries of status updates that find the worker not connected (pkg/agent/universal_helpers.go,
-- universal_worker_websocket.go).
use livekit_agent_sdk_go.Prelude.{
  ℕ, suc, zero, ◌+◌, ◌≤◌, ◌≡◌, refl, sym, ap, ◌∙◌, String, Bool-cases, true, false, Option, none,
  some, List, [], ◌∷◌, ◌++◌, arith, leb, if◌then◌else◌, inl, inr,
}
use livekit_agent_sdk_go.RaceProtector.{JobStatus, StatusUpdate}
use livekit_agent_sdk_go.NetworkHandler.{sent}
use livekit_agent_sdk_go.NetworkHandler.Writes.{working}
use livekit_agent_sdk_go.UniversalWorker.Types.{
  UniversalWorker, WorkerMessage, Event, wrote, update_job, Environment, World, with_worker,
}
use livekit_agent_sdk_go.UniversalWorker.StatusGuard.{queue_status_update as guard_update}
use livekit_agent_sdk_go.UniversalWorker.Sending.{
  SendError, not_connected, can_send, send_message, file_failed, queue_status_update,
  update_job_status, retry_update, retry_updates, process_status_queue,
}

-- What a round leaves of a queue when nothing can be sent: the updates that were not tried three
-- times, each with one more try.
unfoldable pub tried_again : List StatusUpdate → List StatusUpdate
tried_again [] = []
tried_again (u ∷ us) =
    let rest = tried_again us in
    if leb 3 u.retry_count then rest else record u { retry_count = u.retry_count + 1 } ∷ rest

-- A world that waits with a queue of updates, and is else like another one.
pub record Waiting (us : List StatusUpdate) (s t : World) : Type 0 where
  pub queue : t.worker.status_queue ≡ us
  pub silent : t.trace ≡ s.trace
  pub same_handler : t.worker.network_handler ≡ s.worker.network_handler
  pub off : can_send t.worker ≡ false

append_nil : {A : Type 0} (xs : List A) → xs ++ [] ≡ xs
append_nil [] = refl
append_nil (x ∷ xs) = ap (λ l. x ∷ l) (append_nil xs)

append_assoc : {A : Type 0} (xs ys zs : List A) → (xs ++ ys) ++ zs ≡ xs ++ (ys ++ zs)
append_assoc [] ys zs = refl
append_assoc (x ∷ xs) ys zs = ap (λ l. x ∷ l) (append_assoc xs ys zs)

-- What rounds of retries that send nothing leave of a queue.
unfoldable pub left_after : ℕ → List StatusUpdate → List StatusUpdate
unfolding tried_again
left_after zero us = us
left_after (suc n) us = left_after n (tried_again us)

-- Each update was tried so often at least.
abbrev MinTries : ℕ → List StatusUpdate → Type 0
MinTries k [] = Unit
MinTries k (u ∷ us) = (k ≤ u.retry_count) × MinTries k us

MinTries-zero : (us : List StatusUpdate) → MinTries 0 us
MinTries-zero [] = tt
MinTries-zero (u ∷ us) = (omega arith, MinTries-zero us)

MinTries-suc : (k : ℕ) (us : List StatusUpdate) → MinTries k us → MinTries (k + 1) (tried_again us)
unfolding tried_again
MinTries-suc k [] h = tt
MinTries-suc k (u ∷ us) h = ground (arith, MinTries-suc k us h.1)

tried_again-spent : (us : List StatusUpdate) → MinTries 3 us → tried_again us ≡ []
unfolding tried_again
tried_again-spent [] h = refl
tried_again-spent (u ∷ us) h = ground (arith, tried_again-spent us h.1)

left_after-four : (us : List StatusUpdate) → left_after 4 us ≡ []
unfolding left_after
left_after-four us =
    tried_again-spent _ (MinTries-suc 2 _ (MinTries-suc 1 _ (MinTries-suc 0 us (MinTries-zero us))))

left_after-nil : (n : ℕ) → left_after n [] ≡ []
unfolding left_after tried_again
left_after-nil zero = refl
left_after-nil (suc n) = left_after-nil n

abbrev pub tried : StatusUpdate → ℕ → StatusUpdate
tried u k = record u { retry_count = k }

-- A single update is kept for three rounds, with its tries counted, and no longer.
pub left_after-early :
    (n : ℕ) (u : StatusUpdate)
    → u.retry_count + n ≤ 3
    → left_after n (u ∷ []) ≡ tried u (u.retry_count + n) ∷ []
unfolding left_after tried_again
left_after-early zero u h =
    let same : u.retry_count ≡ u.retry_count + 0 = omega arith in ap (λ k. tried u k ∷ []) same
left_after-early (suc n) u h =
    let early : leb 3 u.retry_count ≡ false = ground arith in
    let same : (u.retry_count + 1) + n ≡ u.retry_count + suc n = omega arith in
    rw early (
      left_after-early n (tried u (u.retry_count + 1)) (omega arith)
      ∙ ap (λ k. tried u k ∷ []) same)

pub left_after-late :
    (n : ℕ) (u : StatusUpdate)
    → u.retry_count ≤ 3
    → 4 ≤ u.retry_count + n
    → left_after n (u ∷ []) ≡ []
unfolding left_after tried_again
left_after-late zero u below above = absurd (omega arith)
left_after-late (suc n) u below above = elim (Bool-cases (leb 3 u.retry_count)) [
  | inl last ↦ rw last (left_after-nil n)
  | inr more ↦
      let least : u.retry_count + 1 ≤ 3 = ground arith in
      rw more (left_after-late n (tried u (u.retry_count + 1)) least (omega arith))
]

-- A worker that can send, with no partial write in progress.
pub record IsReady (w : UniversalWorker) : Type 0 where
  pub on : can_send w ≡ true
  pub no_partial : w.network_handler.partial_write_buffer ≡ []

-- An environment whose connection takes every message, and whose messages are all marshalled.
pub record IsWorking (bytes : WorkerMessage → List ℕ) (env : Environment) : Type 0 where
  pub taken : (i : ℕ) → env.connection i ≡ working
  pub marshalled : (msg : WorkerMessage) → env.marshal msg ≡ some (bytes msg)

abbrev pub written : (WorkerMessage → List ℕ) → WorkerMessage → Event
written bytes msg = wrote msg sent (some (2, bytes msg))

pub file_failed-none :
    (u : StatusUpdate) (r : World × Option SendError) → r.1 ≡ none → file_failed u r ≡ r.0
unfolding file_failed
file_failed-none u (s, none) e = refl
file_failed-none u (s, some err) e = absurd (ground arith)

abbrev pub first_try : String → JobStatus → String → ℕ → StatusUpdate
first_try id status message now = record {
  job_id = id;
  status = status;
  error = message;
  timestamp = now;
  retry_count = 0;
}

module _ (env : Environment) where
  send_offline :
      (msg : WorkerMessage) (s : World)
      → can_send s.worker ≡ false
      → send_message env msg s ≡ (s, some not_connected)
  unfolding send_message
  send_offline msg s off = rw off refl

  pub queue-Waiting :
      (u : StatusUpdate) (s : World)
      → can_send s.worker ≡ false
      → Waiting (s.worker.status_queue ++ u ∷ []) s (queue_status_update u s)
  unfolding queue_status_update with_worker can_send
  queue-Waiting u s off = record { queue = refl; silent = refl; same_handler = refl; off = off }

  retry_updates-Waiting :
      (us : List StatusUpdate) (s : World)
      → can_send s.worker ≡ false
      → Waiting (s.worker.status_queue ++ tried_again us) s (retry_updates env us s)
  unfolding retry_updates retry_update tried_again file_failed
  retry_updates-Waiting [] s off = record {
    queue = sym (append_nil s.worker.status_queue);
    silent = refl;
    same_handler = refl;
    off = off;
  }
  retry_updates-Waiting (u ∷ us) s off = elim (Bool-cases (leb 3 u.retry_count)) [
    | inl spent ↦ rw spent (retry_updates-Waiting us s off)
    | inr left ↦
        let again = record u { retry_count = u.retry_count + 1 } in
        let filed = queue-Waiting again s off in
        let rest = retry_updates-Waiting us (queue_status_update again s) filed.off in
        rw (left, send_offline (update_job u.job_id u.status u.error) s off)
          (record {
            queue =
                rest.queue
                ∙ ap (λ q. q ++ tried_again us) filed.queue
                ∙ append_assoc s.worker.status_queue (again ∷ []) (tried_again us);
            silent = rest.silent ∙ filed.silent;
            same_handler = rest.same_handler ∙ filed.same_handler;
            off = rest.off;
          })
  ]

  report_unguarded :
      (id : String) (status : JobStatus) (message : String) (now : ℕ) (s : World)
      → s.worker.race_protector.is_reconnecting ≡ false
      → update_job_status env id status message now s
        ≡ file_failed
            (first_try id status message now)
            (send_message env (update_job id status message) s)
  unfolding update_job_status guard_update
  report_unguarded id status message now s unguarded = rw unguarded refl

  -- A report while nothing can be sent and the guard is off.
  pub report_offline :
      (id : String) (status : JobStatus) (message : String) (now : ℕ) (s : World)
      → can_send s.worker ≡ false
      → s.worker.race_protector.is_reconnecting ≡ false
      → update_job_status env id status message now s
        ≡ queue_status_update (first_try id status message now) s
  unfolding update_job_status guard_update file_failed
  report_offline id status message now s off unguarded =
      report_unguarded id status message now s unguarded
      ∙ ap (file_failed (first_try id status message now))
          (send_offline (update_job id status message) s off)

  -- A round of retries while nothing can be sent.
  pub round_offline :
      (us : List StatusUpdate) (s t : World)
      → Waiting us s t
      → Waiting (tried_again us) s (process_status_queue env t)
  unfolding process_status_queue with_worker can_send
  round_offline us s t w =
      let emptied = with_worker (λ w. record w { status_queue = [] }) t in
      let done = retry_updates-Waiting t.worker.status_queue emptied w.off in
      record {
        queue = done.queue ∙ ap tried_again w.queue;
        silent = done.silent ∙ w.silent;
        same_handler = done.same_handler ∙ w.same_handler;
        off = done.off;
      }

  unfoldable pub rounds : ℕ → World → World
  unfolding process_status_queue
  rounds zero s = s
  rounds (suc n) s = rounds n (process_status_queue env s)

  pub rounds-Waiting :
      (n : ℕ) (us : List StatusUpdate) (s t : World)
      → Waiting us s t
      → Waiting (left_after n us) s (rounds n t)
  unfolding rounds left_after
  rounds-Waiting zero us s t w = w
  rounds-Waiting (suc n) us s t w =
      rounds-Waiting n (tried_again us) s (process_status_queue env t) (round_offline us s t w)

  -- While nothing can be sent, four rounds of retries empty the queue of status updates, whatever it
  -- held, and nothing was written.
  pub four_rounds_lose :
      (s : World)
      → can_send s.worker ≡ false
      → ((rounds 4 s).worker.status_queue ≡ []) × ((rounds 4 s).trace ≡ s.trace)
  four_rounds_lose s off =
      let w =
        rounds-Waiting 4 s.worker.status_queue s s
          (record { queue = refl; silent = refl; same_handler = refl; off = off }) in
      (w.queue ∙ left_after-four s.worker.status_queue, w.silent)
