-- ===== src/UniversalWorker/JobLife.antt =====
-- What holds of the jobs of the worker through every interleaving of its goroutines
-- (pkg/agent/universal_worker.go, universal_worker_websocket.go).
use livekit_agent_sdk_go.Prelude.{
  ℕ, ◌+◌, ◌≡◌, refl, sym, ap, ◌∙◌, String, Bool, Bool-cases, true, false, Option, none, some,
  is_some, List, ◌∷◌, arith, eq_iff, if◌then◌else◌, if_cases, length, ◌==◌, inl, inr,
}
use livekit_agent_sdk_go.Prelude.Dict.{Dict, lookup, insert, delete, lookup-insert, lookup-delete}
use livekit_agent_sdk_go.Prelude.Exec.{Ends-value}
use livekit_agent_sdk_go.JobQueue.Item.{Job}
use livekit_agent_sdk_go.UniversalWorker.Types.{
  JobContext, Metrics, UniversalWorker, Environment, World, with_worker, emit,
}
use livekit_agent_sdk_go.UniversalWorker.Jobs.{new_context, show_target, begin_job}
use livekit_agent_sdk_go.UniversalWorker.Connection.{receive_pong}
use livekit_agent_sdk_go.UniversalWorker.Frame.{update_job_status-Kept, process_status_queue-Kept}
use livekit_agent_sdk_go.UniversalWorker.Reconnection.{JobsKept, Kept-JobsKept}
use livekit_agent_sdk_go.UniversalWorker.JobEffects.{
  JobsAre, completed_once, accepted_once, finish_job-jobs, joined-jobs, join_failed-JobsKept,
  termination-jobs, availability-JobsKept, ping_tick-JobsKept, handle_connection_error-JobsKept,
  reconnect_turn-JobsKept, begin_assignment-Begun,
}
use livekit_agent_sdk_go.UniversalWorker.JobSteps.{
  Picked, Picked-length, has_job, has_job-Picked, System, Step, assigned, joins, fails, starts,
  finishes, terminated, asked, reported, retried, ticked, answered, broke, reconnected, Reach,
  start, step,
}

-- Every accepted job is joining, running, completed or failed to join; every active job is run by a
-- goroutine; and the start times are those of the active jobs.
pub record SoundAt (jobs : Dict JobContext) (at : Dict ℕ) (m : Metrics) (joining : List Job)
    (running : List JobContext) (failed : ℕ) : Type 0 where
  pub counted : m.jobs_accepted ≡ length joining + length running + m.jobs_completed + failed
  pub active_run : (id : String) → is_some (lookup id jobs) ≡ true → has_job id running ≡ true
  pub timed : (id : String) → is_some (lookup id at) ≡ is_some (lookup id jobs)

abbrev pub Sound : System → Type 0
Sound s =
    SoundAt s.world.worker.active_jobs s.world.worker.job_start_times s.world.worker.metrics
      s.joining s.running s.failed

carried :
    {jobs : Dict JobContext} {at : Dict ℕ} {m : Metrics} {joining : List Job}
    {running : List JobContext} {failed : ℕ} {t : World}
    → JobsAre jobs at m t
    → SoundAt jobs at m joining running failed
    → SoundAt t.worker.active_jobs t.worker.job_start_times t.worker.metrics joining running failed
carried h sound = rw (h.jobs, h.times, h.counts) sound

quiet :
    {s t : World}
    → JobsKept s t
    → JobsAre s.worker.active_jobs s.worker.job_start_times s.worker.metrics t
quiet k = record { jobs = k.same_jobs; times = k.same_times; counts = k.same_metrics }

module _ {jobs : Dict JobContext} {at : Dict ℕ} {m : Metrics} {joining : List Job}
    {running : List JobContext} {failed : ℕ}
    (sound : SoundAt jobs at m joining running failed) where
  after_accept : (job : Job) → SoundAt jobs at (accepted_once m) (job ∷ joining) running failed
  after_accept job = record {
    counted = ground (arith, sound.counted);
    active_run = sound.active_run;
    timed = sound.timed;
  }

  after_join :
      (job : Job) (rest : List Job) (ctx : JobContext) (now : ℕ)
      → Picked job joining rest
      → ctx.job.id ≡ job.id
      → SoundAt (insert job.id ctx jobs) (insert job.id now at) m rest (ctx ∷ running) failed
  unfolding has_job
  after_join job rest ctx now p same = record {
    counted = ground (arith, sound.counted, Picked-length p);
    active_run = λ id h. ground (
      arith,
      eq_iff ctx.job.id id,
      eq_iff job.id id,
      lookup-insert job.id id ctx jobs,
      sound.active_run id,
    );
    timed = λ id.
        ground
          (arith, lookup-insert job.id id ctx jobs, lookup-insert job.id id now at, sound.timed id);
  }

  after_failure :
      (job : Job) (rest : List Job)
      → Picked job joining rest
      → SoundAt jobs at m rest running (failed + 1)
  after_failure job rest p = record {
    counted = ground (arith, sound.counted, Picked-length p);
    active_run = sound.active_run;
    timed = sound.timed;
  }

  after_finish :
      (ctx : JobContext) (rest : List JobContext)
      → Picked ctx running rest
      → SoundAt
          (delete ctx.job.id jobs)
          (delete ctx.job.id at)
          (completed_once m)
          joining
          rest
          failed
  after_finish ctx rest p = record {
    counted = ground (arith, sound.counted, Picked-length p);
    active_run = λ id h.
        ground (arith, lookup-delete ctx.job.id id jobs, sound.active_run id, has_job-Picked id p);
    timed = λ id.
        ground
          (arith, lookup-delete ctx.job.id id jobs, lookup-delete ctx.job.id id at, sound.timed id);
  }

  after_delete : (id : String) → SoundAt (delete id jobs) (delete id at) m joining running failed
  after_delete id = record {
    counted = sound.counted;
    active_run = λ k h. ground (arith, lookup-delete id k jobs, sound.active_run k);
    timed = λ k. ground (arith, lookup-delete id k jobs, lookup-delete id k at, sound.timed k);
  }

  after_termination :
      (id : String) (b : Bool)
      → SoundAt
          (if b then delete id jobs else jobs)
          (if b then delete id at else at)
          m
          joining
          running
          failed
  after_termination id true = after_delete id
  after_termination id false = sound

-- Showing the target changes an entry, if any, but not which jobs have one.
show_target-domain :
    (ctx : JobContext) (o : Option JobContext) (w : UniversalWorker) (id : String)
    → lookup ctx.job.id w.active_jobs ≡ o
    → is_some (lookup id (show_target ctx o w).active_jobs) ≡ is_some (lookup id w.active_jobs)
unfolding show_target
show_target-domain ctx none w id e = refl
show_target-domain ctx (some c) w id e = elim (Bool-cases (c.context == ctx.context)) [
  | inl same ↦ rw same (
      ground
        (arith, eq_iff ctx.job.id id, lookup-insert ctx.job.id id ctx w.active_jobs, ap is_some e))
  | inr other ↦ rw other refl
]

show_target-rest :
    (ctx : JobContext) (o : Option JobContext) (w : UniversalWorker)
    → ((show_target ctx o w).job_start_times ≡ w.job_start_times)
      × ((show_target ctx o w).metrics ≡ w.metrics)
unfolding show_target
show_target-rest ctx none w = (refl, refl)
show_target-rest ctx (some c) w =
    if_cases
      (λ (v : UniversalWorker). (v.job_start_times ≡ w.job_start_times) × (v.metrics ≡ w.metrics))
      (c.context == ctx.context) (refl, refl) (refl, refl)

begin_job-Sound :
    (ctx : JobContext) (rest : List JobContext) (present : List String) (s : System)
    → Picked ctx s.running rest
    → Sound s
    → Sound (record s {
      world = (begin_job present ctx s.world).0;
      running = (begin_job present ctx s.world).1 ∷ rest;
    })
unfolding begin_job with_worker emit has_job
begin_job-Sound ctx rest present s p sound =
    let found = (begin_job present ctx s.world).1 in
    let w = s.world.worker in
    let held = lookup ctx.job.id w.active_jobs in
    let (times, counts) = show_target-rest found held w in
    rw (times, counts)
      (record {
        counted = ground (arith, sound.counted, Picked-length p);
        active_run = λ id h.
            sym (has_job-Picked id p)
            ∙ sound.active_run id (sym (show_target-domain found held w id refl) ∙ h);
        timed = λ id. sound.timed id ∙ sym (show_target-domain found held w id refl);
      })

module _ (env : Environment) where
  pub step-Sound : {s t : System} → Step env s t → Sound s → Sound t
  unfolding with_worker receive_pong new_context
  step-Sound {s = s} (assigned a answer w job request e) sound =
      carried (Ends-value (begin_assignment-Begun a answer s.world) e) (after_accept sound job)
  step-Sound {s = s} (joins job rest room now p) sound =
      carried (joined-jobs env job room now s.world)
        (after_join sound job rest (new_context job room now s.world) now p refl)
  step-Sound {s = s} (fails job rest err now p) sound =
      carried (quiet (join_failed-JobsKept env job err now s.world))
        (after_failure sound job rest p)
  step-Sound {s = s} (starts ctx rest present p) sound = begin_job-Sound ctx rest present s p sound
  step-Sound {s = s} (finishes ctx rest outcome now p) sound =
      carried (finish_job-jobs env outcome ctx now s.world) (after_finish sound ctx rest p)
  step-Sound {s = s} (terminated id now) sound =
      carried (termination-jobs env id now s.world)
        (after_termination sound id (is_some (lookup id s.world.worker.active_jobs)))
  step-Sound {s = s} (asked job accept metadata) sound =
      carried (quiet (availability-JobsKept env job accept metadata s.world)) sound
  step-Sound {s = s} (reported id status message now) sound =
      carried (quiet (Kept-JobsKept (update_job_status-Kept env id status message now s.world)))
        sound
  step-Sound {s = s} retried sound =
      carried (quiet (Kept-JobsKept (process_status_queue-Kept env s.world))) sound
  step-Sound {s = s} (ticked now) sound = carried (quiet (ping_tick-JobsKept env now s.world)) sound
  step-Sound {s = s} (answered now) sound = sound
  step-Sound {s = s} broke sound = carried (quiet (handle_connection_error-JobsKept s.world)) sound
  step-Sound {s = s} (reconnected jitter a handler now attempts r e) sound =
      carried
        (quiet (Ends-value (reconnect_turn-JobsKept env jitter a handler now attempts s.world) e))
        sound

  -- Through every interleaving of assignments, joins, ends, terminations, reports, pings, errors and
  -- reconnections, from a state of which this holds: the accepted jobs are those that join a room, run,
  -- have completed or failed to join; each active job is run by a goroutine; and exactly the active
  -- jobs have a start time.
  pub reachable-Sound : {s t : System} → Reach env s t → Sound s → Sound t
  reachable-Sound start sound = sound
  reachable-Sound (step r e) sound = step-Sound e (reachable-Sound r sound)
