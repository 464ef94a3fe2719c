-- ===== src/UniversalWorker/SharedRoom.antt =====
-- Two jobs of the worker in the same room (pkg/agent/universal_worker.go).
use livekit_agent_sdk_go.Prelude.{ℕ, ◌≡◌, refl, ap, ◌∙◌, false, none, some, str_eq, eq_iff}
use livekit_agent_sdk_go.Prelude.Dict.{Dict, lookup, delete, lookup-delete}
use livekit_agent_sdk_go.UniversalWorker.Types.{
  Room, JobContext, UniversalWorker, Environment, World, with_worker, emit, job_terminated,
}
use livekit_agent_sdk_go.UniversalWorker.Sending.{update_job_status}
use livekit_agent_sdk_go.UniversalWorker.Jobs.{
  JobOutcome, final_status, final_error, forget_job, disconnect, count_completed, finish_job,
}
use livekit_agent_sdk_go.UniversalWorker.Frame.{update_load-Kept, update_job_status-Kept}

-- The maps of rooms, trackers and active jobs after a job's end, of a job that has a room.
record RoomsAre (rooms trackers : Dict Room) (jobs : Dict JobContext) (w : UniversalWorker)
    : Type 0 where
  its_rooms : w.rooms ≡ rooms
  its_trackers : w.participant_trackers ≡ trackers
  its_jobs : w.active_jobs ≡ jobs

module _ (env : Environment) where
  finish_job-rooms :
      (outcome : JobOutcome) (ctx : JobContext) (room : Room) (now : ℕ) (s : World)
      → ctx.room ≡ some room
      → RoomsAre
          (delete room.name s.worker.rooms)
          (delete room.name s.worker.participant_trackers)
          (delete ctx.job.id s.worker.active_jobs)
          (finish_job env outcome ctx now s).worker
  unfolding finish_job with_worker emit count_completed forget_job
  finish_job-rooms outcome ctx room now s in_room =
      let telling =
        (update_job_status-Kept env ctx.job.id (final_status outcome) (final_error outcome) now
          s).same_core in
      let told =
        update_job_status env ctx.job.id (final_status outcome) (final_error outcome) now s in
      let ended = emit (job_terminated ctx.job.id) (
        with_worker count_completed
          (disconnect (some room) (with_worker (forget_job ctx.job.id (some room)) told))) in
      let loading = (update_load-Kept env now ended).same_core in
      rw in_room (record {
        its_rooms =
            ap (λ (w : UniversalWorker). w.rooms) loading
            ∙ ap (λ (w : UniversalWorker). delete room.name w.rooms) telling;
        its_trackers =
            ap (λ (w : UniversalWorker). w.participant_trackers) loading
            ∙ ap (λ (w : UniversalWorker). delete room.name w.participant_trackers) telling;
        its_jobs =
            ap (λ (w : UniversalWorker). w.active_jobs) loading
            ∙ ap (λ (w : UniversalWorker). delete ctx.job.id w.active_jobs) telling;
      })

  -- When a job ends, another active job stays active, but if it is in a room of the same name, the
  -- worker has no room and no tracker of participants for it any more.
  pub shared_room_lost :
      (outcome : JobOutcome) (ctx other : JobContext) (room : Room) (now : ℕ) (s : World)
      → ctx.room ≡ some room
      → str_eq ctx.job.id other.job.id ≡ false
      → lookup other.job.id s.worker.active_jobs ≡ some other
      → (lookup other.job.id (finish_job env outcome ctx now s).worker.active_jobs ≡ some other)
        × (lookup room.name (finish_job env outcome ctx now s).worker.rooms ≡ none)
        × (lookup room.name (finish_job env outcome ctx now s).worker.participant_trackers ≡ none)
  shared_room_lost outcome ctx other room now s in_room apart active =
      let after = finish_job-rooms outcome ctx room now s in_room in
      let self = (eq_iff room.name room.name).1 refl in
      rw (after.its_rooms, after.its_trackers, after.its_jobs)
        (
          lookup-delete ctx.job.id other.job.id s.worker.active_jobs ∙ rw apart active,
          lookup-delete room.name room.name s.worker.rooms ∙ rw self refl,
          lookup-delete room.name room.name s.worker.participant_trackers ∙ rw self refl,
        )
