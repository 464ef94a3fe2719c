-- ===== src/UniversalWorker/Metadata.antt =====
-- The metadata under which the worker joins a room (pkg/agent/universal_worker.go,
-- universal_worker_websocket.go).
use livekit_agent_sdk_go.Prelude.{◌≡◌, ◌≢◌, refl, String, Option, arith, eq_iff}
use livekit_agent_sdk_go.Prelude.Dict.{insert}
use livekit_agent_sdk_go.JobQueue.Item.{Job}
use livekit_agent_sdk_go.UniversalWorker.Types.{
  JobMetadata, empty_metadata, UniversalWorker, World, with_worker,
}
use livekit_agent_sdk_go.UniversalWorker.Jobs.{
  merge_metadata, resolve_metadata, metadata_or_empty, or_text,
}

pub or_text_some : (first second : String) → first ≢ "" → or_text first second ≡ first
or_text_some first second h = ground (arith, eq_iff first "")

merge-empty : (m : JobMetadata) → merge_metadata empty_metadata m ≡ m
unfolding merge_metadata
merge-empty m = refl

-- What the worker answers to an availability request.
abbrev pub answered_metadata : Job → Option JobMetadata → World → JobMetadata
answered_metadata job metadata s =
    resolve_metadata s.worker.opts.agent_name job.id (metadata_or_empty metadata)

-- The world in which the answer for a job is sent: its metadata is kept for the assignment.
abbrev pub with_offer : String → JobMetadata → World → World
unfolding with_worker
with_offer id m s =
    with_worker (λ w. record w { pending_job_metadata = insert id m w.pending_job_metadata }) s
