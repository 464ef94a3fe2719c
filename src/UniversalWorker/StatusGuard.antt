-- ===== src/UniversalWorker/StatusGuard.antt =====
-- StatusUpdateRaceProtector (pkg/agent/universal_helpers.go). An update that it queues has the zero
-- time, here 0.
use livekit_agent_sdk_go.Prelude.{String, Bool, true, false, List, [], ◌∷◌, ◌++◌, if◌then◌else◌}
use livekit_agent_sdk_go.RaceProtector.{JobStatus, StatusUpdate}
use livekit_agent_sdk_go.UniversalWorker.Types.{StatusUpdateRaceProtector}

unfoldable pub queue_status_update :
    String → JobStatus → String → StatusUpdateRaceProtector → StatusUpdateRaceProtector × Bool
queue_status_update id status message p =
    if p.is_reconnecting
    then (
      record p {
        queued_updates =
            p.queued_updates
            ++ record {
              job_id = id;
              status = status;
              error = message;
              timestamp = 0;
              retry_count = 0;
            }
              ∷ [];
      },
      true,
    )
    else (p, false)

-- The protector, and the updates that the handler is called with afterwards.
unfoldable pub process_queued_updates :
    StatusUpdateRaceProtector → StatusUpdateRaceProtector × List StatusUpdate
process_queued_updates p =
    (record { queued_updates = []; is_reconnecting = false }, p.queued_updates)
