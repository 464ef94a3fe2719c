-- ===== src/RaceProtector/Trace.antt =====
-- Sequences of calls of the methods of `RaceProtector`, in any order and from any goroutines.
use livekit_agent_sdk_go.Prelude.{ℕ, String, Bool, Option, List, [], ◌∷◌}
use livekit_agent_sdk_go.RaceProtector.{
  JobStatus, RaceProtector, set_disconnecting, set_reconnecting, can_accept_job,
  record_termination_request, complete_termination, queue_status_update,
  flush_pending_status_updates, cleanup_old_terminations,
}

pub data Call : Type 0 where
  disconnecting reconnecting : Bool → Call
  accept : String → Call
  request : String → ℕ → Call
  complete : String → Option String → ℕ → Call
  queue : String → JobStatus → String → ℕ → Call
  flush : Call
  cleanup : ℕ → ℕ → Call

unfoldable pub step : Call → RaceProtector → RaceProtector
step (disconnecting b) p = set_disconnecting b p
step (reconnecting b) p = set_reconnecting b p
step (accept id) p = (can_accept_job id p).0
step (request id now) p = (record_termination_request id now p).0
step (complete id err now) p = complete_termination id err now p
step (queue id status message now) p = (queue_status_update id status message now p).0
step flush p = (flush_pending_status_updates p).0
step (cleanup max_age now) p = (cleanup_old_terminations max_age now p).0

unfoldable pub run : List Call → RaceProtector → RaceProtector
run [] p = p
run (c ∷ cs) p = run cs (step c p)
