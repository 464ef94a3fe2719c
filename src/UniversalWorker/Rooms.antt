-- ===== src/UniversalWorker/Rooms.antt =====
-- The callbacks of a job's room (pkg/agent/universal_worker.go). A subscribed track is kept with the
-- time of the subscription.
use livekit_agent_sdk_go.Prelude.{ℕ, String, Bool, false, Option, none, some, if◌then◌else◌, str_eq}
use livekit_agent_sdk_go.Prelude.Dict.{Dict, lookup, insert, delete}
use livekit_agent_sdk_go.JobQueue.Item.{Job}
use livekit_agent_sdk_go.RaceProtector.{js_failed}
use livekit_agent_sdk_go.UniversalWorker.Types.{
  Room, Participant, ParticipantInfo, UniversalWorker, room_left, metadata_changed,
  participant_joined, participant_left, participant_changed, track_subscribed, track_unsubscribed,
  data_received, handler_called, Environment, World, with_worker, emit,
}
use livekit_agent_sdk_go.UniversalWorker.Sending.{update_job_status}
use livekit_agent_sdk_go.UniversalWorker.Jobs.{is_participant_job}

-- The reasons of lksdk.DisconnectionReason that the code names, and others.
pub data DisconnectionReason : Type 0 where
  duplicate_identity participant_removed room_closed : DisconnectionReason
  other_reason : ℕ → DisconnectionReason

-- The error that a reason gives to the job, if it ends the job.
unfoldable pub failure_of : DisconnectionReason → Option String
failure_of duplicate_identity = some "duplicate participant identity"
failure_of participant_removed = some "participant was removed from room"
failure_of room_closed = some "room was closed"
failure_of (other_reason n) = none

-- The call for the room that the worker holds under the name, if any.
unfoldable pub tell_left : Option Room → String → World → World
unfolding emit
tell_left none reason s = s
tell_left (some room) reason s = emit (handler_called (room_left room.handle reason)) s

unfoldable pub on_disconnected : String → World → World
unfolding tell_left
on_disconnected room_name s = tell_left (lookup room_name s.worker.rooms) "normal disconnect" s

unfoldable pub tell_metadata : Option Room → String → World → World
unfolding emit
tell_metadata none metadata s = s
tell_metadata (some room) metadata s =
    emit (handler_called (metadata_changed room.handle metadata)) s

unfoldable pub on_room_metadata_changed : String → String → World → World
unfolding tell_metadata
on_room_metadata_changed room_name metadata s =
    tell_metadata (lookup room_name s.worker.rooms) metadata s

-- Whether the job is one for a participant, and this is it.
unfoldable pub is_target : Job → Participant → Bool
unfolding is_participant_job
is_target job p =
    if is_participant_job job.job_type then matches job.participant_identity else false
  where
    matches : Option String → Bool
    matches none = false
    matches (some identity) = str_eq p.identity identity

unfoldable pub track_participant : Job → Participant → ℕ → UniversalWorker → UniversalWorker
unfolding is_target
track_participant job p now w = record w {
  participants =
      insert p.identity
        (record {
          participant = p;
          joined_at = now;
          last_activity = now;
          permissions = p.permissions;
        })
        w.participants;
  target_participant = if is_target job p then some p else w.target_participant;
}

unfoldable pub on_participant_connected : Job → Participant → ℕ → World → World
unfolding track_participant with_worker emit
on_participant_connected job p now s =
    emit (handler_called (participant_joined p.identity))
      (with_worker (track_participant job p now) s)

-- The target is forgotten if it has the identity.
unfoldable pub clear_target : String → Option Participant → Option Participant
clear_target identity none = none
clear_target identity (some p) = if str_eq p.identity identity then none else some p

unfoldable pub untrack_participant : String → UniversalWorker → UniversalWorker
unfolding clear_target
untrack_participant identity w = record w {
  participants = delete identity w.participants;
  target_participant = clear_target identity w.target_participant;
}

unfoldable pub on_participant_disconnected : String → World → World
unfolding untrack_participant with_worker emit
on_participant_disconnected identity s =
    emit (handler_called (participant_left identity)) (with_worker (untrack_participant identity) s)

-- The activity of a participant that the worker knows.
unfoldable pub note_activity :
    String → ℕ → Option ParticipantInfo → UniversalWorker → UniversalWorker
note_activity identity now none w = w
note_activity identity now (some info) w = record w {
  participants = insert identity (record info { last_activity = now }) w.participants;
}

unfoldable pub on_metadata_changed : String → ℕ → World → World
unfolding note_activity with_worker emit
on_metadata_changed identity now s =
    emit (handler_called (participant_changed identity))
      (with_worker (note_activity identity now (lookup identity s.worker.participants)) s)

unfoldable pub on_track_subscribed : String → ℕ → World → World
unfolding with_worker emit
on_track_subscribed sid now s =
    emit (handler_called (track_subscribed sid))
      (with_worker (λ w. record w { subscribed_tracks = insert sid now w.subscribed_tracks }) s)

unfoldable pub on_track_unsubscribed : String → World → World
unfolding with_worker emit
on_track_unsubscribed sid s =
    emit (handler_called (track_unsubscribed sid))
      (with_worker (λ w. record w { subscribed_tracks = delete sid w.subscribed_tracks }) s)

-- The sender of a data packet: the SDK's, else the participant that is known under the identity.
unfoldable pub resolve_sender : Option String → String → Dict ParticipantInfo → Option String
resolve_sender (some sender) identity known = some sender
resolve_sender none identity known =
    if str_eq identity "" then none else identity_of (lookup identity known)
  where
    identity_of : Option ParticipantInfo → Option String
    identity_of none = none
    identity_of (some info) = some info.participant.identity

unfoldable pub on_data_packet : Option String → String → World → World
unfolding resolve_sender emit
on_data_packet sender identity s =
    emit (handler_called (data_received (resolve_sender sender identity s.worker.participants))) s

module _ (env : Environment) where
  unfoldable pub fail_job : String → Option String → ℕ → World → World
  unfolding update_job_status
  fail_job id none now s = s
  fail_job id (some message) now s = update_job_status env id js_failed message now s

  -- `reason_text` is the text of a reason, which the SDK gives.
  unfoldable pub on_disconnected_with_reason :
      (DisconnectionReason → String) → Job → String → DisconnectionReason → ℕ → World → World
  unfolding fail_job failure_of tell_left
  on_disconnected_with_reason reason_text job room_name reason now s =
      fail_job job.id (failure_of reason) now
        (tell_left (lookup room_name s.worker.rooms) (reason_text reason) s)
