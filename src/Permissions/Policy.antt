-- ===== src/Permissions/Policy.antt =====
-- The permissions of a participant and the built-in policies
-- (pkg/agent/participant_permission_manager.go). A nil pointer is `none`; the objects behind the
-- pointers are not changed by the code. The hour that `time.Now()` gives is an argument.
use livekit_agent_sdk_go.Prelude.{
  ℕ, String, Bool, true, false, ◌&&◌, ◌||◌, Option, none, some, List, [], ltb, leb, if◌then◌else◌,
}
use livekit_agent_sdk_go.Prelude.Exec.{Exec, ok, panic}

-- livekit.TrackSource, an open enum.
pub data TrackSource : Type 0 where
  camera microphone screen_share screen_share_audio : TrackSource
  unrecognized : ℕ → TrackSource

-- The fields of livekit.ParticipantPermission that the code names.
pub record ParticipantPermission : Type 0 where
  pub can_subscribe : Bool
  pub can_publish : Bool
  pub can_publish_data : Bool
  pub hidden : Bool
  pub can_update_metadata : Bool
  pub can_publish_sources : List TrackSource

-- The zero value.
abbrev pub no_permission : ParticipantPermission
no_permission = record {
  can_subscribe = false;
  can_publish = false;
  can_publish_data = false;
  hidden = false;
  can_update_metadata = false;
  can_publish_sources = [];
}

-- The interface: an evaluation may read the hour, and may panic.
pub record PermissionPolicy : Type 0 where
  pub evaluate :
      ℕ
      → String
      → Option ParticipantPermission
      → Option ParticipantPermission
      → Exec (Bool × String)
  pub get_default_permissions : String → Option ParticipantPermission

abbrev pub viewer : ParticipantPermission
viewer = record no_permission { can_subscribe = true }

unfoldable pub role_based_policy : PermissionPolicy
role_based_policy = record {
  evaluate = λ hour id current requested. ok (true, "role_based_approval");
  get_default_permissions = λ id. some viewer;
}

-- The text of the refusal is not modelled beyond its fixed part.
abbrev pub outside_hours : String
outside_hours = "publishing not allowed outside hours"

-- The hour is before the first allowed one, or not before the second.
unfoldable pub outside : ℕ → ℕ → ℕ → Bool
outside start_hour end_hour hour = ltb hour start_hour || leb end_hour hour

-- Outside of the hours the request is read: a nil request panics.
unfoldable pub time_based_evaluate : ℕ → ℕ → ℕ → Option ParticipantPermission → Exec (Bool × String)
unfolding outside
time_based_evaluate start_hour end_hour hour none =
    if outside start_hour end_hour hour then panic else ok (true, "time_based_approval")
time_based_evaluate start_hour end_hour hour (some p) =
    if outside start_hour end_hour hour && (p.can_publish || p.can_publish_data)
    then ok (false, outside_hours)
    else ok (true, "time_based_approval")

unfoldable pub time_based_policy : ℕ → ℕ → PermissionPolicy
unfolding time_based_evaluate
time_based_policy start_hour end_hour = record {
  evaluate = λ hour id current requested. time_based_evaluate start_hour end_hour hour requested;
  get_default_permissions = λ id. some (record no_permission { can_subscribe = true });
}
