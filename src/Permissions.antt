-- ===== src/Permissions.antt =====
-- pkg/agent/participant_permission_manager.go: what the agent may do, and the permissions of the
-- participants with the history of their changes. Every method holds the mutex, so it is one step.
pub mod Policy
pub mod History
pub mod Requests
pub mod Sending
mod Examples
use livekit_agent_sdk_go.Prelude.{
  ℕ, ◌-◌, String, Bool, true, false, not, ◌&&◌, ◌||◌, Option, none, some, List, [], ◌∷◌, ◌++◌, ltb,
  ◌==◌, if◌then◌else◌, length, drop, str_eq,
}
use livekit_agent_sdk_go.Prelude.Dict.{Dict, lookup, insert, delete}
use livekit_agent_sdk_go.Prelude.Exec.{Exec, ok, panic, ◌>>=◌}
use livekit_agent_sdk_go.Permissions.Policy.{
  TrackSource, camera, microphone, screen_share, screen_share_audio, unrecognized,
  ParticipantPermission, PermissionPolicy, no_permission,
}

pub record PermissionChange : Type 0 where
  pub timestamp : ℕ
  pub from : Option ParticipantPermission
  pub to : Option ParticipantPermission
  pub reason : String
  pub approved : Bool

-- Times that are not set are 0.
pub record ParticipantPermissions : Type 0 where
  pub identity : String
  pub current : Option ParticipantPermission
  pub requested : Option ParticipantPermission
  pub last_updated : ℕ
  pub last_requested : ℕ
  pub change_history : List PermissionChange
  pub custom_restrictions : Dict Bool

pub record AgentCapabilities : Type 0 where
  pub can_manage_permissions : Bool
  pub can_send_data : Bool
  pub can_subscribe_to_tracks : Bool
  pub can_publish_tracks : Bool
  pub can_kick_participants : Bool
  pub can_mute_participants : Bool
  pub max_data_message_size : ℕ
  pub allowed_data_recipients : List String

-- The pointer to the capabilities is not nil.
pub record ParticipantPermissionManager : Type 0 where
  pub permissions : Dict ParticipantPermissions
  pub policies : List PermissionPolicy
  pub defaults : Option ParticipantPermission
  pub agent_caps : AgentCapabilities

unfoldable pub new_participant_permission_manager : ParticipantPermissionManager
new_participant_permission_manager = record {
  permissions = [];
  policies = [];
  defaults = some (record no_permission { can_subscribe = true; can_publish_data = true });
  agent_caps = record {
    can_manage_permissions = true;
    can_send_data = true;
    can_subscribe_to_tracks = true;
    can_publish_tracks = true;
    can_kick_participants = false;
    can_mute_participants = false;
    max_data_message_size = 15360;
    allowed_data_recipients = [];
  };
}

-- A participant that is seen for the first time.
unfoldable pub new_participant : String → Option ParticipantPermission → ParticipantPermissions
new_participant id current = record {
  identity = id;
  current = current;
  requested = none;
  last_updated = 0;
  last_requested = 0;
  change_history = [];
  custom_restrictions = [];
}

unfoldable pub participant_or :
    String → Option ParticipantPermission → Option ParticipantPermissions → ParticipantPermissions
unfolding new_participant
participant_or id current none = new_participant id current
participant_or id current (some p) = p

-- The list without all but its last ten entries.
unfoldable pub keep_ten : List PermissionChange → List PermissionChange
keep_ten history = if ltb 10 (length history) then drop (length history - 10) history else history

unfoldable pub record_change :
    Option ParticipantPermission → ℕ → ParticipantPermissions → List PermissionChange
unfolding keep_ten
record_change perms now p = elim p.current [
  | none ↦ p.change_history
  | some c ↦ keep_ten (
      p.change_history
      ++ record {
        timestamp = now;
        from = p.current;
        to = perms;
        reason = "permission_update";
        approved = true;
      }
        ∷ [])
]

unfoldable pub updated :
    Option ParticipantPermission → ℕ → ParticipantPermissions → ParticipantPermissions
unfolding record_change
updated perms now p = record p {
  change_history = record_change perms now p;
  current = perms;
  last_updated = now;
}

unfoldable pub update_participant_permissions :
    String
    → Option ParticipantPermission
    → ℕ
    → ParticipantPermissionManager
    → ParticipantPermissionManager
unfolding participant_or updated
update_participant_permissions id perms now m = record m {
  permissions =
      insert id (updated perms now (participant_or id none (lookup id m.permissions)))
        m.permissions;
}

unfoldable pub remove_participant :
    String → ParticipantPermissionManager → ParticipantPermissionManager
remove_participant id m = record m { permissions = delete id m.permissions }

-- The loop over the allowed recipients.
unfoldable pub listed : String → List String → Bool
listed id [] = false
listed id (recipient ∷ rest) = if str_eq recipient id then true else listed id rest

abbrev pub denies_data : Option ParticipantPermission → Bool
denies_data none = false
denies_data (some c) = not c.can_publish_data

-- `restricted, exists := m[key]; exists && restricted`
abbrev pub is_set : Option Bool → Bool
is_set none = false
is_set (some restricted) = restricted

-- What the participant's own record says against sending.
unfoldable pub blocked : Option ParticipantPermissions → Bool
blocked none = false
blocked (some p) =
    if denies_data p.current then true else is_set (lookup "no_data_receive" p.custom_restrictions)

unfoldable pub can_send_data_to : String → ParticipantPermissionManager → Bool
unfolding listed blocked
can_send_data_to id m =
    if not m.agent_caps.can_send_data
    then false
    else if ltb 0 (length m.agent_caps.allowed_data_recipients)
        && not (listed id m.agent_caps.allowed_data_recipients)
    then false
    else not (blocked (lookup id m.permissions))

unfoldable pub can_manage_permissions : ParticipantPermissionManager → Bool
can_manage_permissions m = m.agent_caps.can_manage_permissions

unfoldable pub valid_source : TrackSource → Bool
valid_source camera = true
valid_source microphone = true
valid_source screen_share = true
valid_source screen_share_audio = true
valid_source (unrecognized n) = false

pub data ValidationError : Type 0 where
  nil_permissions : ValidationError
  invalid_source : TrackSource → ValidationError

-- The first source that the table does not have.
unfoldable pub first_invalid : List TrackSource → Option ValidationError
unfolding valid_source
first_invalid [] = none
first_invalid (s ∷ ss) = if valid_source s then first_invalid ss else some (invalid_source s)

unfoldable pub validate_permissions : Option ParticipantPermission → Option ValidationError
unfolding first_invalid
validate_permissions none = some nil_permissions
validate_permissions (some p) = if p.can_publish then first_invalid p.can_publish_sources else none

-- The loop over the policies: whether all approve, or the reason of the first that does not.
unfoldable pub evaluate_policies :
    ℕ
    → String
    → Option ParticipantPermission
    → Option ParticipantPermission
    → List PermissionPolicy
    → Exec (Bool × String)
evaluate_policies hour id current requested [] = ok (true, "")
evaluate_policies hour id current requested (policy ∷ rest) =
    let later = evaluate_policies hour id current requested rest in
    policy.evaluate hour id current requested
    >>= (λ (r : Bool × String). if r.0 then later else ok (false, r.1))

unfoldable pub request_recorded :
    Option ParticipantPermission
    → ℕ
    → Bool × String
    → ParticipantPermissions
    → ParticipantPermissions
request_recorded requested now (approved, reason) p = record p {
  requested = requested;
  last_requested = now;
  change_history =
      p.change_history
      ++ record {
        timestamp = now;
        from = p.current;
        to = requested;
        reason = reason;
        approved = approved;
      }
        ∷ [];
}

-- The new state, and whether the request is approved; `none` is the error that the agent lacks the
-- capability. The time is the same in all entries that one call writes.
unfoldable pub request_permission_change :
    String
    → Option ParticipantPermission
    → ℕ
    → ℕ
    → ParticipantPermissionManager
    → Exec (ParticipantPermissionManager × Option Bool)
unfolding participant_or evaluate_policies request_recorded
request_permission_change id requested hour now m =
    if not m.agent_caps.can_manage_permissions
    then ok (m, none)
    else (let p = participant_or id m.defaults (lookup id m.permissions) in
        evaluate_policies hour id p.current requested m.policies >>= (λ (r : Bool × String). ok (
          record m { permissions = insert id (request_recorded requested now r p) m.permissions },
          some r.0,
        )))

unfoldable pub add_policy :
    PermissionPolicy → ParticipantPermissionManager → ParticipantPermissionManager
add_policy policy m = record m { policies = m.policies ++ policy ∷ [] }

unfoldable pub set_default_permissions :
    Option ParticipantPermission → ParticipantPermissionManager → ParticipantPermissionManager
set_default_permissions perms m = record m { defaults = perms }

unfoldable pub set_agent_capabilities :
    AgentCapabilities → ParticipantPermissionManager → ParticipantPermissionManager
set_agent_capabilities caps m = record m { agent_caps = caps }

abbrev pub current_or :
    Option ParticipantPermission → Option ParticipantPermissions → Option ParticipantPermission
current_or defaults none = defaults
current_or defaults (some p) = elim p.current [ none ↦ defaults | some c ↦ some c ]

unfoldable pub get_participant_permissions :
    String → ParticipantPermissionManager → Option ParticipantPermission
get_participant_permissions id m = current_or m.defaults (lookup id m.permissions)

unfoldable pub set_custom_restriction :
    String → String → Bool → ParticipantPermissionManager → ParticipantPermissionManager
unfolding participant_or
set_custom_restriction id restriction enabled m =
    let p = participant_or id none (lookup id m.permissions) in
    record m {
      permissions =
          insert id
            (record p { custom_restrictions = insert restriction enabled p.custom_restrictions })
            m.permissions;
    }

abbrev pub history_of : Option ParticipantPermissions → List PermissionChange
history_of none = []
history_of (some p) = p.change_history

unfoldable pub get_permission_history :
    String → ParticipantPermissionManager → List PermissionChange
get_permission_history id m = history_of (lookup id m.permissions)
