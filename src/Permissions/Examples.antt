-- ===== src/Permissions/Examples.antt =====
-- Concrete runs of the permission manager.
use mathlib.Core.List.{Mem}
use livekit_agent_sdk_go.Prelude.{
  ◌+◌, ◌≡◌, ◌↔◌, ◌⊎◌, refl, true, false, ◌&&◌, none, some, List, [], ◌∷◌, length, str_eq,
  if◌then◌else◌,
}
use livekit_agent_sdk_go.Prelude.Suffix.{last_of}
use livekit_agent_sdk_go.Prelude.Dict.{lookup}
use livekit_agent_sdk_go.Prelude.Exec.{Returns}
use livekit_agent_sdk_go.Permissions.Policy.{
  ParticipantPermission, PermissionPolicy, role_based_policy, time_based_policy,
  time_based_evaluate, outside, viewer, camera, unrecognized, outside_hours,
}
use livekit_agent_sdk_go.Permissions.{
  ParticipantPermissionManager, new_participant_permission_manager, add_policy,
  request_permission_change, get_participant_permissions, get_permission_history, can_send_data_to,
  set_custom_restriction,
}
use livekit_agent_sdk_go.Permissions.History.{Updates, update_all, changes, updates_history}
use livekit_agent_sdk_go.Permissions.Requests.{request_correct}
use livekit_agent_sdk_go.Permissions.Sending.{Objects, can_send_iff}

abbrev publisher : ParticipantPermission
publisher = record viewer { can_publish = true; can_publish_sources = camera ∷ unrecognized 9 ∷ [] }

abbrev updates : Updates
updates = (some viewer, 1) ∷ (some publisher, 2) ∷ (none, 3) ∷ (some viewer, 4) ∷ []

updates_history_example :
    get_permission_history "ann" (update_all "ann" updates new_participant_permission_manager)
    ≡ last_of 10 (changes none updates)
unfolding new_participant_permission_manager lookup
updates_history_example = updates_history "ann" updates new_participant_permission_manager refl

-- The update to nil is a change, and the one after it is not.
two_changes : length (changes none updates) ≡ 2
unfolding changes
two_changes = refl

abbrev by_day : List PermissionPolicy
by_day = role_based_policy ∷ time_based_policy 8 20 ∷ []

abbrev guarded : ParticipantPermissionManager
guarded =
    add_policy (time_based_policy 8 20)
      (add_policy role_based_policy new_participant_permission_manager)

request_correct_example :
    Returns
      (λ r.
        (get_participant_permissions "ann" r.0 ≡ get_participant_permissions "ann" guarded)
        × (length (get_permission_history "ann" r.0)
            ≡ length (get_permission_history "ann" guarded)
              + (if guarded.agent_caps.can_manage_permissions && str_eq "ann" "ann" then 1 else 0)))
      (request_permission_change "ann" (some publisher) 22 5 guarded)
unfolding new_participant_permission_manager add_policy role_based_policy time_based_policy
    time_based_evaluate outside
request_correct_example =
    request_correct "ann" "ann" (some publisher) 22 5 guarded
      (((true, "role_based_approval"), refl), (((false, outside_hours), refl), tt))

abbrev quiet : ParticipantPermissionManager
quiet = set_custom_restriction "ann" "no_data_receive" true new_participant_permission_manager

can_send_iff_example : (can_send_data_to "ann" quiet ≡ true) ↔ (
    (quiet.agent_caps.can_send_data ≡ true)
    × ((quiet.agent_caps.allowed_data_recipients ≡ [])
        ⊎ Mem "ann" quiet.agent_caps.allowed_data_recipients)
    × ¬ Objects (lookup "ann" quiet.permissions))
can_send_iff_example = can_send_iff "ann" quiet
