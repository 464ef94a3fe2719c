-- ===== src/ProtocolHandler/Examples.antt =====
-- Concrete runs of the protocol handler.
use livekit_agent_sdk_go.Prelude.{◌≡◌, refl, true, none, some, List, [], ◌∷◌}
use livekit_agent_sdk_go.ProtocolHandler.{
  ProtocolHandler, new_protocol_handler, set_server_version, negotiate_version,
  is_version_compatible, text_less, set_strict_mode, validate_protocol_message, register_with,
  incompatible_version, perform_upgrade, upgrade_late, timed_out, current_protocol_version,
  negotiate, offers,
}
use livekit_agent_sdk_go.ProtocolHandler.Calls.{
  Call, unknown, sets_strict, calls, reports, all_reports, seen, unknown_counted, mismatch_sticks,
}

abbrev history : List Call
history = unknown "a" ∷ sets_strict true ∷ unknown "b" ∷ unknown "a" ∷ []

unknown_counted_example :
    (seen "a" (calls history new_protocol_handler) ≡ 2)
    × ((calls history new_protocol_handler).unknown_message_count ≡ 3)
unfolding reports all_reports
unknown_counted_example = unknown_counted "a" history

-- A handler that has seen the version "3".
abbrev mismatched : ProtocolHandler
mismatched = set_server_version (51 ∷ []) new_protocol_handler

mismatch_sticks_example :
    (validate_protocol_message
      (register_with current_protocol_version)
      (set_strict_mode true (calls (unknown "a" ∷ []) mismatched))).1
    ≡ some (incompatible_version current_protocol_version)
unfolding set_server_version negotiate_version is_version_compatible text_less new_protocol_handler
mismatch_sticks_example =
    mismatch_sticks (unknown "a" ∷ []) current_protocol_version mismatched refl

late_upgrade : perform_upgrade upgrade_late (some none) ≡ (true, some timed_out)
unfolding perform_upgrade
late_upgrade = refl

first_supported : negotiate ("1.0.0" ∷ "0.9.0" ∷ []) ("0.9.0" ∷ "1.0.0" ∷ []) ≡ some "1.0.0"
unfolding negotiate offers
first_supported = refl
