-- ===== src/ProtocolHandler.antt =====
-- pkg/agent/protocol_handler.go: the version of the server's protocol, unknown messages, the registry of
-- message types, the negotiation of a version and the upgrade. Texts whose order matters are lists of
-- ASCII codes.
pub mod Versions
pub mod Calls
mod Examples
use livekit_agent_sdk_go.Prelude.{
  ℕ, ◌+◌, String, Bool, true, false, not, ◌&&◌, ◌||◌, Option, none, some, is_some, List, [], ◌∷◌,
  ltb, ◌==◌, if◌then◌else◌, str_eq,
}
use livekit_agent_sdk_go.Prelude.Dict.{Dict, lookup, insert}
use livekit_agent_sdk_go.NetworkHandler.Errors.{codes_of}

-- Go's order of texts.
unfoldable pub text_less : List ℕ → List ℕ → Bool
text_less [] [] = false
text_less [] (c ∷ cs) = true
text_less (b ∷ bs) [] = false
text_less (b ∷ bs) (c ∷ cs) =
    let rest = text_less bs cs in if ltb b c then true else if b == c then rest else false

-- "1.0.0", "0.9.0" and "2.0.0"
abbrev pub current_protocol_version : List ℕ
current_protocol_version = 49 ∷ 46 ∷ 48 ∷ 46 ∷ 48 ∷ []

abbrev pub min_supported_version : List ℕ
min_supported_version = 48 ∷ 46 ∷ 57 ∷ 46 ∷ 48 ∷ []

abbrev pub max_supported_version : List ℕ
max_supported_version = 50 ∷ 46 ∷ 48 ∷ 46 ∷ 48 ∷ []

-- The counts are int64.
pub record ProtocolHandler : Type 0 where
  pub server_version : List ℕ
  pub negotiated_version : List ℕ
  pub unknown_message_count : ℕ
  pub unsupported_message_types : Dict ℕ
  pub version_mismatch_detected : Bool
  pub strict_mode : Bool

unfoldable pub new_protocol_handler : ProtocolHandler
new_protocol_handler = record {
  server_version = [];
  negotiated_version = [];
  unknown_message_count = 0;
  unsupported_message_types = [];
  version_mismatch_detected = false;
  strict_mode = false;
}

unfoldable pub is_version_compatible : List ℕ → Bool
unfolding text_less
is_version_compatible version =
    not (text_less version min_supported_version || text_less max_supported_version version)

-- The version that is agreed on, and whether a mismatch is detected.
unfoldable pub negotiate_version : List ℕ → List ℕ × Bool
unfolding is_version_compatible
negotiate_version [] = (current_protocol_version, false)
negotiate_version (c ∷ cs) = (c ∷ cs, not (is_version_compatible (c ∷ cs)))

unfoldable pub set_server_version : List ℕ → ProtocolHandler → ProtocolHandler
unfolding negotiate_version
set_server_version version p =
    let (agreed, mismatch) = negotiate_version version in
    record p {
      server_version = version;
      negotiated_version = agreed;
      version_mismatch_detected = p.version_mismatch_detected || mismatch;
    }

abbrev pub count_of : Option ℕ → ℕ
count_of none = 0
count_of (some n) = n

-- The handler after the call, and whether it returns an error.
unfoldable pub handle_unknown_message : String → ProtocolHandler → ProtocolHandler × Bool
handle_unknown_message msg_type p = (
  record p {
    unknown_message_count = p.unknown_message_count + 1;
    unsupported_message_types =
        insert msg_type (count_of (lookup msg_type p.unsupported_message_types) + 1)
          p.unsupported_message_types;
  },
  p.strict_mode,
)

unfoldable pub set_strict_mode : Bool → ProtocolHandler → ProtocolHandler
set_strict_mode strict p = record p { strict_mode = strict }

-- A message from the server: nil, a registration with the version of its server info, or another one
-- (as is a registration without server info).
pub data ServerMessage : Type 0 where
  nil_message : ServerMessage
  register_with : List ℕ → ServerMessage
  other_message : ServerMessage

pub data ProtocolError : Type 0 where
  nil_message_error : ProtocolError
  incompatible_version : List ℕ → ProtocolError

unfoldable pub validate_protocol_message :
    ServerMessage → ProtocolHandler → ProtocolHandler × Option ProtocolError
unfolding set_server_version
validate_protocol_message nil_message p = (p, some nil_message_error)
validate_protocol_message other_message p = (p, none)
validate_protocol_message (register_with version) p =
    let q = set_server_version version p in
    (
      q,
      (if q.version_mismatch_detected && q.strict_mode
          then some (incompatible_version version)
          else none),
    )

-- MessageTypeRegistry: a handler is a number that names it.
pub record MessageTypeRegistry : Type 0 where
  pub handlers : Dict ℕ

unfoldable pub register_handler : String → ℕ → MessageTypeRegistry → MessageTypeRegistry
register_handler msg_type handler r = record { handlers = insert msg_type handler r.handlers }

-- The handler that is called, or none for the error that there is none.
unfoldable pub handle_message : String → MessageTypeRegistry → Option ℕ
handle_message msg_type r = lookup msg_type r.handlers

unfoldable pub has_handler : String → MessageTypeRegistry → Bool
has_handler msg_type r = is_some (lookup msg_type r.handlers)

-- ProtocolNegotiator: the inner and the outer loop.
unfoldable pub offers : String → List String → Bool
offers version [] = false
offers version (v ∷ vs) = str_eq version v || offers version vs

unfoldable pub negotiate : List String → List String → Option String
unfolding offers
negotiate [] server = none
negotiate (v ∷ supported) server = if offers v server then some v else negotiate supported server

-- How the upgrade function ends before the timeout, or that it does not.
pub data UpgradeEnd : Type 0 where
  upgraded : UpgradeEnd
  upgrade_error : String → UpgradeEnd
  upgrade_late : UpgradeEnd

pub data UpgradeError : Type 0 where
  failed : String → UpgradeError
  failed_and_rolled_back : String → UpgradeError
  rollback_failed : String → String → UpgradeError
  timed_out : UpgradeError

-- The answer of a rollback function, if there is one: none inside is nil.
unfoldable pub after_failure : String → Option (Option String) → UpgradeError
after_failure err none = failed err
after_failure err (some none) = failed_and_rolled_back err
after_failure err (some (some second)) = rollback_failed err second

-- Whether the rollback function is called, and the error.
unfoldable pub perform_upgrade : UpgradeEnd → Option (Option String) → Bool × Option UpgradeError
unfolding after_failure
perform_upgrade upgraded rollback = (false, none)
perform_upgrade (upgrade_error err) rollback = (is_some rollback, some (after_failure err rollback))
perform_upgrade upgrade_late rollback = (is_some rollback, some timed_out)
