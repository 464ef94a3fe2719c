-- ===== src/ProtocolHandler/Versions.antt =====
-- The versions that the protocol handler takes for compatible (pkg/agent/protocol_handler.go).
use livekit_agent_sdk_go.Prelude.{ℕ, ◌≡◌, refl, true, false, List, ◌∷◌}
use livekit_agent_sdk_go.ProtocolHandler.{text_less, is_version_compatible}

-- Every text that starts with the digit 1 is compatible, such as "10.0.0", and no text that starts with
-- "0.1" is, such as "0.10.0", the successor of the oldest version that is supported.
pub compatible_by_text :
    (rest : List ℕ)
    → (is_version_compatible (49 ∷ rest) ≡ true)
      × (is_version_compatible (48 ∷ 46 ∷ 49 ∷ rest) ≡ false)
unfolding is_version_compatible text_less
compatible_by_text rest = (refl, refl)
