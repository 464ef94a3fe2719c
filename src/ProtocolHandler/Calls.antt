-- ===== src/ProtocolHandler/Calls.antt =====
-- The protocol handler over any series of calls (pkg/agent/protocol_handler.go).
use livekit_agent_sdk_go.Prelude.{
  ℕ, ◌+◌, ◌≡◌, refl, ap, ◌∙◌, Bool, true, ◌&&◌, ◌||◌, Bool-cases, List, [], ◌∷◌, if◌then◌else◌,
  none, some, String, arith, inl, inr, str_eq, eq_iff,
}
use livekit_agent_sdk_go.Prelude.Dict.{lookup, lookup-insert}
use livekit_agent_sdk_go.ProtocolHandler.{
  ProtocolHandler, ServerMessage, nil_message, register_with, other_message, incompatible_version,
  count_of, new_protocol_handler, set_server_version, negotiate_version, handle_unknown_message,
  set_strict_mode, validate_protocol_message,
}

pub data Call : Type 0 where
  sets_version : List ℕ → Call
  unknown : String → Call
  sets_strict : Bool → Call
  validates : ServerMessage → Call

unfoldable pub call : Call → ProtocolHandler → ProtocolHandler
unfolding set_server_version handle_unknown_message set_strict_mode validate_protocol_message
call (sets_version v) p = set_server_version v p
call (unknown t) p = (handle_unknown_message t p).0
call (sets_strict b) p = set_strict_mode b p
call (validates m) p = (validate_protocol_message m p).0

unfoldable pub calls : List Call → ProtocolHandler → ProtocolHandler
unfolding call
calls [] p = p
calls (c ∷ cs) p = calls cs (call c p)

-- How often the calls report an unknown message of the type, and of any type.
unfoldable pub reports : String → List Call → ℕ
reports t [] = 0
reports t (unknown u ∷ cs) = let n = reports t cs in if str_eq u t then n + 1 else n
reports t (sets_version v ∷ cs) = reports t cs
reports t (sets_strict b ∷ cs) = reports t cs
reports t (validates m ∷ cs) = reports t cs

unfoldable pub all_reports : List Call → ℕ
all_reports [] = 0
all_reports (unknown u ∷ cs) = all_reports cs + 1
all_reports (sets_version v ∷ cs) = all_reports cs
all_reports (sets_strict b ∷ cs) = all_reports cs
all_reports (validates m ∷ cs) = all_reports cs

unfoldable pub seen : String → ProtocolHandler → ℕ
seen t p = count_of (lookup t p.unsupported_message_types)

validate-seen :
    (t : String) (m : ServerMessage) (p : ProtocolHandler)
    → (seen t (validate_protocol_message m p).0 ≡ seen t p)
      × ((validate_protocol_message m p).0.unknown_message_count ≡ p.unknown_message_count)
unfolding validate_protocol_message set_server_version seen
validate-seen t nil_message p = (refl, refl)
validate-seen t other_message p = (refl, refl)
validate-seen t (register_with v) p = (refl, refl)

unknown-seen :
    (t u : String) (p : ProtocolHandler)
    → seen t (handle_unknown_message u p).0 ≡ (if str_eq u t then seen t p + 1 else seen t p)
unfolding handle_unknown_message seen
unknown-seen t u p =
    let found =
      lookup-insert u t (count_of (lookup u p.unsupported_message_types) + 1)
        p.unsupported_message_types in
    elim (Bool-cases (str_eq u t)) [
      | inl same ↦ rw same (
          ap count_of found
          ∙ rw same
              (ap (λ x. count_of (lookup x p.unsupported_message_types) + 1) ((eq_iff u t).0 same)))
      | inr other ↦ rw other (ap count_of found ∙ rw other refl)
    ]

unknown-count :
    (u : String) (p : ProtocolHandler)
    → (handle_unknown_message u p).0.unknown_message_count ≡ p.unknown_message_count + 1
unfolding handle_unknown_message
unknown-count u p = refl

calls-seen :
    (t : String) (cs : List Call) (p : ProtocolHandler)
    → (seen t (calls cs p) ≡ seen t p + reports t cs)
      × ((calls cs p).unknown_message_count ≡ p.unknown_message_count + all_reports cs)
unfolding calls call reports all_reports set_server_version set_strict_mode seen
calls-seen t [] p = (omega arith, omega arith)
calls-seen t (unknown u ∷ cs) p =
    let rest = calls-seen t cs (handle_unknown_message u p).0 in
    (ground (arith, rest.0, unknown-seen t u p), rest.1 ∙ omega (arith, unknown-count u p))
calls-seen t (sets_version v ∷ cs) p = calls-seen t cs (set_server_version v p)
calls-seen t (sets_strict b ∷ cs) p = calls-seen t cs (set_strict_mode b p)
calls-seen t (validates m ∷ cs) p =
    let rest = calls-seen t cs (validate_protocol_message m p).0 in
    let same = validate-seen t m p in
    (rest.0 ∙ ap (λ n. n + reports t cs) same.0, rest.1 ∙ ap (λ n. n + all_reports cs) same.1)

-- After any calls on a new handler, the count of each type is the number of unknown messages of that
-- type, and the count of all is the number of all unknown messages, in strict mode or not.
pub unknown_counted :
    (t : String) (cs : List Call)
    → (seen t (calls cs new_protocol_handler) ≡ reports t cs)
      × ((calls cs new_protocol_handler).unknown_message_count ≡ all_reports cs)
unfolding new_protocol_handler seen lookup reports
unknown_counted t cs =
    let counted = calls-seen t cs new_protocol_handler in
    (counted.0 ∙ omega arith, counted.1 ∙ omega arith)

validate-mismatch :
    (m : ServerMessage) (p : ProtocolHandler)
    → p.version_mismatch_detected ≡ true
    → (validate_protocol_message m p).0.version_mismatch_detected ≡ true
unfolding validate_protocol_message set_server_version
validate-mismatch nil_message p h = h
validate-mismatch other_message p h = h
validate-mismatch (register_with v) p h = ap (λ b. b || (negotiate_version v).1) h

calls-mismatch :
    (cs : List Call) (p : ProtocolHandler)
    → p.version_mismatch_detected ≡ true
    → (calls cs p).version_mismatch_detected ≡ true
unfolding calls call set_server_version set_strict_mode handle_unknown_message
calls-mismatch [] p h = h
calls-mismatch (sets_version v ∷ cs) p h =
    calls-mismatch cs (set_server_version v p) (ap (λ b. b || (negotiate_version v).1) h)
calls-mismatch (unknown t ∷ cs) p h = calls-mismatch cs (handle_unknown_message t p).0 h
calls-mismatch (sets_strict b ∷ cs) p h = calls-mismatch cs (set_strict_mode b p) h
calls-mismatch (validates m ∷ cs) p h =
    calls-mismatch cs (validate_protocol_message m p).0 (validate-mismatch m p h)

-- Once a mismatch has been detected, no calls make it forgotten: in strict mode every later
-- registration is refused, also one with a version that is compatible.
pub mismatch_sticks :
    (cs : List Call) (v : List ℕ) (p : ProtocolHandler)
    → p.version_mismatch_detected ≡ true
    → (validate_protocol_message (register_with v) (set_strict_mode true (calls cs p))).1
      ≡ some (incompatible_version v)
unfolding validate_protocol_message set_server_version set_strict_mode
mismatch_sticks cs v p h =
    ap (λ b. if (b || (negotiate_version v).1) && true then some (incompatible_version v) else none)
      (calls-mismatch cs p h)
