-- ===== src/JobRecovery/PartialMessages.antt =====
-- PartialMessageBuffer (pkg/agent/job_recovery.go): a buffer for messages that arrive in parts.
-- Whether bytes are a JSON text is a test that the definitions are given.
use livekit_agent_sdk_go.Prelude.{
  ℕ, ◌+◌, Bool, true, false, not, ◌&&◌, Option, none, some, List, [], ◌++◌, ltb, ◌==◌,
  if◌then◌else◌, length,
}
use livekit_agent_sdk_go.Prelude.Int.{ℤ, pos, negsuc}

pub record PartialMessageBuffer : Type 0 where
  pub buffer : List ℕ
  pub message_type : ℕ
  pub last_update : ℕ
  pub max_size : ℕ

-- 1 MB, if the size that is asked for is not positive.
abbrev pub size_or_default : ℤ → ℕ
size_or_default (pos n) = if n == 0 then 1048576 else n
size_or_default (negsuc n) = 1048576

unfoldable pub new_partial_message_buffer : ℤ → PartialMessageBuffer
new_partial_message_buffer max_size = record {
  buffer = [];
  message_type = 0;
  last_update = 0;
  max_size = size_or_default max_size;
}

-- A new type of message throws away what is there.
unfoldable pub start_message : ℕ → ℕ → PartialMessageBuffer → PartialMessageBuffer
start_message message_type now b = record b {
  buffer = if not (b.message_type == message_type) && ltb 0 (length b.buffer) then [] else b.buffer;
  message_type = message_type;
  last_update = now;
}

-- The buffer after the call, and whether the data was taken.
unfoldable pub append_part : ℕ → List ℕ → ℕ → PartialMessageBuffer → PartialMessageBuffer × Bool
unfolding start_message
append_part message_type part now b =
    let b' = start_message message_type now b in
    if ltb b'.max_size (length b'.buffer + length part)
    then (b', false)
    else (record b' { buffer = b'.buffer ++ part }, true)

-- Message type 1 is text.
unfoldable pub get_complete :
    (List ℕ → Bool) → PartialMessageBuffer → PartialMessageBuffer × Option (ℕ × List ℕ)
get_complete is_json b =
    if length b.buffer == 0
    then (b, none)
    else if b.message_type == 1 && is_json b.buffer
    then (record b { buffer = [] }, some (b.message_type, b.buffer))
    else (b, none)

unfoldable pub clear_parts : PartialMessageBuffer → PartialMessageBuffer
clear_parts b = record b { buffer = [] }

unfoldable pub is_stale : ℕ → ℕ → PartialMessageBuffer → Bool
is_stale timeout now b = ltb (b.last_update + timeout) now
