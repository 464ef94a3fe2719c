-- ===== src/NetworkHandler/Writes.antt =====
-- Writes that are retried (pkg/agent/network_handler.go).
use livekit_agent_sdk_go.Prelude.{
  ℕ, ◌≤◌, ◌≡◌, refl, Bool-cases, true, false, none, some, List, [], arith, ltb, ◌==◌, ==_iff,
  if◌then◌else◌, length, inl, inr, ap,
}
use livekit_agent_sdk_go.NetworkHandler.Errors.{WriteError, is_temporary}
use livekit_agent_sdk_go.NetworkHandler.{
  NetworkHandler, Connection, sent, write_message_with_retry, choose_message, after_error,
  clear_partial_write, has_partial_write,
}

-- A connection that takes the message, and one that fails with an error.
abbrev pub working : Connection
working = record { set_deadline_error = none; write_error = none }

abbrev pub failing : WriteError → Connection
failing err = record { set_deadline_error = none; write_error = some err }

-- What a working connection is given while a message is pending: the pending one, if the new one has
-- its type, else the new one. The call answers nil and keeps nothing, so the other of the two is
-- never sent.
pub one_of_two_sent :
    (now t : ℕ) (bytes : List ℕ) (n : NetworkHandler)
    → 1 ≤ length n.partial_write_buffer
    → ((write_message_with_retry working now t bytes n).1 ≡ sent)
      × ((write_message_with_retry working now t bytes n).2
          ≡ some (t, (if n.partial_write_message_type == t then n.partial_write_buffer else bytes)))
      × ((write_message_with_retry working now t bytes n).0.partial_write_buffer ≡ [])
unfolding write_message_with_retry choose_message clear_partial_write
one_of_two_sent now t bytes n h =
    let pending : ltb 0 (length n.partial_write_buffer) ≡ true = ground arith in
    elim (Bool-cases (n.partial_write_message_type == t)) [
      | inl e ↦
          rw (pending, e)
            (refl, ap (λ x. some (x, n.partial_write_buffer)) ((==_iff _ t).0 e), refl)
      | inr e ↦ rw (pending, e) (refl, refl, refl)
    ]

-- A message that fails with a temporary error while none is pending is kept, and the next call for
-- its type sends exactly it, whatever bytes that call brings, and leaves nothing pending.
pub retry_sends :
    (now later t : ℕ) (bytes other : List ℕ) (err : WriteError) (n : NetworkHandler)
    → n.partial_write_buffer ≡ []
    → is_temporary err ≡ true
    → 1 ≤ length bytes
    → ((write_message_with_retry working later t other
          (write_message_with_retry (failing err) now t bytes n).0).1
        ≡ sent)
      × ((write_message_with_retry working later t other
            (write_message_with_retry (failing err) now t bytes n).0).2
          ≡ some (t, bytes))
      × (has_partial_write
            (write_message_with_retry working later t other
              (write_message_with_retry (failing err) now t bytes n).0).0
          ≡ false)
unfolding write_message_with_retry choose_message clear_partial_write after_error has_partial_write
retry_sends now later t bytes other err n none_pending temporary some_bytes =
    let empty : ltb 0 (length n.partial_write_buffer) ≡ false =
      ground (arith, ap length none_pending) in
    let kept : ltb 0 (length bytes) ≡ true = ground arith in
    rw (empty, temporary, kept) (ground arith, ground arith, ground arith)
