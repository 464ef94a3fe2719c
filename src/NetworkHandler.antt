-- ===== src/NetworkHandler.antt =====
-- pkg/agent/network_handler.go: writes that are retried, the detection of network partitions, and the
-- retries of DNS lookups. Bytes and the characters of error texts are numbers. What the connection
-- and the resolver answer, and the time, are arguments.
pub mod Errors
pub mod Writes
pub mod Lookups
mod Examples
use livekit_agent_sdk_go.Prelude.{
  ℕ, suc, zero, ◌+◌, Bool, true, false, not, ◌&&◌, Option, none, some, List, [], ◌∷◌, ltb, ◌==◌,
  if◌then◌else◌, length,
}
use livekit_agent_sdk_go.NetworkHandler.Errors.{WriteError, is_temporary, is_network_error}

-- A nil buffer is the empty one: the methods below only ask for its length.
pub record NetworkHandler : Type 0 where
  pub partial_write_buffer : List ℕ
  pub partial_write_offset : ℕ
  pub partial_write_message_type : ℕ
  pub last_network_activity : ℕ
  pub network_partition_detected : Bool
  pub dns_failure_count : ℕ
  pub max_dns_retries : ℕ
  pub partition_timeout : ℕ

unfoldable pub new_network_handler : ℕ → NetworkHandler
new_network_handler now = record {
  partial_write_buffer = [];
  partial_write_offset = 0;
  partial_write_message_type = 0;
  last_network_activity = now;
  network_partition_detected = false;
  dns_failure_count = 0;
  max_dns_retries = 3;
  partition_timeout = 30000000000;
}

unfoldable pub clear_partial_write : NetworkHandler → NetworkHandler
clear_partial_write n = record n {
  partial_write_buffer = [];
  partial_write_offset = 0;
  partial_write_message_type = 0;
}

-- What the connection answers: to SetWriteDeadline, and to WriteMessage.
pub record Connection : Type 0 where
  pub set_deadline_error : Option WriteError
  pub write_error : Option WriteError

pub data WriteResult : Type 0 where
  sent : WriteResult
  deadline_failed : WriteError → WriteResult
  will_retry : WriteError → WriteResult
  network_failed : WriteError → WriteResult
  write_failed : WriteError → WriteResult

-- The look at the partial write in progress: the handler, and the message that is written.
unfoldable pub choose_message : ℕ → List ℕ → NetworkHandler → NetworkHandler × ℕ × List ℕ
unfolding clear_partial_write
choose_message message_type bytes n =
    if ltb 0 (length n.partial_write_buffer)
    then (if not (n.partial_write_message_type == message_type)
        then (clear_partial_write n, message_type, bytes)
        else (n, n.partial_write_message_type, n.partial_write_buffer))
    else (n, message_type, bytes)

-- What follows an error of WriteMessage.
unfoldable pub after_error : ℕ → List ℕ → WriteError → NetworkHandler → NetworkHandler × WriteResult
after_error message_type bytes err n =
    if is_temporary err
    then (
      record n {
        partial_write_buffer = bytes;
        partial_write_message_type = message_type;
        partial_write_offset = 0;
      },
      will_retry err,
    )
    else if is_network_error err
    then (record n { network_partition_detected = true }, network_failed err)
    else (n, write_failed err)

-- The new state, the result, and the message that was given to the connection, if any.
unfoldable pub write_message_with_retry :
    Connection
    → ℕ
    → ℕ
    → List ℕ
    → NetworkHandler
    → NetworkHandler × WriteResult × Option (ℕ × List ℕ)
unfolding choose_message after_error clear_partial_write
write_message_with_retry conn now message_type bytes n =
    let (n', message_type', bytes') = choose_message message_type bytes n in
    elim conn.set_deadline_error [
      | some err ↦ (n', deadline_failed err, none)
      | none ↦ elim conn.write_error [
        | some err ↦
            let (failed, result) = after_error message_type' bytes' err n' in
            (failed, result, some (message_type', bytes'))
        | none ↦ (
          record (clear_partial_write n') {
            last_network_activity = now;
            network_partition_detected = false;
          },
          sent,
          some (message_type', bytes'),
        )
      ]
    ]

unfoldable pub has_partial_write : NetworkHandler → Bool
has_partial_write n = ltb 0 (length n.partial_write_buffer)

unfoldable pub get_dns_failure_count : NetworkHandler → ℕ
get_dns_failure_count n = n.dns_failure_count

-- time.Since(lastNetworkActivity) > partitionTimeout
unfoldable pub detect_network_partition : ℕ → NetworkHandler → Bool
detect_network_partition now n =
    if n.network_partition_detected
    then true
    else ltb (n.last_network_activity + n.partition_timeout) now

unfoldable pub update_network_activity : ℕ → NetworkHandler → NetworkHandler
update_network_activity now n = record n {
  last_network_activity = now;
  network_partition_detected = false;
}

unfoldable pub set_network_partition : Bool → NetworkHandler → NetworkHandler
set_network_partition detected n = record n { network_partition_detected = detected }

-- What one lookup answers: the addresses, a DNS error that is temporary or says that there is no such
-- host, or another error.
pub data Lookup : Type 0 where
  addresses : List ℕ → Lookup
  temporary not_found other_error : Lookup

-- The rounds of the loop: whether the context is done before a lookup, what the lookup answers, and
-- whether the context is done in the wait after it. They are numbered by the failures so far.
pub record Resolver : Type 0 where
  pub done_before : ℕ → Bool
  pub answer : ℕ → Lookup
  pub done_waiting : ℕ → Bool

pub data Resolution : Type 0 where
  resolved : List ℕ → Resolution
  context_done : Resolution
  host_not_found : Resolution
  gave_up : ℕ → Resolution

unfoldable pub count_failure : NetworkHandler → NetworkHandler
count_failure n = record n { dns_failure_count = n.dns_failure_count + 1 }

-- The loop with the number of rounds left and of failures so far. After a failure, a temporary DNS
-- error waits in any case, another error only if a round is left.
unfoldable pub resolve_loop : Resolver → ℕ → ℕ → NetworkHandler → NetworkHandler × Resolution
unfolding count_failure
resolve_loop env zero retries n = (n, gave_up retries)
resolve_loop env (suc left) retries n =
    let later = resolve_loop env left (suc retries) (count_failure n) in
    if env.done_before retries then (n, context_done) else elim (env.answer retries) [
      | addresses found ↦ (record n { dns_failure_count = 0 }, resolved found)
      | not_found ↦ (count_failure n, host_not_found)
      | temporary ↦ if env.done_waiting retries then (count_failure n, context_done) else later
      | other_error ↦
          if ltb 0 left && env.done_waiting retries then (count_failure n, context_done) else later
    ]

unfoldable pub resolve_dns_with_retry : Resolver → NetworkHandler → NetworkHandler × Resolution
unfolding resolve_loop
resolve_dns_with_retry env n = resolve_loop env n.max_dns_retries 0 n

-- RetryableWriteMessage
pub record RetryableWriteMessage : Type 0 where
  pub message_type : ℕ
  pub bytes : List ℕ
  pub retries : ℕ
  pub max_retries : ℕ

unfoldable pub can_retry : RetryableWriteMessage → Bool
can_retry r = ltb r.retries r.max_retries

unfoldable pub increment_retries : RetryableWriteMessage → RetryableWriteMessage
increment_retries r = record r { retries = r.retries + 1 }
