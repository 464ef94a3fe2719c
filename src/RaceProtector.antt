-- ===== src/RaceProtector.antt =====
-- pkg/agent/race_protection.go: the guard of the worker against races between disconnection,
-- reconnection, job termination and status updates. Every method is one step: it holds the mutex,
-- or reads one atomic flag, while it looks at the maps. The time of `time.Now()` is an argument;
-- log lines are left out. A callback is a number that names the function, and its calls are events.
pub mod Trace
pub mod Validity
mod Records
pub mod Termination
pub mod Pending
pub mod Status
pub mod Guard
mod Examples
use livekit_agent_sdk_go.Prelude.{
  ℕ, suc, ◌+◌, String, Bool, true, false, not, ◌&&◌, Option, none, some, List, [], ◌∷◌, ltb, ◌==◌,
  if◌then◌else◌, is_some, length, str_eq,
}
use livekit_agent_sdk_go.Prelude.Dict.{Dict, lookup, insert, retain, count_if}

-- livekit.JobStatus, as far as the code names its values. Protobuf enums are open.
pub data JobStatus : Type 0 where
  js_pending js_running js_success js_failed : JobStatus
  unrecognized : ℕ → JobStatus

pub record TerminationState : Type 0 where
  pub job_id : String
  pub requested_at : ℕ
  pub request_count : ℕ
  pub completed_at : Option ℕ
  pub last_error : Option String

pub record StatusUpdate : Type 0 where
  pub job_id : String
  pub status : JobStatus
  pub error : String
  pub timestamp : ℕ
  pub retry_count : ℕ

-- The counters grow by one in a call, so their 64 bits do not overflow.
pub record RaceProtector : Type 0 where
  pub is_disconnecting : Bool
  pub is_reconnecting : Bool
  pub active_terminations : Dict TerminationState
  pub pending_status_updates : Dict StatusUpdate
  pub dropped_jobs_during_disconnect : ℕ
  pub dropped_status_updates : ℕ
  pub on_job_dropped : Option ℕ
  pub on_status_update_queued : Option ℕ

-- A call of a callback with its arguments.
pub data Event : Type 0 where
  job_dropped : ℕ → String → String → Event
  status_update_queued : ℕ → String → Event

unfoldable pub new_race_protector : RaceProtector
new_race_protector = record {
  is_disconnecting = false;
  is_reconnecting = false;
  active_terminations = [];
  pending_status_updates = [];
  dropped_jobs_during_disconnect = 0;
  dropped_status_updates = 0;
  on_job_dropped = none;
  on_status_update_queued = none;
}

unfoldable pub set_disconnecting : Bool → RaceProtector → RaceProtector
set_disconnecting disconnecting p =
    let p' = record p { is_disconnecting = disconnecting } in
    if disconnecting then p' else record p' { dropped_jobs_during_disconnect = 0 }

unfoldable pub set_reconnecting : Bool → RaceProtector → RaceProtector
set_reconnecting reconnecting p =
    let p' = record p { is_reconnecting = reconnecting } in
    if reconnecting then p' else record p' { dropped_status_updates = 0 }

abbrev pub disconnecting_reason : String
disconnecting_reason = "worker is disconnecting"

abbrev pub pending_reason : String
pending_reason = "job has pending termination"

-- The call of `onJobDropped`, if one is set.
abbrev dropped_event : Option ℕ → String → String → List Event
dropped_event none id reason = []
dropped_event (some cb) id reason = job_dropped cb id reason ∷ []

abbrev queued_event : Option ℕ → String → List Event
queued_event none id = []
queued_event (some cb) id = status_update_queued cb id ∷ []

-- hasTermination && !isCompleted
unfoldable pub has_pending_termination : Option TerminationState → Bool
has_pending_termination none = false
has_pending_termination (some t) = not (is_some t.completed_at)

-- The new state, whether the job may be accepted, the reason, and the callback's call.
unfoldable pub can_accept_job : String → RaceProtector → RaceProtector × Bool × String × List Event
unfolding has_pending_termination
can_accept_job id p =
    if p.is_disconnecting
    then (
      record p { dropped_jobs_during_disconnect = p.dropped_jobs_during_disconnect + 1 },
      false,
      disconnecting_reason,
      dropped_event p.on_job_dropped id disconnecting_reason,
    )
    else if has_pending_termination (lookup id p.active_terminations)
    then (p, false, pending_reason, [])
    else (p, true, "", [])

first_request : String → ℕ → TerminationState
first_request id now = record {
  job_id = id;
  requested_at = now;
  request_count = 1;
  completed_at = none;
  last_error = none;
}

repeat_request : TerminationState → TerminationState
repeat_request t = record t { request_count = t.request_count + 1 }

-- What a request for a termination finds in the map, and what it answers.
unfoldable pub record_found : String → ℕ → Option TerminationState → TerminationState × Bool
unfolding first_request repeat_request
record_found id now none = (first_request id now, true)
record_found id now (some t) =
    let t' = repeat_request t in
    if is_some t.completed_at then (t', false) else (t', t'.request_count == 1)

unfoldable pub record_termination_request : String → ℕ → RaceProtector → RaceProtector × Bool
unfolding record_found
record_termination_request id now p =
    let (t, first) = record_found id now (lookup id p.active_terminations) in
    (record p { active_terminations = insert id t p.active_terminations }, first)

unfoldable pub complete_termination : String → Option String → ℕ → RaceProtector → RaceProtector
complete_termination id err now p = elim (lookup id p.active_terminations) [
  | none ↦ p
  | some t ↦ record p {
    active_terminations =
        insert id (record t { completed_at = some now; last_error = err }) p.active_terminations;
  }
]

-- The table of priorities; a status that is not in it has priority 0.
unfoldable pub status_priority : JobStatus → ℕ
status_priority js_pending = 1
status_priority js_running = 2
status_priority js_success = 3
status_priority js_failed = 4
status_priority (unrecognized n) = 0

unfoldable pub should_replace_status : JobStatus → JobStatus → Bool
unfolding status_priority
should_replace_status current new = ltb (status_priority current) (status_priority new)

unfoldable pub merge_update : JobStatus → String → ℕ → StatusUpdate → StatusUpdate
unfolding should_replace_status
merge_update status message now u =
    if should_replace_status u.status status
    then record u { status = status; error = message; timestamp = now }
    else u

fresh_update : String → JobStatus → String → ℕ → StatusUpdate
fresh_update id status message now = record {
  job_id = id;
  status = status;
  error = message;
  timestamp = now;
  retry_count = 0;
}

unfoldable pub store_update :
    String → JobStatus → String → ℕ → Option StatusUpdate → RaceProtector → RaceProtector
unfolding merge_update fresh_update
store_update id status message now none p = record p {
  pending_status_updates = insert id (fresh_update id status message now) p.pending_status_updates;
  dropped_status_updates = p.dropped_status_updates + 1;
}
store_update id status message now (some u) p = record p {
  pending_status_updates = insert id (merge_update status message now u) p.pending_status_updates;
}

unfoldable pub queue_status_update :
    String → JobStatus → String → ℕ → RaceProtector → RaceProtector × Bool × List Event
unfolding store_update
queue_status_update id status message now p =
    if p.is_reconnecting
    then (
      store_update id status message now (lookup id p.pending_status_updates) p,
      true,
      queued_event p.on_status_update_queued id,
    )
    else (p, false, [])

-- The updates in the order of the map's iteration.
abbrev updates_of : Dict StatusUpdate → List StatusUpdate
updates_of [] = []
updates_of ((k, u) ∷ m) = u ∷ updates_of m

unfoldable pub flush_pending_status_updates : RaceProtector → RaceProtector × List StatusUpdate
flush_pending_status_updates p =
    if length p.pending_status_updates == 0
    then (p, [])
    else (record p { pending_status_updates = [] }, updates_of p.pending_status_updates)

-- now.Sub(*CompletedAt) > maxAge, for a maximal age that is not negative
unfoldable pub is_old : ℕ → ℕ → TerminationState → Bool
is_old max_age now t = elim t.completed_at [ none ↦ false | some c ↦ ltb (c + max_age) now ]

-- The cleaned protector, and how many records were deleted.
unfoldable pub cleanup_old_terminations : ℕ → ℕ → RaceProtector → RaceProtector × ℕ
unfolding is_old
cleanup_old_terminations max_age now p = (
  record p { active_terminations = retain (λ t. not (is_old max_age now t)) p.active_terminations },
  count_if (is_old max_age now) p.active_terminations,
)

unfoldable pub set_on_job_dropped : Option ℕ → RaceProtector → RaceProtector
set_on_job_dropped cb p = record p { on_job_dropped = cb }

unfoldable pub set_on_status_update_queued : Option ℕ → RaceProtector → RaceProtector
set_on_status_update_queued cb p = record p { on_status_update_queued = cb }

pub record Metrics : Type 0 where
  pub is_disconnecting : Bool
  pub is_reconnecting : Bool
  pub active_terminations : ℕ
  pub pending_status_updates : ℕ
  pub dropped_jobs_during_disconnect : ℕ
  pub dropped_status_updates : ℕ

unfoldable pub get_metrics : RaceProtector → Metrics
get_metrics p = record {
  is_disconnecting = p.is_disconnecting;
  is_reconnecting = p.is_reconnecting;
  active_terminations = length p.active_terminations;
  pending_status_updates = length p.pending_status_updates;
  dropped_jobs_during_disconnect = p.dropped_jobs_during_disconnect;
  dropped_status_updates = p.dropped_status_updates;
}

-- How a function that the guard runs ends: it returns an error or nil, or it panics.
pub data Outcome : Type 0 where
  returned : Option String → Outcome
  panicked : Outcome

pub data GuardResult : Type 0 where
  cannot_accept : String → GuardResult
  concurrent_termination : GuardResult
  finished : Outcome → GuardResult

pub record RaceProtectionGuard : Type 0 where
  pub job_id : String
  pub operation : String

-- `fn` may use the protector itself. The deferred call runs whether `fn` returns or panics. The
-- events are those of the guard's own calls.
unfoldable pub execute :
    RaceProtectionGuard
    → (RaceProtector → RaceProtector × Outcome)
    → ℕ
    → ℕ
    → RaceProtector
    → RaceProtector × GuardResult × List Event
execute g fn now later p =
    if str_eq g.operation "job_accept"
    then (let (q, can_accept, reason, calls) = can_accept_job g.job_id p in
        if can_accept then finish (fn q) calls else (q, cannot_accept reason, calls))
    else if str_eq g.operation "termination"
    then (let (q, first) = record_termination_request g.job_id now p in
        if first
        then (let (r, outcome) = fn q in
            finish (complete_termination g.job_id none later r, outcome) [])
        else (q, concurrent_termination, []))
    else finish (fn p) []
  where
    finish : RaceProtector × Outcome → List Event → RaceProtector × GuardResult × List Event
    finish (q, outcome) calls = (q, finished outcome, calls)
