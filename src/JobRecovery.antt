-- ===== src/JobRecovery.antt =====
-- pkg/agent/job_recovery.go: jobs that are saved to be recovered after a reconnection. The handler's
-- decision and the connection to the room are given by the environment of an attempt. The goroutines
-- of an attempt work on different jobs, and hold a mutex for each change of the pending jobs and of the
-- results; the loop that starts them writes its own results without that mutex (has_race).
pub mod PartialMessages
pub mod Attempts
pub mod Reassembly
mod Examples
use livekit_agent_sdk_go.Prelude.{
  ℕ, suc, ◌+◌, String, Bool, true, false, not, Option, none, some, List, [], ◌∷◌, ◌++◌, ltb, str_eq,
  if◌then◌else◌,
}
use livekit_agent_sdk_go.Prelude.Dict.{Dict, lookup, insert, delete}
use livekit_agent_sdk_go.Prelude.Exec.{Exec, ok, panic}
use livekit_agent_sdk_go.RaceProtector.{JobStatus, js_running}

-- The fields of livekit.Job that are read: the name of its room, which is nil if it has none.
pub record AssignedJob : Type 0 where
  pub id : String
  pub room_name : Option String

pub record JobState : Type 0 where
  pub job_id : String
  pub status : JobStatus
  pub started_at : ℕ
  pub room_name : String

pub record RecoverableJob : Type 0 where
  pub job_id : String
  pub job_state : JobState
  pub job_data : AssignedJob
  pub room_token : String
  pub last_update : ℕ
  pub recovery_attempts : ℕ

pub record JobRecoveryManager : Type 0 where
  pub pending_recovery : Dict RecoverableJob
  pub recovery_timeout : ℕ

unfoldable pub new_job_recovery_manager : JobRecoveryManager
new_job_recovery_manager = record { pending_recovery = []; recovery_timeout = 30000000000 }

-- DefaultJobRecoveryHandler.OnJobRecoveryAttempt: whether the job was running.
unfoldable pub is_running : JobStatus → Bool
is_running js_running = true
is_running s = false

unfoldable pub saved_job : String → AssignedJob → String → String → ℕ → RecoverableJob
saved_job id job room token now = record {
  job_id = id;
  job_state = record { job_id = id; status = js_running; started_at = now; room_name = room };
  job_data = job;
  room_token = token;
  last_update = now;
  recovery_attempts = 0;
}

-- A job without a room makes the method panic. The two readings of the clock are one.
unfoldable pub save_job_for_recovery :
    String → AssignedJob → String → ℕ → JobRecoveryManager → Exec JobRecoveryManager
unfolding saved_job
save_job_for_recovery id job token now m = elim job.room_name [
  | none ↦ panic
  | some room ↦ ok (record m {
    pending_recovery = insert id (saved_job id job room token now) m.pending_recovery;
  })
]

-- What an attempt depends on, by the id of the job: the decision of the handler, whether a connection
-- with the token succeeds, and the time at which the age is tested.
pub record Environment : Type 0 where
  pub wants : String → JobState → Bool
  pub connects : String → String → Bool
  pub now : String → ℕ

-- The entry of a job in the map of results; `recovered` is nil.
pub data RecoveryResult : Type 0 where
  declined too_old recovered needs_token : RecoveryResult

-- Only a job with a token is connected again; its data is never nil.
unfoldable pub recover_job : Environment → String → RecoverableJob → RecoveryResult
recover_job env id j =
    if str_eq j.room_token ""
    then needs_token
    else if env.connects id j.room_token
    then recovered
    else needs_token

unfoldable pub attempt_one : Environment → ℕ → String → RecoverableJob → RecoveryResult
unfolding recover_job
attempt_one env timeout id j =
    if not (env.wants id j.job_state)
    then declined
    else if ltb (j.last_update + timeout) (env.now id)
    then too_old
    else recover_job env id j

unfoldable pub bumped : RecoverableJob → RecoverableJob
bumped j = record j { recovery_attempts = j.recovery_attempts + 1 }

unfoldable pub increment_found :
    String → Option RecoverableJob → Dict RecoverableJob → Dict RecoverableJob
unfolding bumped
increment_found id none pending = pending
increment_found id (some j) pending =
    if ltb 3 (j.recovery_attempts + 1) then delete id pending else insert id (bumped j) pending

unfoldable pub increment_recovery_attempts : String → Dict RecoverableJob → Dict RecoverableJob
unfolding increment_found
increment_recovery_attempts id pending = increment_found id (lookup id pending) pending

unfoldable pub after_attempt : String → RecoveryResult → Dict RecoverableJob → Dict RecoverableJob
unfolding increment_recovery_attempts
after_attempt id declined pending = delete id pending
after_attempt id too_old pending = delete id pending
after_attempt id recovered pending = delete id pending
after_attempt id needs_token pending = increment_recovery_attempts id pending

-- A goroutine is started for the job; the other results are written by the loop itself.
unfoldable pub is_started : RecoveryResult → Bool
is_started declined = false
is_started too_old = false
is_started recovered = true
is_started needs_token = true

-- The loop writes a result without the mutex of the results after it has started a goroutine, which may
-- be writing the same map. The second argument tells whether one is started.
unfoldable pub has_race : Environment → ℕ → Bool → Dict RecoverableJob → Bool
unfolding attempt_one is_started
has_race env timeout started [] = false
has_race env timeout started ((id, j) ∷ rest) =
    let after_start = has_race env timeout true rest in
    let before_start = has_race env timeout false rest in
    if is_started (attempt_one env timeout id j)
    then after_start
    else if started
    then true
    else before_start

-- The loop over the copy of the map with its goroutines: what is left pending, and the results, where
-- no two writes of the results meet. Each job is settled by itself, so the order does not matter.
unfoldable pub attempt_all :
    Environment
    → ℕ
    → Dict RecoverableJob
    → Dict RecoverableJob × Dict RecoveryResult
    → Dict RecoverableJob × Dict RecoveryResult
unfolding attempt_one after_attempt
attempt_all env timeout [] (pending, results) = (pending, results)
attempt_all env timeout ((id, j) ∷ rest) (pending, results) =
    let result = attempt_one env timeout id j in
    attempt_all env timeout rest (after_attempt id result pending, insert id result results)

unfoldable pub attempted :
    Environment → JobRecoveryManager → JobRecoveryManager × Dict RecoveryResult
unfolding attempt_all
attempted env m =
    let (pending, results) =
      attempt_all env m.recovery_timeout m.pending_recovery (m.pending_recovery, []) in
    (record m { pending_recovery = pending }, results)

-- The Go runtime ends a program in which it sees a map written by two goroutines at once, so an attempt
-- with a race counts as a panic.
unfoldable pub attempt_job_recovery :
    Environment → JobRecoveryManager → Exec (JobRecoveryManager × Dict RecoveryResult)
unfolding attempted has_race
attempt_job_recovery env m =
    if has_race env m.recovery_timeout false m.pending_recovery then panic else ok (attempted env m)

unfoldable pub get_recoverable_jobs : JobRecoveryManager → Dict RecoverableJob
get_recoverable_jobs m = m.pending_recovery

-- JobCheckpoint: the values are given by their type.
pub record JobCheckpoint {ℓ} (V : Type ℓ) : Type ℓ where
  pub job_id : String
  pub saved : Dict V

module _ {ℓ} {V : Type ℓ} where
  unfoldable pub new_job_checkpoint : String → JobCheckpoint V
  new_job_checkpoint id = record { job_id = id; saved = [] }

  unfoldable pub save : String → V → JobCheckpoint V → JobCheckpoint V
  save key value c = record c { saved = insert key value c.saved }

  unfoldable pub load_checkpoint : String → JobCheckpoint V → Option V
  load_checkpoint key c = lookup key c.saved

  unfoldable pub clear_checkpoint : JobCheckpoint V → JobCheckpoint V
  clear_checkpoint c = record c { saved = [] }
