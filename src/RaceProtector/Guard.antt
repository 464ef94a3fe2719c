-- ===== src/RaceProtector/Guard.antt =====
-- `RaceProtectionGuard.Execute`: which functions it runs, and what it leaves behind.
use livekit_agent_sdk_go.Prelude.{
  ℕ, ◌≡◌, ap, refl, String, true, false, Option, none, some, [], arith, eq_refl,
}
use livekit_agent_sdk_go.Prelude.Dict.{lookup}
use livekit_agent_sdk_go.RaceProtector.{
  RaceProtector, TerminationState, RaceProtectionGuard, Outcome, finished, concurrent_termination,
  execute, record_termination_request, complete_termination,
}
use livekit_agent_sdk_go.RaceProtector.Validity.{IsValid}
use livekit_agent_sdk_go.RaceProtector.Records.{
  completed, request-grants, lookup-complete_termination,
}

abbrev pub termination_guard : String → RaceProtectionGuard
termination_guard id = record { job_id = id; operation = "termination" }

-- The record of a job is completed with no error.
abbrev pub IsCompleted : Option TerminationState → ℕ → Type 0
IsCompleted o later =
    (t : TerminationState) × (o ≡ some t) × (t.completed_at ≡ some later) × (t.last_error ≡ none)

module _ (id : String) (fn : RaceProtector → RaceProtector × Outcome) (now later : ℕ) where
  execute-granted :
      (p : RaceProtector)
      → (record_termination_request id now p).1 ≡ true
      → execute (termination_guard id) fn now later p ≡ (
        complete_termination id none later (fn (record_termination_request id now p).0).0,
        finished (fn (record_termination_request id now p).0).1,
        [],
      )
  unfolding execute
  execute-granted p h = ground arith

  execute-refused :
      (p : RaceProtector)
      → (record_termination_request id now p).1 ≡ false
      → execute (termination_guard id) fn now later p
        ≡ ((record_termination_request id now p).0, concurrent_termination, [])
  unfolding execute
  execute-refused p h = ground arith

  -- A termination guard on a job with no record runs the function once, and returns or panics as it
  -- does. If the function leaves the job's record in place, the record is completed afterwards, with
  -- no error: also where the function returned one or panicked.
  pub execute_completes :
      (p : RaceProtector) (t : TerminationState)
      → IsValid p
      → lookup id p.active_terminations ≡ none
      → lookup id (fn (record_termination_request id now p).0).0.active_terminations ≡ some t
      → ((execute (termination_guard id) fn now later p).1
          ≡ finished (fn (record_termination_request id now p).0).1)
        × IsCompleted
            (lookup id (execute (termination_guard id) fn now later p).0.active_terminations)
            later
  unfolding completed
  execute_completes p t v e kept =
      let granted = execute-granted p ((request-grants id now p v).1 e) in
      (
        ap (λ r. r.1) granted,
        (
          record t { completed_at = some later; last_error = none },
          ground (
            arith,
            granted,
            eq_refl id,
            lookup-complete_termination id id none later
                (fn (record_termination_request id now p).0).0,
          ),
          refl,
          refl,
        ),
      )

  -- On a job whose record is still kept, the function is not run: the answer is an error, whatever
  -- the function is.
  pub execute_runs_once :
      (p : RaceProtector) (t : TerminationState)
      → IsValid p
      → lookup id p.active_terminations ≡ some t
      → execute (termination_guard id) fn now later p
        ≡ ((record_termination_request id now p).0, concurrent_termination, [])
  execute_runs_once p t v e = execute-refused p (ground (arith, request-grants id now p v))
