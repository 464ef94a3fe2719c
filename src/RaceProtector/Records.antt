-- ===== src/RaceProtector/Records.antt =====
-- How the calls change the record of one job's termination.
use livekit_agent_sdk_go.Prelude.{
  ℕ, ◌≤◌, ◌≡◌, ◌↔◌, refl, ◌⊎◌, inl, inr, Option-cases, String, true, Option, none, some, arith,
  str_eq, eq_iff, if◌then◌else◌,
}
use livekit_agent_sdk_go.Prelude.Dict.{lookup, lookup-insert}
use livekit_agent_sdk_go.RaceProtector.{
  RaceProtector, TerminationState, record_termination_request, complete_termination,
  queue_status_update, has_pending_termination, record_found, store_update, TerminationState,
  JobStatus,
}
use livekit_agent_sdk_go.RaceProtector.Validity.{IsValid}

-- What `complete_termination` makes of the record that it finds.
unfoldable pub completed : Option String → ℕ → Option TerminationState → Option TerminationState
completed err now none = none
completed err now (some t) = some (record t { completed_at = some now; last_error = err })

pub record_found-grants :
    (id : String) (now : ℕ) (o : Option TerminationState)
    → ((t : TerminationState) → o ≡ some t → 1 ≤ t.request_count)
    → (record_found id now o).1 ≡ true
    → o ≡ none
unfolding record_found
record_found-grants id now none v h = refl
record_found-grants id now (some t) v h = ground (arith, v t refl)

-- A request is granted exactly if no record of the job is kept, and then one is.
pub request-grants :
    (id : String) (now : ℕ) (p : RaceProtector)
    → IsValid p
    → ((record_termination_request id now p).1 ≡ true) ↔ (lookup id p.active_terminations ≡ none)
unfolding record_termination_request record_found
request-grants id now p v =
    (record_found-grants id now _ (v.terminations.counted id), λ h. rw h refl)

-- One more request leaves a record pending.
pub record_found-pending :
    (id : String) (now : ℕ) (o : Option TerminationState)
    → (o ≡ none) ⊎ (has_pending_termination o ≡ true)
    → has_pending_termination (some (record_found id now o).0) ≡ true
unfolding record_found has_pending_termination
record_found-pending id now none h = refl
record_found-pending id now (some t) h = ground arith

pub lookup-record_termination_request :
    (j id : String) (now : ℕ) (p : RaceProtector)
    → lookup id (record_termination_request j now p).0.active_terminations ≡ (
        if str_eq j id
        then some (record_found j now (lookup j p.active_terminations)).0
        else lookup id p.active_terminations)
unfolding record_termination_request
lookup-record_termination_request j id now p = lookup-insert j id _ p.active_terminations

pub lookup-complete_termination :
    (j id : String) (err : Option String) (now : ℕ) (p : RaceProtector)
    → lookup id (complete_termination j err now p).active_terminations ≡ (
        if str_eq j id
        then completed err now (lookup id p.active_terminations)
        else lookup id p.active_terminations)
unfolding complete_termination completed
lookup-complete_termination j id err now p = elim (Option-cases (lookup j p.active_terminations)) [
  | inl e ↦ rw (e, complete_termination) (ground (arith, eq_iff j id))
  | inr (t, e) ↦
      rw (e, complete_termination)
        (ground (
          arith,
          eq_iff j id,
          lookup-insert j id (record t { completed_at = some now; last_error = err })
              p.active_terminations,
        ))
]

pub terminations-queue :
    (j : String) (status : JobStatus) (message : String) (now : ℕ) (p : RaceProtector)
    → (queue_status_update j status message now p).0.active_terminations ≡ p.active_terminations
unfolding queue_status_update store_update
terminations-queue j status message now p = ground arith
