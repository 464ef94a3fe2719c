-- ===== src/RaceProtector/Termination.antt =====
-- Requests to terminate a job: which of them is told to carry the termination out.
use livekit_agent_sdk_go.Prelude.{
  ℕ, ◌+◌, ◌≤◌, ◌≡◌, String, none, some, List, [], ◌∷◌, arith, str_eq, eq_iff, eq_refl,
  if◌then◌else◌,
}
use livekit_agent_sdk_go.Prelude.Dict.{lookup}
use livekit_agent_sdk_go.RaceProtector.{
  RaceProtector, can_accept_job, record_termination_request, set_disconnecting, set_reconnecting,
  flush_pending_status_updates,
}
use livekit_agent_sdk_go.RaceProtector.Validity.{IsValid, step-IsValid}
use livekit_agent_sdk_go.RaceProtector.Trace.{
  Call, disconnecting, reconnecting, accept, request, complete, queue, flush, cleanup, step,
}
use livekit_agent_sdk_go.RaceProtector.Records.{
  completed, request-grants, lookup-record_termination_request, lookup-complete_termination,
  terminations-queue,
}

-- One if the call is a request for the job that was told to go ahead.
granted : String → RaceProtector → Call → ℕ
granted id p (request j now) =
    if str_eq j id then (if (record_termination_request j now p).1 then 1 else 0) else 0
granted id p _ = 0

unfoldable pub grants : String → RaceProtector → List Call → ℕ
unfolding granted
grants id p [] = 0
grants id p (c ∷ cs) = granted id p c + grants id (step c p) cs

-- One if no record of the job is kept.
unknown : String → RaceProtector → ℕ
unknown id p = elim (lookup id p.active_terminations) [ none ↦ 1 | some t ↦ 0 ]

is_cleanup : Call → ℕ
is_cleanup (cleanup max_age now) = 1
is_cleanup _ = 0

unfoldable pub cleanups : List Call → ℕ
unfolding is_cleanup
cleanups [] = 0
cleanups (c ∷ cs) = is_cleanup c + cleanups cs

granted-step :
    (id : String) (c : Call) (p : RaceProtector)
    → IsValid p
    → granted id p c + unknown id (step c p) ≤ unknown id p + is_cleanup c
unfolding granted unknown step is_cleanup completed set_disconnecting set_reconnecting
    can_accept_job flush_pending_status_updates
granted-step id (disconnecting b) p v = ground arith
granted-step id (reconnecting b) p v = ground arith
granted-step id (accept j) p v = ground arith
granted-step id (request j now) p v =
    ground
      (arith, lookup-record_termination_request j id now p, request-grants j now p v, eq_iff j id)
granted-step id (complete j err now) p v =
    ground (arith, lookup-complete_termination j id err now p)
granted-step id (queue j status message now) p v =
    ground (arith, terminations-queue j status message now p)
granted-step id flush p v = ground arith
granted-step id (cleanup max_age now) p v = ground arith

grants-run :
    (id : String) (cs : List Call) (p : RaceProtector)
    → IsValid p
    → grants id p cs ≤ unknown id p + cleanups cs
unfolding grants cleanups
grants-run id [] p v = omega arith
grants-run id (c ∷ cs) p v =
    omega (arith, granted-step id c p v, grants-run id cs (step c p) (step-IsValid c p v))

-- From a protector that keeps no record of a job, as long as no cleanup comes, exactly one of the
-- requests to terminate the job is told to go ahead: the first. It does not matter how many
-- requests follow, nor which other calls come between them.
pub grants_exactly_once :
    (id : String) (now : ℕ) (cs : List Call) (p : RaceProtector)
    → IsValid p
    → lookup id p.active_terminations ≡ none
    → cleanups cs ≡ 0
    → grants id p (request id now ∷ cs) ≡ 1
unfolding grants unknown granted step cleanups is_cleanup
grants_exactly_once id now cs p v e h =
    ground
      (arith, eq_refl id, (request-grants id now p v).1 e, grants-run id (request id now ∷ cs) p v)
