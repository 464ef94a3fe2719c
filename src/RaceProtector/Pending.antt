-- ===== src/RaceProtector/Pending.antt =====
-- CanAcceptJob and the terminations that are under way.
use livekit_agent_sdk_go.Prelude.{
  ℕ, ◌≡◌, String, Bool, true, false, List, [], ◌∷◌, arith, str_eq, eq_iff, eq_refl, not, All,
}
use livekit_agent_sdk_go.Prelude.Dict.{lookup, lookup-retain}
use livekit_agent_sdk_go.RaceProtector.{
  RaceProtector, can_accept_job, record_termination_request, cleanup_old_terminations,
  set_disconnecting, set_reconnecting, is_old, flush_pending_status_updates,
  has_pending_termination,
}
use livekit_agent_sdk_go.RaceProtector.Validity.{IsValid, step-IsValid}
use livekit_agent_sdk_go.RaceProtector.Trace.{Call, request, complete, queue, cleanup, step, run}
use livekit_agent_sdk_go.RaceProtector.Records.{
  request-grants, lookup-record_termination_request, lookup-complete_termination,
  terminations-queue, record_found-pending,
}

unfoldable pub completes : String → Call → Bool
completes id (complete j err now) = str_eq j id
completes id _ = false

is_pending : String → RaceProtector → Bool
is_pending id p = has_pending_termination (lookup id p.active_terminations)

-- Only the completion of its own termination takes a pending job out of that state. A cleanup
-- does not: it deletes completed records alone.
is_pending-step :
    (id : String) (c : Call) (p : RaceProtector)
    → IsValid p
    → completes id c ≡ false
    → is_pending id p ≡ true
    → is_pending id (step c p) ≡ true
unfolding is_pending completes is_old has_pending_termination step set_disconnecting
    set_reconnecting can_accept_job flush_pending_status_updates cleanup_old_terminations
is_pending-step id (request j now) p v n h = ground (
  arith,
  lookup-record_termination_request j id now p,
  eq_iff j id,
  record_found-pending j now (lookup j p.active_terminations),
)
is_pending-step id (complete j err now) p v n h =
    ground (arith, lookup-complete_termination j id err now p)
is_pending-step id (queue j status message now) p v n h =
    ground (arith, terminations-queue j status message now p)
is_pending-step id (cleanup max_age now) p v n h = ground (
  arith,
  lookup-retain (λ t. not (is_old max_age now t)) id p.active_terminations v.terminations.unique,
)
is_pending-step id _ p v n h = ground arith

is_pending-run :
    (id : String) (cs : List Call) (p : RaceProtector)
    → IsValid p
    → All (λ c. completes id c ≡ false) cs
    → is_pending id p ≡ true
    → is_pending id (run cs p) ≡ true
unfolding run
is_pending-run id [] p v n h = h
is_pending-run id (c ∷ cs) p v n h =
    is_pending-run id cs (step c p) (step-IsValid c p v) n.1 (is_pending-step id c p v n.0 h)

-- Once a request to terminate a job went ahead, the job is refused until that termination is
-- completed, whatever calls come in between, cleanups included.
pub pending_rejects :
    (id : String) (now : ℕ) (cs : List Call) (p : RaceProtector)
    → IsValid p
    → (record_termination_request id now p).1 ≡ true
    → All (λ c. completes id c ≡ false) cs
    → (can_accept_job id (run cs (record_termination_request id now p).0)).1 ≡ false
unfolding can_accept_job is_pending step
pending_rejects id now cs p v g n = ground (
  arith,
  eq_refl id,
  lookup-record_termination_request id id now p,
  request-grants id now p v,
  record_found-pending id now (lookup id p.active_terminations),
  is_pending-run id cs (record_termination_request id now p).0 (step-IsValid (request id now) p v)
      n,
)
