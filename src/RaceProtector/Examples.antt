-- ===== src/RaceProtector/Examples.antt =====
-- Concrete runs of the race protector.
use Prim.Native.Nat.{max}
use livekit_agent_sdk_go.Prelude.{◌≡◌, refl, true, false, none, some, List, [], ◌∷◌}
use livekit_agent_sdk_go.Prelude.Dict.{lookup}
use livekit_agent_sdk_go.RaceProtector.{
  RaceProtector, TerminationState, Outcome, returned, js_running, js_failed, js_success,
  new_race_protector, can_accept_job, record_termination_request, status_priority,
}
use livekit_agent_sdk_go.RaceProtector.Trace.{Call, request, complete, queue, cleanup, accept, run}
use livekit_agent_sdk_go.RaceProtector.Validity.{IsValid, new_race_protector-IsValid}
use livekit_agent_sdk_go.RaceProtector.Termination.{grants, cleanups, grants_exactly_once}
use livekit_agent_sdk_go.RaceProtector.Pending.{completes, pending_rejects}
use livekit_agent_sdk_go.RaceProtector.Status.{
  Request, queue_all, waiting, highest, queue_keeps_highest,
}

abbrev history : List Call
history = request "a" 2 ∷ request "b" 3 ∷ complete "a" none 4 ∷ request "a" 5 ∷ []

grants_exactly_once_example : grants "a" new_race_protector (request "a" 1 ∷ history) ≡ 1
unfolding new_race_protector lookup cleanups
grants_exactly_once_example =
    grants_exactly_once "a" 1 history new_race_protector new_race_protector-IsValid refl refl

abbrev meanwhile : List Call
meanwhile = request "b" 3 ∷ complete "b" none 4 ∷ cleanup 0 900 ∷ accept "a" ∷ []

pending_rejects_example :
    (can_accept_job "a" (run meanwhile (record_termination_request "a" 1 new_race_protector).0)).1
    ≡ false
unfolding new_race_protector record_termination_request completes lookup
pending_rejects_example =
    pending_rejects "a" 1 meanwhile new_race_protector new_race_protector-IsValid refl
      (refl, (refl, (refl, (refl, tt))))

abbrev reports : List Request
reports =
    record { job = "a"; status = js_running; message = ""; at = 1 }
    ∷ record { job = "a"; status = js_failed; message = "lost"; at = 2 }
    ∷ record { job = "a"; status = js_success; message = ""; at = 3 }
    ∷ []

abbrev offline : RaceProtector
offline = record new_race_protector { is_reconnecting = true }

queue_keeps_highest_example :
    waiting "a" (queue_all reports offline) ≡ max (waiting "a" offline) (highest "a" reports)
queue_keeps_highest_example = queue_keeps_highest "a" reports offline refl

highest_is_failed : highest "a" reports ≡ 4
unfolding highest status_priority
highest_is_failed = refl

abbrev queued : RaceProtector
queued = run (queue "a" js_running "" 1 ∷ queue "b" js_failed "gone" 2 ∷ []) offline

offline-IsValid : IsValid offline
offline-IsValid = record {
  terminations = new_race_protector-IsValid.terminations;
  updates = new_race_protector-IsValid.updates;
}

-- A function that fails.
abbrev failing : RaceProtector → RaceProtector × Outcome
failing p = (p, returned (some "room is gone"))

abbrev requested : TerminationState
requested = record {
  job_id = "a";
  requested_at = 1;
  request_count = 1;
  completed_at = none;
  last_error = none;
}

abbrev after_request : RaceProtector
after_request = (record_termination_request "a" 1 new_race_protector).0
