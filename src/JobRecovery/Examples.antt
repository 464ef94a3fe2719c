-- ===== src/JobRecovery/Examples.antt =====
-- Concrete runs of the job recovery.
use livekit_agent_sdk_go.Prelude.{
  ℕ, ◌≡◌, refl, Bool, true, false, some, List, [], ◌∷◌, arith, length, ◌==◌, str_eq,
}
use livekit_agent_sdk_go.Prelude.Exec.{Returns, panic}
use livekit_agent_sdk_go.Prelude.Dict.{lookup, insert}
use livekit_agent_sdk_go.Prelude.Int.{pos}
use livekit_agent_sdk_go.JobRecovery.{
  Environment, RecoverableJob, AssignedJob, JobRecoveryManager, saved_job, attempt_job_recovery,
  attempt_one, recover_job, is_running, has_race, is_started, attempted,
}
use livekit_agent_sdk_go.JobRecovery.Attempts.{retry, after_failures, four_attempts}
use livekit_agent_sdk_go.JobRecovery.PartialMessages.{
  PartialMessageBuffer, new_partial_message_buffer, get_complete,
}
use livekit_agent_sdk_go.JobRecovery.Reassembly.{append_parts, text_reassembled}

abbrev job : AssignedJob
job = record { id = "j"; room_name = some "room" }

abbrev saved : RecoverableJob
saved = saved_job "j" job "room" "token" 10

abbrev manager : JobRecoveryManager
manager = record {
  pending_recovery = ("j", saved) ∷ ("k", saved_job "k" job "room" "" 10) ∷ [];
  recovery_timeout = 30;
}

abbrev offline : ℕ → Environment
offline now = record {
  wants = λ id s. is_running s.status;
  connects = λ id token. false;
  now = λ id. now;
}

-- The handler declines the second job, whose result the loop writes while the first one is recovered.
race_of_two :
    attempt_job_recovery (record (offline 20) { wants = λ id s. str_eq id "j" }) manager ≡ panic
unfolding attempt_job_recovery saved_job
race_of_two = refl

four_attempts_example :
    Returns
      (λ r. lookup "j" r.pending_recovery ≡ after_failures 4 saved)
      (retry (offline 20 ∷ offline 21 ∷ offline 22 ∷ offline 23 ∷ []) manager)
unfolding lookup has_race attempt_one recover_job is_running saved_job is_started attempted insert
four_attempts_example =
    four_attempts (offline 20 ∷ offline 21 ∷ offline 22 ∷ offline 23 ∷ []) manager "j" saved
      (refl, (refl, tt)) refl (refl, (refl, (refl, (refl, tt)))) (refl, (refl, (refl, (refl, tt))))
      (omega arith)

abbrev looks_whole : List ℕ → Bool
looks_whole bytes = length bytes == 4

abbrev empty_buffer : PartialMessageBuffer
empty_buffer = new_partial_message_buffer (pos 8)

text_reassembled_example :
    ((append_parts 1 ((1 ∷ 2 ∷ [], 5) ∷ (3 ∷ [], 6) ∷ (4 ∷ [], 7) ∷ []) empty_buffer).1 ≡ true)
    × ((get_complete looks_whole
          (append_parts 1 ((1 ∷ 2 ∷ [], 5) ∷ (3 ∷ [], 6) ∷ (4 ∷ [], 7) ∷ []) empty_buffer).0).1
        ≡ some (1, 1 ∷ 2 ∷ 3 ∷ 4 ∷ []))
unfolding new_partial_message_buffer
text_reassembled_example =
    text_reassembled looks_whole (1 ∷ 2 ∷ []) 5 ((3 ∷ [], 6) ∷ (4 ∷ [], 7) ∷ []) empty_buffer refl
      (omega arith) (omega arith) refl
