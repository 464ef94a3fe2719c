-- ===== src/UniversalWorker/SharedMetadata.antt =====
-- Two assignments to a handler that answers with the same metadata object (pkg/agent/universal_worker.go).
use livekit_agent_sdk_go.Prelude.{
  ℕ, ◌≡◌, ◌≢◌, refl, ◌∙◌, String, true, false, ◌==◌, Option, none, some, str_eq, ==_iff,
}
use livekit_agent_sdk_go.Prelude.Dict.{lookup, lookup-delete}
use livekit_agent_sdk_go.Prelude.Exec.{Exec, ok, panic, out_of_fuel, ◌>>=◌}
use livekit_agent_sdk_go.JobQueue.Item.{Job}
use livekit_agent_sdk_go.UniversalWorker.Types.{JobMetadata, World, with_worker}
use livekit_agent_sdk_go.UniversalWorker.Jobs.{
  JobAssignment, MetadataAnswer, shared, load_metadata, store_metadata, merge_metadata,
  default_identity, RoomRequest, with_api_key, with_token, room_request, take_pending,
  count_accepted, begin_assignment, begin_assigned, begin_job_in,
}
use livekit_agent_sdk_go.UniversalWorker.Metadata.{or_text_some}

-- The identity under which a room is joined with the API key.
unfoldable pub joined_identity : Exec (World × Option (Job × RoomRequest)) → Option String
joined_identity (ok (s, some (job, with_api_key url room identity m))) = some identity
joined_identity (ok (s, some (job, with_token url token))) = none
joined_identity (ok (s, none)) = none
joined_identity panic = none
joined_identity out_of_fuel = none

-- Two assignments one after the other, both answered with the metadata at the address.
unfoldable pub begin_both :
    JobAssignment → JobAssignment → ℕ → World → Exec (World × Option (Job × RoomRequest))
unfolding begin_assignment
begin_both a b address s = do
  (t, _) ← begin_assignment a (shared address) s
  begin_assignment b (shared address) t

begin_known :
    (a : JobAssignment) (job : Job) (room : String) (answer : MetadataAnswer)
    (o : Option JobMetadata) (s : World)
    → a.job ≡ some job
    → job.room_name ≡ some room
    → lookup job.id s.worker.pending_job_metadata ≡ o
    → begin_assignment a answer s
      ≡ ok (
        with_worker count_accepted (take_pending job.id answer o s).0,
        some (
          job,
          room_request s.worker.server_url job.id a room (take_pending job.id answer o s).1,
        ),
      )
unfolding begin_assignment begin_assigned begin_job_in
begin_known a job room answer o s is_job is_room held = rw (is_job, is_room, held) refl

-- The world after the first assignment.
abbrev after_first : String → ℕ → JobMetadata → World → World
after_first id address p s =
    with_worker count_accepted (take_pending id (shared address) (some p) s).0

second_identity :
    (b : JobAssignment) (job : Job) (room : String) (url id : String) (address : ℕ)
    (p q : JobMetadata) (s w : World)
    → b.token ≡ ""
    → (s.stored_metadata address).participant_identity ≡ ""
    → p.participant_identity ≢ ""
    → joined_identity (
        ok (
          w,
          some (
            job,
            room_request url job.id b room
                (take_pending job.id (shared address) (some q) (after_first id address p s)).1,
          ),
        ))
      ≡ some p.participant_identity
unfolding joined_identity room_request take_pending load_metadata store_metadata merge_metadata
    with_worker count_accepted
second_identity b job room url id address p q s w no_token unnamed named =
    let here : (address == address) ≡ true = (==_iff address address).1 refl in
    let kept = or_text_some p.participant_identity q.participant_identity named in
    let joined = or_text_some p.participant_identity (default_identity job.id) named in
    rw (no_token, here, unnamed, kept, joined) refl

pending_after_first :
    (id other : String) (address : ℕ) (p q : JobMetadata) (s : World)
    → str_eq id other ≡ false
    → lookup other s.worker.pending_job_metadata ≡ some q
    → lookup other (after_first id address p s).worker.pending_job_metadata ≡ some q
unfolding take_pending with_worker count_accepted store_metadata
pending_after_first id other address p q s apart held =
    lookup-delete id other s.worker.pending_job_metadata ∙ rw apart held

-- If the handler answers both jobs with one metadata object that has no identity, metadata of its own
-- is kept for each job from its offer, and the second job is assigned without a token, then the second
-- job joins its room under the identity that is kept for the first one.
pub identity_leaks :
    (a b : JobAssignment) (job other : Job) (room other_room : String) (address : ℕ)
    (p q : JobMetadata) (s : World)
    → a.job ≡ some job
    → job.room_name ≡ some room
    → b.job ≡ some other
    → other.room_name ≡ some other_room
    → b.token ≡ ""
    → str_eq job.id other.id ≡ false
    → lookup job.id s.worker.pending_job_metadata ≡ some p
    → lookup other.id s.worker.pending_job_metadata ≡ some q
    → (s.stored_metadata address).participant_identity ≡ ""
    → p.participant_identity ≢ ""
    → joined_identity (begin_both a b address s) ≡ some p.participant_identity
unfolding begin_both
identity_leaks a b job other room other_room address p q s is_job is_room is_other is_other_room
      no_token apart held other_held unnamed named =
    let first = begin_known a job room (shared address) (some p) s is_job is_room held in
    let t = with_worker count_accepted (take_pending job.id (shared address) (some p) s).0 in
    let second =
      begin_known b other other_room (shared address) (some q) t is_other is_other_room
        (pending_after_first job.id other.id address p q s apart other_held) in
    rw (first, second)
      (second_identity b other other_room t.worker.server_url job.id address p q s _ no_token
        unnamed named)
