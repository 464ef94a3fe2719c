-- ===== src/UniversalWorker/Targets.antt =====
-- The participants that the worker follows (pkg/agent/universal_worker.go).
use livekit_agent_sdk_go.Prelude.{
  ℕ, ◌≡◌, refl, sym, ap, ◌∙◌, String, Bool, Bool-cases, true, false, Option, none, some, is_some,
  List, [], ◌∷◌, arith, str_eq, eq_iff, if◌then◌else◌, inl, inr,
}
use livekit_agent_sdk_go.Prelude.Dict.{Dict, lookup, insert, delete, lookup-insert, lookup-delete}
use livekit_agent_sdk_go.JobQueue.Item.{Job}
use livekit_agent_sdk_go.UniversalWorker.Types.{
  Participant, ParticipantInfo, UniversalWorker, World, with_worker, emit,
}
use livekit_agent_sdk_go.UniversalWorker.Rooms.{
  is_target, track_participant, clear_target, untrack_participant, note_activity,
  on_participant_connected, on_participant_disconnected, on_metadata_changed,
}

-- The callbacks for participants, of any jobs.
pub data RoomEvent : Type 0 where
  connects : Job → Participant → ℕ → RoomEvent
  disconnects : String → RoomEvent
  changes : String → ℕ → RoomEvent

unfoldable pub after_event : RoomEvent → World → World
unfolding on_participant_connected on_participant_disconnected on_metadata_changed
after_event (connects job p now) s = on_participant_connected job p now s
after_event (disconnects identity) s = on_participant_disconnected identity s
after_event (changes identity now) s = on_metadata_changed identity now s

unfoldable pub after_events : List RoomEvent → World → World
unfolding after_event
after_events [] s = s
after_events (e ∷ es) s = after_events es (after_event e s)

-- Whether the participant is there after the events, if it was there before or not.
unfoldable pub is_there : String → List RoomEvent → Bool → Bool
is_there id [] before = before
is_there id (connects job p now ∷ es) before =
    is_there id es (if str_eq p.identity id then true else before)
is_there id (disconnects identity ∷ es) before =
    is_there id es (if str_eq identity id then false else before)
is_there id (changes identity now ∷ es) before = is_there id es before

-- The target is one of the participants.
abbrev pub TargetPresent : Option Participant → Dict ParticipantInfo → Type 0
TargetPresent none known = Unit
TargetPresent (some p) known = is_some (lookup p.identity known) ≡ true

known : String → World → Bool
known id s = is_some (lookup id s.worker.participants)

note-known :
    (id identity : String) (now : ℕ) (o : Option ParticipantInfo) (w : UniversalWorker)
    → lookup identity w.participants ≡ o
    → is_some (lookup id (note_activity identity now o w).participants)
      ≡ is_some (lookup id w.participants)
unfolding note_activity
note-known id identity now none w e = refl
note-known id identity now (some info) w e = ground (
  arith,
  eq_iff identity id,
  lookup-insert identity id (record info { last_activity = now }) w.participants,
  ap is_some e,
)

event-known :
    (id : String) (e : RoomEvent) (s : World)
    → known id (after_event e s) ≡ is_there id (e ∷ []) (known id s)
unfolding known after_event on_participant_connected on_participant_disconnected on_metadata_changed
    track_participant untrack_participant with_worker emit is_there
event-known id (connects job p now) s = ground (
  arith,
  lookup-insert p.identity id
      (record {
        participant = p;
        joined_at = now;
        last_activity = now;
        permissions = p.permissions;
      })
      s.worker.participants,
)
event-known id (disconnects identity) s =
    ground (arith, lookup-delete identity id s.worker.participants)
event-known id (changes identity now) s =
    note-known id identity now (lookup identity s.worker.participants) s.worker refl

is_there-cons :
    (id : String) (e : RoomEvent) (es : List RoomEvent) (b : Bool)
    → is_there id (e ∷ es) b ≡ is_there id es (is_there id (e ∷ []) b)
unfolding is_there
is_there-cons id (connects job p now) es b = refl
is_there-cons id (disconnects identity) es b = refl
is_there-cons id (changes identity now) es b = refl

events-known :
    (id : String) (es : List RoomEvent) (s : World)
    → known id (after_events es s) ≡ is_there id es (known id s)
unfolding after_events is_there
events-known id [] s = refl
events-known id (e ∷ es) s =
    events-known id es (after_event e s)
    ∙ ap (λ b. is_there id es b) (event-known id e s)
    ∙ sym (is_there-cons id e es (known id s))

-- The target after a participant has come, gone or changed.
come-TargetPresent :
    (o : Option Participant) (p : Participant) (info : ParticipantInfo) (followed : Bool)
    (m : Dict ParticipantInfo)
    → TargetPresent o m
    → TargetPresent (if followed then some p else o) (insert p.identity info m)
come-TargetPresent o p info true m h =
    ap is_some (lookup-insert p.identity p.identity info m)
    ∙ rw ((eq_iff p.identity p.identity).1 refl) refl
come-TargetPresent none p info false m h = tt
come-TargetPresent (some q) p info false m h =
    ground (arith, lookup-insert p.identity q.identity info m)

gone-TargetPresent :
    (o : Option Participant) (identity : String) (m : Dict ParticipantInfo)
    → TargetPresent o m
    → TargetPresent (clear_target identity o) (delete identity m)
unfolding clear_target
gone-TargetPresent none identity m h = tt
gone-TargetPresent (some q) identity m h = elim (Bool-cases (str_eq q.identity identity)) [
  | inl same ↦ rw same tt
  | inr other ↦ rw other (
      ground (
        arith,
        eq_iff q.identity identity,
        eq_iff identity q.identity,
        lookup-delete identity q.identity m,
      ))
]

changed-TargetPresent :
    (o : Option Participant) (identity : String) (now : ℕ) (w : UniversalWorker)
    → TargetPresent o w.participants
    → TargetPresent o (note_activity identity now (lookup identity w.participants) w).participants
changed-TargetPresent none identity now w h = tt
changed-TargetPresent (some q) identity now w h =
    note-known q.identity identity now (lookup identity w.participants) w refl ∙ h

note-target :
    (identity : String) (now : ℕ) (o : Option ParticipantInfo) (w : UniversalWorker)
    → (note_activity identity now o w).target_participant ≡ w.target_participant
unfolding note_activity
note-target identity now none w = refl
note-target identity now (some info) w = refl

event-TargetPresent :
    (e : RoomEvent) (s : World)
    → TargetPresent s.worker.target_participant s.worker.participants
    → TargetPresent
        (after_event e s).worker.target_participant
        (after_event e s).worker.participants
unfolding after_event on_participant_connected on_participant_disconnected on_metadata_changed
    track_participant untrack_participant with_worker emit
event-TargetPresent (connects job p now) s h =
    come-TargetPresent s.worker.target_participant p _ (is_target job p) s.worker.participants h
event-TargetPresent (disconnects identity) s h =
    gone-TargetPresent s.worker.target_participant identity s.worker.participants h
event-TargetPresent (changes identity now) s h =
    rw (note-target identity now (lookup identity s.worker.participants) s.worker)
      (changed-TargetPresent s.worker.target_participant identity now s.worker h)

events-TargetPresent :
    (es : List RoomEvent) (s : World)
    → TargetPresent s.worker.target_participant s.worker.participants
    → TargetPresent
        (after_events es s).worker.target_participant
        (after_events es s).worker.participants
unfolding after_events
events-TargetPresent [] s h = h
events-TargetPresent (e ∷ es) s h =
    events-TargetPresent es (after_event e s) (event-TargetPresent e s h)

-- After any callbacks for participants, the worker knows a participant exactly if the last callback
-- that connects or disconnects it connects it (or there is none and it was known), and the target
-- participant, if there is one, is among those that the worker knows.
pub participants_followed :
    (id : String) (es : List RoomEvent) (s : World)
    → TargetPresent s.worker.target_participant s.worker.participants
    → (is_some (lookup id (after_events es s).worker.participants)
        ≡ is_there id es (is_some (lookup id s.worker.participants)))
      × TargetPresent
          (after_events es s).worker.target_participant
          (after_events es s).worker.participants
unfolding known
participants_followed id es s h = (events-known id es s, events-TargetPresent es s h)
