-- ===== src/RaceProtector/Validity.antt =====
-- The well-formedness of a protector's maps.
use livekit_agent_sdk_go.Prelude.{
  ℕ, ◌≤◌, ◌≡◌, refl, inl, inr, Option-cases, if_cases, length, ◌==◌, String, Bool, true, false,
  Option, none, some, List, [], ◌∷◌, arith, eq_iff,
}
use livekit_agent_sdk_go.Prelude.Dict.{
  Dict, lookup, insert, retain, Unique, lookup-insert, lookup-retain, insert-Unique, retain-Unique,
}
use livekit_agent_sdk_go.RaceProtector.{
  RaceProtector, TerminationState, StatusUpdate, JobStatus, can_accept_job,
  record_termination_request, complete_termination, cleanup_old_terminations, set_disconnecting,
  set_reconnecting, queue_status_update, flush_pending_status_updates, store_update, record_found,
  has_pending_termination, new_race_protector, Event,
}
use livekit_agent_sdk_go.RaceProtector.Trace.{
  Call, disconnecting, reconnecting, accept, request, complete, queue, flush, cleanup, step, run,
}

-- Every record stands under its own job's id, and counts the request that made it.
pub record AreTerminations (m : Dict TerminationState) : Type 0 where
  pub unique : Unique m
  pub filed : (id : String) (t : TerminationState) → lookup id m ≡ some t → t.job_id ≡ id
  pub counted : (id : String) (t : TerminationState) → lookup id m ≡ some t → 1 ≤ t.request_count

pub record AreUpdates (m : Dict StatusUpdate) : Type 0 where
  pub unique : Unique m
  pub filed : (id : String) (u : StatusUpdate) → lookup id m ≡ some u → u.job_id ≡ id

pub record IsValid (p : RaceProtector) : Type 0 where
  pub terminations : AreTerminations p.active_terminations
  pub updates : AreUpdates p.pending_status_updates

insert-AreTerminations :
    (id : String) (t : TerminationState) (m : Dict TerminationState)
    → t.job_id ≡ id
    → 1 ≤ t.request_count
    → AreTerminations m
    → AreTerminations (insert id t m)
insert-AreTerminations id t m f c v = record {
  unique = insert-Unique id t m v.unique;
  filed = λ j u h. ground (arith, lookup-insert id j t m, eq_iff id j, v.filed j u);
  counted = λ j u h. ground (arith, lookup-insert id j t m, v.counted j u);
}

insert-AreUpdates :
    (id : String) (t : StatusUpdate) (m : Dict StatusUpdate)
    → t.job_id ≡ id
    → AreUpdates m
    → AreUpdates (insert id t m)
insert-AreUpdates id t m f v = record {
  unique = insert-Unique id t m v.unique;
  filed = λ j u h. ground (arith, lookup-insert id j t m, eq_iff id j, v.filed j u);
}

retain-AreTerminations :
    (keep : TerminationState → Bool) (m : Dict TerminationState)
    → AreTerminations m
    → AreTerminations (retain keep m)
retain-AreTerminations keep m v = record {
  unique = retain-Unique keep m v.unique;
  filed = λ j u h. ground (arith, lookup-retain keep j m v.unique, v.filed j u);
  counted = λ j u h. ground (arith, lookup-retain keep j m v.unique, v.counted j u);
}

no_updates : AreUpdates []
unfolding lookup
no_updates = record { unique = tt; filed = λ id u h. cc }

pub new_race_protector-IsValid : IsValid new_race_protector
unfolding new_race_protector lookup
new_race_protector-IsValid = record {
  terminations = record { unique = tt; filed = λ id t h. cc; counted = λ id t h. cc };
  updates = no_updates;
}

record_found-filed :
    (id : String) (now : ℕ) (o : Option TerminationState)
    → ((t : TerminationState) → o ≡ some t → t.job_id ≡ id)
    → (record_found id now o).0.job_id ≡ id
unfolding record_found
record_found-filed id now none f = refl
record_found-filed id now (some t) f = ground (arith, f t refl)

record_found-counted :
    (id : String) (now : ℕ) (o : Option TerminationState)
    → 1 ≤ (record_found id now o).0.request_count
unfolding record_found
record_found-counted id now none = omega arith
record_found-counted id now (some t) = ground arith

request-AreTerminations :
    (id : String) (now : ℕ) (p : RaceProtector)
    → IsValid p
    → AreTerminations (record_termination_request id now p).0.active_terminations
unfolding record_termination_request
request-AreTerminations id now p v =
    insert-AreTerminations id _ p.active_terminations
      (record_found-filed id now _ (v.terminations.filed id)) (record_found-counted id now _)
      v.terminations

complete-AreTerminations :
    (id : String) (err : Option String) (now : ℕ) (p : RaceProtector)
    → IsValid p
    → AreTerminations (complete_termination id err now p).active_terminations
unfolding complete_termination
complete-AreTerminations id err now p v = elim (Option-cases (lookup id p.active_terminations)) [
  | inl e ↦ rw (e, complete_termination) v.terminations
  | inr (t, e) ↦
      rw (e, complete_termination)
        (insert-AreTerminations id _ p.active_terminations (v.terminations.filed id t e)
          (v.terminations.counted id t e) v.terminations)
]

complete-AreUpdates :
    (id : String) (err : Option String) (now : ℕ) (p : RaceProtector)
    → AreUpdates p.pending_status_updates
    → AreUpdates (complete_termination id err now p).pending_status_updates
unfolding complete_termination
complete-AreUpdates id err now p v = elim (Option-cases (lookup id p.active_terminations)) [
  | inl e ↦ rw (e, complete_termination) v
  | inr (t, e) ↦ rw (e, complete_termination) v
]

store_update-IsValid :
    (id : String) (status : JobStatus) (message : String) (now : ℕ) (o : Option StatusUpdate)
    (p : RaceProtector)
    → lookup id p.pending_status_updates ≡ o
    → IsValid p
    → IsValid (store_update id status message now o p)
unfolding store_update
store_update-IsValid id status message now none p e v = record {
  terminations = v.terminations;
  updates = insert-AreUpdates id _ p.pending_status_updates refl v.updates;
}
store_update-IsValid id status message now (some u) p e v = record {
  terminations = v.terminations;
  updates =
      insert-AreUpdates id _ p.pending_status_updates (ground (arith, v.updates.filed id u))
        v.updates;
}

-- Every call of a method keeps the maps well formed.
pub step-IsValid : (c : Call) (p : RaceProtector) → IsValid p → IsValid (step c p)
unfolding step set_disconnecting set_reconnecting can_accept_job queue_status_update
    flush_pending_status_updates cleanup_old_terminations record_termination_request
step-IsValid (disconnecting true) p v = record {
  terminations = v.terminations;
  updates = v.updates;
}
step-IsValid (disconnecting false) p v = record {
  terminations = v.terminations;
  updates = v.updates;
}
step-IsValid (reconnecting true) p v = record { terminations = v.terminations; updates = v.updates }
step-IsValid (reconnecting false) p v = record {
  terminations = v.terminations;
  updates = v.updates;
}
step-IsValid (accept id) p v =
    if_cases {A = RaceProtector × Bool × String × List Event} (λ r. IsValid r.0) p.is_disconnecting
      (record { terminations = v.terminations; updates = v.updates })
      (if_cases {A = RaceProtector × Bool × String × List Event} (λ r. IsValid r.0)
        (has_pending_termination _) v v)
step-IsValid (request id now) p v = record {
  terminations = request-AreTerminations id now p v;
  updates = v.updates;
}
step-IsValid (complete id err now) p v = record {
  terminations = complete-AreTerminations id err now p v;
  updates = complete-AreUpdates id err now p v.updates;
}
step-IsValid (queue id status message now) p v =
    if_cases {A = RaceProtector × Bool × List Event} (λ r. IsValid r.0) p.is_reconnecting
      (store_update-IsValid id status message now _ p refl v) v
step-IsValid flush p v =
    if_cases {A = RaceProtector × List StatusUpdate} (λ r. IsValid r.0)
      (length p.pending_status_updates == 0) v
      (record { terminations = v.terminations; updates = no_updates })
step-IsValid (cleanup max_age now) p v = record {
  terminations = retain-AreTerminations _ p.active_terminations v.terminations;
  updates = v.updates;
}

-- So they are well formed after any history of calls.
pub run-IsValid : (cs : List Call) (p : RaceProtector) → IsValid p → IsValid (run cs p)
unfolding run
run-IsValid [] p v = v
run-IsValid (c ∷ cs) p v = run-IsValid cs (step c p) (step-IsValid c p v)
