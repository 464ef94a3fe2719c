-- ===== src/JobRecovery/Attempts.antt =====
-- What an attempt to recover the saved jobs does to each of them (pkg/agent/job_recovery.go).
use livekit_agent_sdk_go.Prelude.{
  ℕ, suc, ◌+◌, ◌≤◌, ◌≡◌, refl, sym, ap, ◌∙◌, String, Bool-cases, true, false, Option, none, some,
  List, [], ◌∷◌, All, length, arith, ltb, leb, str_eq, eq_iff, inl, inr, if◌then◌else◌, if_cases,
}
use livekit_agent_sdk_go.Prelude.Exec.{Exec, ok, Returns, returns, Returns-map, ◌>>=◌}
use livekit_agent_sdk_go.Prelude.Dict.{
  Dict, lookup, insert, Unique, lookup-insert, lookup-delete, insert-Unique, delete-Unique,
}
use livekit_agent_sdk_go.JobRecovery.{
  Environment, RecoverableJob, JobRecoveryManager, RecoveryResult, declined, too_old, recovered,
  needs_token, attempt_one, recover_job, bumped, increment_found, increment_recovery_attempts,
  after_attempt, attempt_all, attempted, has_race, attempt_job_recovery,
}

-- What becomes of one pending job: it stays, with its attempt counted, only if it needs a new token
-- and this was not the fourth attempt.
unfoldable pub kept_after : RecoveryResult → Option RecoverableJob → Option RecoverableJob
kept_after needs_token (some j) = if ltb 3 (j.recovery_attempts + 1) then none else some (bumped j)
kept_after needs_token none = none
kept_after declined o = none
kept_after too_old o = none
kept_after recovered o = none

lookup-increment :
    (id k : String) (o : Option RecoverableJob) (pending : Dict RecoverableJob)
    → lookup id pending ≡ o
    → lookup k (increment_found id o pending)
      ≡ (if str_eq id k then kept_after needs_token o else lookup k pending)
unfolding increment_found kept_after
lookup-increment id k none pending e = elim (Bool-cases (str_eq id k)) [
  | inl t ↦ rw (t, sym ((eq_iff id k).0 t)) e
  | inr f ↦ rw f refl
]
lookup-increment id k (some j) pending e = elim (Bool-cases (ltb 3 (j.recovery_attempts + 1))) [
  | inl t ↦ rw t (lookup-delete id k pending)
  | inr f ↦ rw f (lookup-insert id k (bumped j) pending)
]

lookup-after_attempt :
    (id k : String) (r : RecoveryResult) (pending : Dict RecoverableJob)
    → lookup k (after_attempt id r pending)
      ≡ (if str_eq id k then kept_after r (lookup id pending) else lookup k pending)
unfolding after_attempt increment_recovery_attempts kept_after
lookup-after_attempt id k declined pending = lookup-delete id k pending
lookup-after_attempt id k too_old pending = lookup-delete id k pending
lookup-after_attempt id k recovered pending = lookup-delete id k pending
lookup-after_attempt id k needs_token pending =
    lookup-increment id k (lookup id pending) pending refl

module _ (env : Environment) (timeout : ℕ) (k : String) where
  -- What the whole loop leaves of a job, by what the copied map holds for it.
  abbrev pub left_of : Option RecoverableJob → Option RecoverableJob → Option RecoverableJob
  left_of none o = o
  left_of (some j) o = kept_after (attempt_one env timeout k j) o

  abbrev pub result_of : Option RecoverableJob → Option RecoveryResult → Option RecoveryResult
  result_of none o = o
  result_of (some j) o = some (attempt_one env timeout k j)

  attempt_all-lookup :
      (copy : Dict RecoverableJob) (pending : Dict RecoverableJob) (results : Dict RecoveryResult)
      → Unique copy
      → (lookup k (attempt_all env timeout copy (pending, results)).0
          ≡ left_of (lookup k copy) (lookup k pending))
        × (lookup k (attempt_all env timeout copy (pending, results)).1
            ≡ result_of (lookup k copy) (lookup k results))
  unfolding attempt_all lookup
  attempt_all-lookup [] pending results u = (refl, refl)
  attempt_all-lookup ((id, j) ∷ copy) pending results u =
      let r = attempt_one env timeout id j in
      let rest = attempt_all-lookup copy (after_attempt id r pending) (insert id r results) u.1 in
      elim (Bool-cases (str_eq id k)) [
        | inl t ↦
            let same = (eq_iff id k).0 t in
            let gone : lookup k copy ≡ none = rw (sym same) u.0 in
            rw t (
              rest.0
                  ∙ ap (λ o. left_of o (lookup k (after_attempt id r pending))) gone
                  ∙ lookup-after_attempt id k r pending
                  ∙ rw t
                      (ap (λ i. kept_after (attempt_one env timeout i j) (lookup i pending)) same),
              rest.1
                  ∙ ap (λ o. result_of o (lookup k (insert id r results))) gone
                  ∙ lookup-insert id k r results
                  ∙ rw t (ap (λ i. some (attempt_one env timeout i j)) same),
            )
        | inr f ↦ rw f (
          rest.0
              ∙ ap (λ o. left_of (lookup k copy) o)
                  (lookup-after_attempt id k r pending ∙ rw f refl),
          rest.1 ∙ ap (λ o. result_of (lookup k copy) o) (lookup-insert id k r results ∙ rw f refl),
        )
      ]

attempted-lookup :
    (env : Environment) (m : JobRecoveryManager) (k : String) (j : RecoverableJob)
    → Unique m.pending_recovery
    → lookup k m.pending_recovery ≡ some j
    → (lookup k (attempted env m).0.pending_recovery
        ≡ kept_after (attempt_one env m.recovery_timeout k j) (some j))
      × (lookup k (attempted env m).1 ≡ some (attempt_one env m.recovery_timeout k j))
unfolding attempted
attempted-lookup env m k j u e =
    let (left, result) =
      attempt_all-lookup env m.recovery_timeout k m.pending_recovery m.pending_recovery [] u in
    (left ∙ rw e refl, result ∙ rw e refl)

after_attempt-Unique :
    (id : String) (r : RecoveryResult) (pending : Dict RecoverableJob)
    → Unique pending
    → Unique (after_attempt id r pending)
unfolding after_attempt increment_recovery_attempts
after_attempt-Unique id declined pending u = delete-Unique id pending u
after_attempt-Unique id too_old pending u = delete-Unique id pending u
after_attempt-Unique id recovered pending u = delete-Unique id pending u
after_attempt-Unique id needs_token pending u = found (lookup id pending)
  where
    found : (o : Option RecoverableJob) → Unique (increment_found id o pending)
    found none = u
    found (some j) =
        if_cases Unique (ltb 3 (j.recovery_attempts + 1)) (delete-Unique id pending u)
          (insert-Unique id (bumped j) pending u)

attempt_all-Unique :
    (env : Environment) (timeout : ℕ) (copy pending : Dict RecoverableJob)
    (results : Dict RecoveryResult)
    → Unique pending
    → Unique (attempt_all env timeout copy (pending, results)).0
unfolding attempt_all
attempt_all-Unique env timeout [] pending results u = u
attempt_all-Unique env timeout ((id, j) ∷ copy) pending results u =
    attempt_all-Unique env timeout copy _ _
      (after_attempt-Unique id (attempt_one env timeout id j) pending u)

-- The worker reconnects a number of times, each time in its own environment.
unfoldable pub retry : List Environment → JobRecoveryManager → Exec JobRecoveryManager
unfolding attempt_job_recovery
retry [] m = ok m
retry (env ∷ envs) m = attempt_job_recovery env m >>= λ r. retry envs r.0

-- In none of the attempts a job is declined or too old after a goroutine was started.
abbrev pub NoRaces : List Environment → JobRecoveryManager → Type 0
NoRaces [] m = Unit
NoRaces (env ∷ envs) m =
    (has_race env m.recovery_timeout false m.pending_recovery ≡ false)
    × NoRaces envs (attempted env m).0

abbrev pub with_attempts : ℕ → RecoverableJob → RecoverableJob
with_attempts n j = record j { recovery_attempts = n }

none_stays :
    (envs : List Environment) (m : JobRecoveryManager) (k : String)
    → Unique m.pending_recovery
    → NoRaces envs m
    → lookup k m.pending_recovery ≡ none
    → Returns (λ r. lookup k r.pending_recovery ≡ none) (retry envs m)
unfolding retry attempt_job_recovery attempted
none_stays [] m k u no_races e = returns e
none_stays (env ∷ envs) m k u no_races e =
    let all = m.pending_recovery in
    rw (no_races.0) (
      none_stays envs (attempted env m).0 k (attempt_all-Unique env m.recovery_timeout all all [] u)
        no_races.1
        ((attempt_all-lookup env m.recovery_timeout k all all [] u).0
          ∙ ap (λ o. left_of env m.recovery_timeout k o (lookup k all)) e
          ∙ e))

-- Where a job that has failed so often is after so many more attempts that fail.
abbrev pub after_failures : ℕ → RecoverableJob → Option RecoverableJob
after_failures n j = if leb n 3 then some (with_attempts n j) else none

-- In a series of attempts, in each of which no job is declined or too old after the goroutine of
-- another was started, and with no SaveJobForRecovery in between: a job that has failed three times at
-- most, that the handler wants to recover and that is not too old, but whose token connects in none of
-- them, stays pending through three failed attempts, which are counted; the fourth one drops it, and it
-- does not come back in those that follow. The attempts return, and may differ in all else.
pub four_attempts :
    (envs : List Environment) (m : JobRecoveryManager) (k : String) (j : RecoverableJob)
    → Unique m.pending_recovery
    → lookup k m.pending_recovery ≡ some j
    → NoRaces envs m
    → All (λ env. attempt_one env m.recovery_timeout k j ≡ needs_token) envs
    → j.recovery_attempts ≤ 3
    → Returns
        (λ r. lookup k r.pending_recovery ≡ after_failures (j.recovery_attempts + length envs) j)
        (retry envs m)
unfolding retry kept_after attempt_one recover_job bumped attempt_job_recovery attempted
four_attempts [] m k j u e no_races fails h =
    let few : leb (j.recovery_attempts + 0) 3 ≡ true = ground arith in
    returns
      (rw few (e ∙ ap (λ n. some (with_attempts n j)) {y = j.recovery_attempts + 0} (omega arith)))
four_attempts (env ∷ envs) m k j u e no_races fails h =
    let all = m.pending_recovery in
    let u' = attempt_all-Unique env m.recovery_timeout all all [] u in
    let step = (attempted-lookup env m k j u e).0 ∙ ap (λ r. kept_after r (some j)) (fails.0) in
    rw (no_races.0) (elim (Bool-cases (ltb 3 (j.recovery_attempts + 1))) [
      | inl t ↦
          let many : leb (j.recovery_attempts + suc (length envs)) 3 ≡ false = ground arith in
          Returns-map (none_stays envs (attempted env m).0 k u' no_races.1 (step ∙ rw t refl))
            (λ r gone. rw many gone)
      | inr f ↦
          Returns-map
            (four_attempts envs (attempted env m).0 k (bumped j) u' (step ∙ rw f refl) no_races.1
              fails.1 (ground arith))
            (λ r left.
              left
              ∙ ap (λ x. after_failures x j) {x = j.recovery_attempts + 1 + length envs}
                  {y = j.recovery_attempts + suc (length envs)} (omega arith))
    ])
