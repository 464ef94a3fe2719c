-- ===== src/Permissions/Requests.antt =====
-- RequestPermissionChange and the policies (pkg/agent/participant_permission_manager.go).
use livekit_agent_sdk_go.Prelude.{
  ℕ, ◌+◌, ◌≤◌, ◌≡◌, ◌↔◌, refl, sym, String, Bool, true, false, ◌&&◌, Bool-cases, inl, inr, Option,
  none, some, List, [], ◌∷◌, arith, length, str_eq, eq_iff, if◌then◌else◌, All, length-append,
}
use livekit_agent_sdk_go.Prelude.Dict.{lookup, insert, lookup-insert}
use livekit_agent_sdk_go.Prelude.Exec.{Exec, ok, panic, out_of_fuel, ◌>>=◌, Returns, returns}
use livekit_agent_sdk_go.Permissions.Policy.{
  ParticipantPermission, PermissionPolicy, time_based_policy, time_based_evaluate, outside,
  outside_hours,
}
use livekit_agent_sdk_go.Permissions.{
  ParticipantPermissionManager, ParticipantPermissions, participant_or, new_participant,
  evaluate_policies, request_recorded, request_permission_change, get_participant_permissions,
  get_permission_history, current_or, history_of,
}

module _ (hour : ℕ) (id : String) (current requested : Option ParticipantPermission) where
  -- A policy that approves the request, for some reason.
  abbrev pub Approves : PermissionPolicy → Type 0
  Approves policy =
      (reason : String) × (policy.evaluate hour id current requested ≡ ok (true, reason))

  -- A policy that answers without a panic.
  abbrev pub Answers : PermissionPolicy → Type 0
  Answers policy = (r : Bool × String) × (policy.evaluate hour id current requested ≡ ok r)

  approved_step :
      (e later : Exec (Bool × String))
      → Returns
          (λ r. r.0 ≡ true)
          (e >>= (λ (r : Bool × String). if r.0 then later else ok (false, r.1)))
      → ((reason : String) × (e ≡ ok (true, reason))) × Returns (λ r. r.0 ≡ true) later
  approved_step (ok (true, reason)) later h = ((reason, refl), h)
  approved_step (ok (false, reason)) later (returns h) = absurd (ground arith)
  approved_step panic later h = elim h [ ]
  approved_step out_of_fuel later h = elim h [ ]

  -- The policies approve together exactly if each of them answers, and approves: a single one that
  -- refuses or panics is enough to keep the request from being approved.
  pub policies_approve_iff :
      (policies : List PermissionPolicy)
      → Returns (λ r. r.0 ≡ true) (evaluate_policies hour id current requested policies)
        ↔ All Approves policies
  unfolding evaluate_policies
  policies_approve_iff [] = (λ h. tt, λ a. returns refl)
  policies_approve_iff (policy ∷ rest) = (
    λ h.
        let (a, r) =
          approved_step (policy.evaluate hour id current requested)
            (evaluate_policies hour id current requested rest) h in
        (a, (policies_approve_iff rest).0 r),
    λ a. rw a.0.1 ((policies_approve_iff rest).1 a.1),
  )

  policies_answer :
      (policies : List PermissionPolicy)
      → All Answers policies
      → (r : Bool × String) × (evaluate_policies hour id current requested policies ≡ ok r)
  unfolding evaluate_policies
  policies_answer [] a = ((true, ""), refl)
  policies_answer (policy ∷ rest) ((r, e), a) =
      let (s, f) = policies_answer rest a in
      elim (Bool-cases r.0) [ inl t ↦ (s, rw (e, t) f) | inr n ↦ ((false, r.1), rw (e, n) refl) ]

-- The participant that a request for it works on.
abbrev pub asked : String → ParticipantPermissionManager → ParticipantPermissions
asked id m = participant_or id m.defaults (lookup id m.permissions)

lookup-request :
    (id other : String) (p : ParticipantPermissions) (m : ParticipantPermissionManager)
    → lookup other (insert id p m.permissions)
      ≡ (if str_eq id other then some p else lookup other m.permissions)
lookup-request id other p m = lookup-insert id other p m.permissions

-- What a request leaves in the map.
abbrev pub after_request :
    String
    → Option ParticipantPermission
    → ℕ
    → Bool × String
    → ParticipantPermissionManager
    → ParticipantPermissionManager
after_request id requested now r m = record m {
  permissions = insert id (request_recorded requested now r (asked id m)) m.permissions;
}

grown :
    (id : String) (requested : Option ParticipantPermission) (now : ℕ) (r : Bool × String)
    (defaults : Option ParticipantPermission) (o : Option ParticipantPermissions)
    → length (request_recorded requested now r (participant_or id defaults o)).change_history
      ≡ length (history_of o) + 1
unfolding request_recorded participant_or new_participant
grown id requested now r defaults none = refl
grown id requested now r defaults (some p) = length-append p.change_history _

history_grows :
    (id other : String) (requested : Option ParticipantPermission) (now : ℕ) (r : Bool × String)
    (m : ParticipantPermissionManager)
    → length (get_permission_history other (after_request id requested now r m))
      ≡ length (get_permission_history other m) + (if str_eq id other then 1 else 0)
unfolding get_permission_history
history_grows id other requested now r m =
    rw (lookup-request id other (request_recorded requested now r (asked id m)) m)
      (elim (Bool-cases (str_eq id other)) [
        | inl t ↦
            rw (t, sym ((eq_iff id other).0 t))
              (grown id requested now r m.defaults (lookup id m.permissions))
        | inr f ↦ rw f (omega arith)
      ])

same_rights :
    (id : String) (requested : Option ParticipantPermission) (now : ℕ) (r : Bool × String)
    (defaults : Option ParticipantPermission) (o : Option ParticipantPermissions)
    → current_or defaults (some (request_recorded requested now r (participant_or id defaults o)))
      ≡ current_or defaults o
unfolding request_recorded participant_or new_participant
same_rights id requested now r none none = refl
same_rights id requested now r (some d) none = refl
same_rights id requested now r defaults (some p) = refl

rights_kept :
    (id other : String) (requested : Option ParticipantPermission) (now : ℕ) (r : Bool × String)
    (m : ParticipantPermissionManager)
    → get_participant_permissions other (after_request id requested now r m)
      ≡ get_participant_permissions other m
unfolding get_participant_permissions
rights_kept id other requested now r m =
    rw (lookup-request id other (request_recorded requested now r (asked id m)) m)
      (elim (Bool-cases (str_eq id other)) [
        | inl t ↦
            rw (t, sym ((eq_iff id other).0 t))
              (same_rights id requested now r m.defaults (lookup id m.permissions))
        | inr f ↦ rw f refl
      ])

-- With policies that answer, a request always comes to an end. It changes nobody's permissions, not
-- even those of the participant that it is approved for; and it adds one entry to the history of
-- that participant, and none to another's, unless the agent may not manage permissions. Nothing is
-- cut from the history, however long it is.
pub request_correct :
    (id other : String) (requested : Option ParticipantPermission) (hour now : ℕ)
    (m : ParticipantPermissionManager)
    → All (Answers hour id (asked id m).current requested) m.policies
    → Returns
        (λ r.
          (get_participant_permissions other r.0 ≡ get_participant_permissions other m)
          × (length (get_permission_history other r.0)
              ≡ length (get_permission_history other m)
                + (if m.agent_caps.can_manage_permissions && str_eq id other then 1 else 0)))
        (request_permission_change id requested hour now m)
unfolding request_permission_change get_participant_permissions get_permission_history
request_correct id other requested hour now m a =
    let (r, e) = policies_answer hour id (asked id m).current requested m.policies a in
    elim (Bool-cases m.agent_caps.can_manage_permissions) [
      | inl t ↦
          rw (t, e)
            (returns
              (rights_kept id other requested now r m, history_grows id other requested now r m))
      | inr f ↦ rw f (returns (refl, omega arith))
    ]

-- A time-based policy whose first hour is not before its second one, such as a night from 22 to 6,
-- refuses to let anyone publish at any hour of the day.
pub night_refused :
    (start_hour end_hour hour : ℕ) (id : String) (current : Option ParticipantPermission)
    (p : ParticipantPermission)
    → end_hour ≤ start_hour
    → p.can_publish ≡ true
    → (time_based_policy start_hour end_hour).evaluate hour id current (some p)
      ≡ ok (false, outside_hours)
unfolding time_based_policy time_based_evaluate outside
night_refused start_hour end_hour hour id current p h wants = ground arith
