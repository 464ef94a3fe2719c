-- ===== src/Permissions/History.antt =====
-- The history of permission updates (pkg/agent/participant_permission_manager.go).
use mathlib.Core.List.{append-nil}
use livekit_agent_sdk_go.Prelude.{
  ℕ, ◌≡◌, refl, sym, ap, ◌∙◌, String, true, Bool-cases, inl, inr, Option, none, some, List, [], ◌∷◌,
  ◌++◌, arith, ltb, length, drop, eq_refl,
}
use livekit_agent_sdk_go.Prelude.Suffix.{last_of, last_of-snoc}
use livekit_agent_sdk_go.Prelude.Dict.{lookup, lookup-insert}
use livekit_agent_sdk_go.Permissions.Policy.{ParticipantPermission}
use livekit_agent_sdk_go.Permissions.{
  ParticipantPermissionManager, ParticipantPermissions, PermissionChange, keep_ten, record_change,
  updated, participant_or, new_participant, update_participant_permissions, get_permission_history,
}

-- The new permissions and the time of each update, in order.
abbrev pub Updates : Type 0
Updates = List (Option ParticipantPermission × ℕ)

unfoldable pub update_all :
    String → Updates → ParticipantPermissionManager → ParticipantPermissionManager
update_all id [] m = m
update_all id ((perms, now) ∷ us) m =
    update_all id us (update_participant_permissions id perms now m)

abbrev pub change_to :
    Option ParticipantPermission → Option ParticipantPermission → ℕ → PermissionChange
change_to before perms now = record {
  timestamp = now;
  from = before;
  to = perms;
  reason = "permission_update";
  approved = true;
}

-- Each update of permissions that are known is a change from what the one before it set.
unfoldable pub changes : Option ParticipantPermission → Updates → List PermissionChange
changes before [] = []
changes none ((perms, now) ∷ us) = changes perms us
changes (some c) ((perms, now) ∷ us) = change_to (some c) perms now ∷ changes perms us

keep_ten-last : (h : List PermissionChange) → keep_ten h ≡ last_of 10 h
unfolding keep_ten
keep_ten-last h = elim (Bool-cases (ltb 10 (length h))) [
  | inl long ↦ rw long refl
  | inr short ↦ rw short (ap (λ k. drop k h) {x = 0} (ground arith))
]

append_one :
    (h : List PermissionChange) (c : PermissionChange) (cs : List PermissionChange)
    → (h ++ c ∷ []) ++ cs ≡ h ++ c ∷ cs
append_one [] c cs = refl
append_one (x ∷ h) c cs = ap (λ ys. x ∷ ys) (append_one h c cs)

lookup-update :
    (id : String) (perms : Option ParticipantPermission) (now : ℕ)
    (m : ParticipantPermissionManager)
    → lookup id (update_participant_permissions id perms now m).permissions
      ≡ some (updated perms now (participant_or id none (lookup id m.permissions)))
unfolding update_participant_permissions
lookup-update id perms now m = ground (
  arith,
  eq_refl id,
  lookup-insert id id (updated perms now (participant_or id none (lookup id m.permissions)))
      m.permissions,
)

recorded :
    (perms : Option ParticipantPermission) (now : ℕ) (us : Updates) (h : List PermissionChange)
    (p : ParticipantPermissions) (cur : Option ParticipantPermission)
    → p.current ≡ cur
    → p.change_history ≡ last_of 10 h
    → (h' : List PermissionChange) × (record_change perms now p ≡ last_of 10 h')
      × (h ++ changes cur ((perms, now) ∷ us) ≡ h' ++ changes perms us)
unfolding record_change changes
recorded perms now us h p none c e = (h, rw c e, refl)
recorded perms now us h p (some was) c e =
    let change = change_to (some was) perms now in
    (
      h ++ change ∷ [],
      rw c (keep_ten-last (p.change_history ++ change ∷ []) ∙ rw e (last_of-snoc 10 h change)),
      sym (append_one h change (changes perms us)),
    )

history-update_all :
    (id : String) (us : Updates) (h : List PermissionChange) (p : ParticipantPermissions)
    (m : ParticipantPermissionManager)
    → lookup id m.permissions ≡ some p
    → p.change_history ≡ last_of 10 h
    → get_permission_history id (update_all id us m) ≡ last_of 10 (h ++ changes p.current us)
unfolding update_all get_permission_history changes participant_or updated
history-update_all id [] h p m l e = rw l (e ∙ ap (λ xs. last_of 10 xs) (sym (append-nil h)))
history-update_all id ((perms, now) ∷ us) h p m l e =
    let (h', kept, same) = recorded perms now us h p p.current refl e in
    history-update_all id us h' (updated perms now p)
      (update_participant_permissions id perms now m)
      (lookup-update id perms now m
        ∙ ap (λ o. some (updated perms now (participant_or id none o))) l)
      kept
    ∙ ap (λ xs. last_of 10 xs) (sym same)

-- The history of a participant that is seen for the first time, after any number of updates, holds
-- the last ten of its changes, in order: each goes from the permissions of the update before it to
-- the new ones, and the first update is no change.
pub updates_history :
    (id : String) (us : Updates) (m : ParticipantPermissionManager)
    → lookup id m.permissions ≡ none
    → get_permission_history id (update_all id us m) ≡ last_of 10 (changes none us)
unfolding update_all get_permission_history changes participant_or updated new_participant
    record_change
updates_history id [] m l = rw l refl
updates_history id ((perms, now) ∷ us) m l =
    history-update_all id us [] (updated perms now (new_participant id none))
      (update_participant_permissions id perms now m)
      (lookup-update id perms now m
        ∙ ap (λ o. some (updated perms now (participant_or id none o))) l)
      refl
