-- ===== src/Permissions/Sending.antt =====
-- CanSendDataTo and ValidatePermissions (pkg/agent/participant_permission_manager.go).
use mathlib.Core.List.{
  Mem, mem-cons_self, mem-cons_of_mem, eq-or-mem_of_mem-cons, not-mem-nil, Mem-prop,
}
use mathlib.Core.Logic.Or
use livekit_agent_sdk_go.Prelude.{
  ◌≡◌, ◌↔◌, ◌⊎◌, refl, String, true, false, Bool-cases, Option-cases, ap, nil_of_length, inl, inr,
  Option, none, some, List, [], ◌∷◌, arith, ltb, length, str_eq, eq_iff, All,
}
use livekit_agent_sdk_go.Prelude.Dict.{lookup}
use livekit_agent_sdk_go.Permissions.Policy.{TrackSource, ParticipantPermission}
use livekit_agent_sdk_go.Permissions.{
  ParticipantPermissionManager, ParticipantPermissions, listed, blocked, can_send_data_to,
  valid_source, first_invalid, validate_permissions, denies_data,
}

listed_iff : (id : String) (ids : List String) → (listed id ids ≡ true) ↔ Mem id ids
unfolding listed
listed_iff id [] = (λ h. absurd (ground arith), λ m. absurd (not-mem-nil m))
listed_iff id (x ∷ ids) = elim (Bool-cases (str_eq x id)) [
  | inl t ↦ rw t (λ h. rw ((eq_iff x id).0 t) mem-cons_self, λ m. refl)
  | inr f ↦ rw f (
    λ h. mem-cons_of_mem x ((listed_iff id ids).0 h),
    λ m. (listed_iff id ids).1 (
        Or.elim Mem-prop (eq-or-mem_of_mem-cons m) (λ same. absurd (ground (arith, eq_iff x id)))
          (λ rest. rest)),
  )
]

-- The record of a participant speaks against data for it.
pub data Objects : Option ParticipantPermissions → Type 0 where
  may_not_publish_data :
      {p : ParticipantPermissions} {c : ParticipantPermission}
      → p.current ≡ some c
      → c.can_publish_data ≡ false
      → Objects (some p)
  restricted :
      {p : ParticipantPermissions}
      → lookup "no_data_receive" p.custom_restrictions ≡ some true
      → Objects (some p)

blocked-Objects : (p : ParticipantPermissions) → blocked (some p) ≡ true → Objects (some p)
unfolding blocked
blocked-Objects p h = elim (Bool-cases (denies_data p.current)) [
  | inl t ↦ elim (Option-cases p.current) [
    | inl e ↦ absurd (ground arith)
    | inr (c, e) ↦ may_not_publish_data e (ground arith)
  ]
  | inr f ↦ elim (Option-cases (lookup "no_data_receive" p.custom_restrictions)) [
    | inl e ↦ absurd (ground arith)
    | inr (b, e) ↦ restricted (ground arith)
  ]
]

Objects-blocked : (o : Option ParticipantPermissions) → Objects o → blocked o ≡ true
unfolding blocked
Objects-blocked none x = elim x [ ]
Objects-blocked (some p) (may_not_publish_data e h) = ground arith
Objects-blocked (some p) (restricted e) = ground arith

blocked_iff : (o : Option ParticipantPermissions) → (blocked o ≡ true) ↔ Objects o
unfolding blocked
blocked_iff none = (λ h. absurd (ground arith), Objects-blocked none)
blocked_iff (some p) = (blocked-Objects p, Objects-blocked (some p))

-- The agent may send data to a participant exactly if it has the capability, its list of recipients
-- is empty or has the participant, and the participant's record does not object: it has no
-- permissions that exclude data, and no restriction `no_data_receive` that is switched on.
pub can_send_iff :
    (id : String) (m : ParticipantPermissionManager)
    → (can_send_data_to id m ≡ true) ↔ (
        (m.agent_caps.can_send_data ≡ true)
        × ((m.agent_caps.allowed_data_recipients ≡ [])
            ⊎ Mem id m.agent_caps.allowed_data_recipients)
        × ¬ Objects (lookup id m.permissions))
unfolding can_send_data_to
can_send_iff id m =
    let ids = m.agent_caps.allowed_data_recipients in
    let objects = blocked_iff (lookup id m.permissions) in
    let member = listed_iff id ids in
    (
      λ h. (
        ground arith,
        elim (Bool-cases (ltb 0 (length ids))) [
          | inl t ↦ inr (member.0 (ground arith))
          | inr f ↦ inl (nil_of_length ids (ground arith))
        ],
        λ x. absurd (ground (arith, objects.1 x)),
      ),
      λ (cap, who, fine). elim (Bool-cases (blocked (lookup id m.permissions))) [
        | inl t ↦ absurd (fine (objects.0 t))
        | inr f ↦ elim who [
          | inl e ↦ ground (arith, ap length e)
          | inr here ↦ ground (arith, member.1 here)
        ]
      ],
    )

first_invalid_iff :
    (ss : List TrackSource) → (first_invalid ss ≡ none) ↔ All (λ s. valid_source s ≡ true) ss
unfolding first_invalid
first_invalid_iff [] = (λ h. tt, λ a. refl)
first_invalid_iff (s ∷ ss) = elim (Bool-cases (valid_source s)) [
  | inl t ↦ rw t (λ h. (refl, (first_invalid_iff ss).0 h), λ a. (first_invalid_iff ss).1 a.1)
  | inr f ↦ rw f (λ h. absurd (ground arith), λ a. absurd (ground (arith, a.0)))
]

-- Permissions that let a participant publish are valid exactly if every source that they name is one
-- of the four known ones.
pub publish_valid_iff :
    (p : ParticipantPermission)
    → p.can_publish ≡ true
    → (validate_permissions (some p) ≡ none)
      ↔ All (λ s. valid_source s ≡ true) p.can_publish_sources
unfolding validate_permissions
publish_valid_iff p h = rw h (first_invalid_iff p.can_publish_sources)
