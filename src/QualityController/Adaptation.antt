-- ===== src/QualityController/Adaptation.antt =====
-- The history of a track whose quality is adapted (pkg/agent/quality_controller.go).
use livekit_agent_sdk_go.Prelude.{
  ℕ, ◌+◌, ◌≤◌, ◌≡◌, ◌≢◌, refl, false, Bool-cases, inl, inr, Option, none, some, List, [], ◌∷◌, ◌++◌,
  arith, ◌==◌, if_cases, All,
}
use livekit_agent_sdk_go.QualityController.{
  QualityChange, ChangeReason, QualityAdaptationPolicy, TrackReadings, TrackQualityMonitor,
  last_change, later_or, changed_recently, adopt_quality, limit_quality, target_quality,
  update_track_quality,
}

-- The next change starts from the quality that this one set, and after the minimum time.
abbrev Follows : ℕ → QualityChange → List QualityChange → Type 0
Follows gap c [] = Unit
Follows gap c (d ∷ ds) = (d.from_quality ≡ c.to_quality) × (c.timestamp + gap ≤ d.timestamp)

unfoldable pub IsChain : ℕ → List QualityChange → Type 0
IsChain gap [] = Unit
IsChain gap (c ∷ cs) = Follows gap c cs × IsChain gap cs

-- A change to another quality, within the limits of the policy.
abbrev pub IsProper : QualityAdaptationPolicy → QualityChange → Type 0
IsProper policy c =
    (policy.min_quality ≤ c.to_quality)
    × (c.to_quality ≤ policy.max_quality)
    × (c.from_quality ≢ c.to_quality)

abbrev pub EndsWith : ℕ → Option QualityChange → Type 0
EndsWith quality none = Unit
EndsWith quality (some c) = quality ≡ c.to_quality

pub record IsCoherent (policy : QualityAdaptationPolicy) (m : TrackQualityMonitor) : Type 0 where
  pub chain : IsChain policy.min_time_between_changes m.quality_history
  pub proper : All (IsProper policy) m.quality_history
  pub ends : EndsWith m.current_quality (last_change m.quality_history)

abbrev LinksTo : ℕ → Option QualityChange → QualityChange → Type 0
LinksTo gap none d = Unit
LinksTo gap (some c) d = (d.from_quality ≡ c.to_quality) × (c.timestamp + gap ≤ d.timestamp)

LinksTo-tail :
    (gap : ℕ) (c b d : QualityChange) (o : Option QualityChange)
    → LinksTo gap (later_or c (later_or b o)) d
    → LinksTo gap (later_or b o) d
LinksTo-tail gap c b d none h = h
LinksTo-tail gap c b d (some e) h = h

IsChain-snoc :
    (gap : ℕ) (cs : List QualityChange) (d : QualityChange)
    → IsChain gap cs
    → LinksTo gap (last_change cs) d
    → IsChain gap (cs ++ d ∷ [])
unfolding IsChain
IsChain-snoc gap [] d h link = (tt, tt)
IsChain-snoc gap (c ∷ []) d h link = (link, (tt, tt))
IsChain-snoc gap (c ∷ b ∷ cs) d h link =
    (h.0, IsChain-snoc gap (b ∷ cs) d h.1 (LinksTo-tail gap c b d (last_change cs) link))

All-snoc :
    (policy : QualityAdaptationPolicy) (cs : List QualityChange) (d : QualityChange)
    → All (IsProper policy) cs
    → IsProper policy d
    → All (IsProper policy) (cs ++ d ∷ [])
All-snoc policy [] d h k = (k, h)
All-snoc policy (c ∷ cs) d h k = (h.0, All-snoc policy cs d h.1 k)

last_change-snoc :
    (cs : List QualityChange) (d : QualityChange) → last_change (cs ++ d ∷ []) ≡ some d
last_change-snoc [] d = refl
last_change-snoc (c ∷ cs) d = rw (last_change-snoc cs d) refl

limit-InRange :
    (policy : QualityAdaptationPolicy) (target : ℕ)
    → policy.min_quality ≤ policy.max_quality
    → (policy.min_quality ≤ limit_quality policy target)
      × (limit_quality policy target ≤ policy.max_quality)
unfolding limit_quality
limit-InRange policy target ordered = ground arith

LinksTo-change :
    (policy : QualityAdaptationPolicy) (d : QualityChange) (o : Option QualityChange)
    → changed_recently policy d.timestamp o ≡ false
    → EndsWith d.from_quality o
    → LinksTo policy.min_time_between_changes o d
unfolding changed_recently
LinksTo-change policy d none late h = tt
LinksTo-change policy d (some c) late h = (h, ground arith)

adopt-IsCoherent :
    (policy : QualityAdaptationPolicy) (target : ℕ) (reason : ChangeReason) (now : ℕ)
    (m : TrackQualityMonitor)
    → IsCoherent policy m
    → changed_recently policy now (last_change m.quality_history) ≡ false
    → (target == m.current_quality) ≡ false
    → policy.min_quality ≤ target
    → target ≤ policy.max_quality
    → IsCoherent policy (adopt_quality target reason now m)
unfolding adopt_quality
adopt-IsCoherent policy target reason now m h late other low high =
    let change : QualityChange = record {
      from_quality = m.current_quality;
      to_quality = target;
      reason = reason;
      timestamp = now;
    } in
    if_cases (λ n. IsCoherent policy n) m.has_track
      (record {
        chain =
            IsChain-snoc policy.min_time_between_changes m.quality_history change h.chain
              (LinksTo-change policy change (last_change m.quality_history) late h.ends);
        proper = All-snoc policy m.quality_history change h.proper (low, high, λ e. ground arith);
        ends = rw (last_change-snoc m.quality_history change) refl;
      })
      h

update-IsCoherent :
    (policy : QualityAdaptationPolicy) (r : TrackReadings) (now later : ℕ) (m : TrackQualityMonitor)
    → policy.min_quality ≤ policy.max_quality
    → IsCoherent policy m
    → IsCoherent policy (update_track_quality policy r now later m)
unfolding update_track_quality
update-IsCoherent policy r now later m ordered h =
    let wanted = target_quality policy r later m in
    let target = limit_quality policy wanted.0 in
    let bounds = limit-InRange policy wanted.0 ordered in
    elim (Bool-cases (changed_recently policy now (last_change m.quality_history))) [
      | inl early ↦ rw early h
      | inr late ↦ elim (Bool-cases (target == m.current_quality)) [
        | inl same ↦ rw (late, same) h
        | inr other ↦
            rw (late, other)
              (adopt-IsCoherent policy target wanted.1 now m h late other bounds.0 bounds.1)
      ]
    ]

-- Rounds of the update loop on one track: the readings and the two times of each.
unfoldable pub run_rounds :
    QualityAdaptationPolicy
    → List (TrackReadings × ℕ × ℕ)
    → TrackQualityMonitor
    → TrackQualityMonitor
run_rounds policy [] m = m
run_rounds policy ((r, now, later) ∷ rounds) m =
    run_rounds policy rounds (update_track_quality policy r now later m)

-- Under a policy whose lowest quality is at most its highest, any series of updates of a track keeps
-- its history coherent: each change leads to another quality within the limits, starts from the
-- quality that the one before it set, comes at least the minimum time after it, and the current
-- quality is the one that the last change set.
pub rounds-IsCoherent :
    (policy : QualityAdaptationPolicy) (rounds : List (TrackReadings × ℕ × ℕ))
    (m : TrackQualityMonitor)
    → policy.min_quality ≤ policy.max_quality
    → IsCoherent policy m
    → IsCoherent policy (run_rounds policy rounds m)
unfolding run_rounds
rounds-IsCoherent policy [] m ordered h = h
rounds-IsCoherent policy ((r, now, later) ∷ rounds) m ordered h =
    rounds-IsCoherent policy rounds (update_track_quality policy r now later m) ordered
      (update-IsCoherent policy r now later m ordered h)
