-- ===== src/TrackSubscription/Decisions.antt =====
-- What ShouldAutoSubscribe answers after a series of calls
-- (pkg/agent/track_subscription_manager.go).
use livekit_agent_sdk_go.Prelude.{
  ℕ, ◌≡◌, refl, ap, sym, ◌∙◌, Bool, true, false, Bool-cases, inl, inr, Option, none, some, List, [],
  ◌∷◌, ◌++◌, ◌&&◌, if◌then◌else◌,
}
use livekit_agent_sdk_go.Prelude.Int.{ℤ}
use livekit_agent_sdk_go.TrackSubscription.{
  TrackSubscriptionManager, TrackKind, track_kind_audio, track_kind_video, track_kind_other,
  new_track_subscription_manager, set_auto_subscribe, set_subscribe_audio, set_subscribe_video,
  set_source_priority, add_filter, clear_filters, passes_all, kind_refused, should_auto_subscribe,
}

-- The calls that change the manager.
pub data SettingCall (P : Type 0) : Type 0 where
  auto_subscribe_set subscribe_audio_set subscribe_video_set : Bool → SettingCall P
  source_priority_set : ℕ → ℤ → SettingCall P
  filter_added : (P → Bool) → SettingCall P
  filters_cleared : SettingCall P

if_self : (b : Bool) → (if b then true else false) ≡ b
if_self true = refl
if_self false = refl

if_both : (b x : Bool) → (if b then x else x) ≡ x
if_both true x = refl
if_both false x = refl

if_if :
    (a b x : Bool)
    → (if if a then b else false then x else false) ≡ (if a then if b then x else false else false)
if_if true b x = refl
if_if false b x = refl

tests_as_conjunction :
    (a k x : Bool)
    → (if a then if if k then false else true then false else x else false) ≡ (a && (k && x))
tests_as_conjunction true true x = refl
tests_as_conjunction true false x = refl
tests_as_conjunction false k x = refl

module _ {P : Type 0} where
  unfoldable pub apply_setting :
      SettingCall P → TrackSubscriptionManager P → TrackSubscriptionManager P
  unfolding set_auto_subscribe set_subscribe_audio set_subscribe_video set_source_priority
      add_filter clear_filters
  apply_setting (auto_subscribe_set b) m = set_auto_subscribe b m
  apply_setting (subscribe_audio_set b) m = set_subscribe_audio b m
  apply_setting (subscribe_video_set b) m = set_subscribe_video b m
  apply_setting (source_priority_set source priority) m = set_source_priority source priority m
  apply_setting (filter_added filter) m = add_filter filter m
  apply_setting filters_cleared m = clear_filters m

  unfoldable pub apply_settings :
      List (SettingCall P) → TrackSubscriptionManager P → TrackSubscriptionManager P
  apply_settings [] m = m
  apply_settings (c ∷ cs) m = apply_settings cs (apply_setting c m)

  -- The last value that a call gave, or the one before.
  unfoldable pub last_value : (SettingCall P → Option Bool) → Bool → List (SettingCall P) → Bool
  last_value given before [] = before
  last_value given before (c ∷ cs) =
      last_value given (elim (given c) [ some b ↦ b | none ↦ before ]) cs

  abbrev pub auto_given : SettingCall P → Option Bool
  auto_given (auto_subscribe_set b) = some b
  auto_given _ = none

  abbrev pub audio_given : SettingCall P → Option Bool
  audio_given (subscribe_audio_set b) = some b
  audio_given _ = none

  abbrev pub video_given : SettingCall P → Option Bool
  video_given (subscribe_video_set b) = some b
  video_given _ = none

  -- Whether a publication of this kind is wanted, by the last calls for its kind.
  unfoldable pub kind_wanted : TrackKind → List (SettingCall P) → Bool
  unfolding last_value
  kind_wanted track_kind_audio cs = last_value audio_given true cs
  kind_wanted track_kind_video cs = last_value video_given true cs
  kind_wanted track_kind_other cs = true

  unfoldable pub clears : List (SettingCall P) → Bool
  clears [] = false
  clears (filters_cleared ∷ cs) = true
  clears (_ ∷ cs) = clears cs

  -- Every filter that no later call clears accepts the publication.
  unfoldable pub accepted : P → List (SettingCall P) → Bool
  unfolding clears
  accepted publication [] = true
  accepted publication (filter_added filter ∷ cs) =
      let rest = accepted publication cs in
      if clears cs then rest else if filter publication then rest else false
  accepted publication (_ ∷ cs) = accepted publication cs

  -- The filters that a manager has and those that are added.
  unfoldable both_accept : TrackSubscriptionManager P → P → List (SettingCall P) → Bool
  unfolding passes_all accepted clears
  both_accept m publication cs =
      if clears cs
      then accepted publication cs
      else if passes_all m.filters publication
      then accepted publication cs
      else false

  passes_all-snoc :
      (fs : List (P → Bool)) (f : P → Bool) (publication : P)
      → passes_all (fs ++ f ∷ []) publication
        ≡ (if passes_all fs publication then f publication else false)
  unfolding passes_all
  passes_all-snoc [] f publication = if_self (f publication)
  passes_all-snoc (g ∷ gs) f publication = elim (Bool-cases (g publication)) [
    | inl pass ↦ rw pass (passes_all-snoc gs f publication)
    | inr stop ↦ rw stop refl
  ]

  both_accept-added :
      (cs : List (SettingCall P)) (f : P → Bool) (m : TrackSubscriptionManager P) (publication : P)
      → both_accept (add_filter f m) publication cs
        ≡ both_accept m publication (filter_added f ∷ cs)
  unfolding both_accept add_filter accepted clears
  both_accept-added cs f m publication = elim (Bool-cases (clears cs)) [
    | inl later ↦ rw later refl
    | inr kept ↦
        rw (kept, passes_all-snoc m.filters f publication)
          (if_if (passes_all m.filters publication) (f publication) (accepted publication cs))
  ]

  filters-applied :
      (cs : List (SettingCall P)) (m : TrackSubscriptionManager P) (publication : P)
      → passes_all (apply_settings cs m).filters publication ≡ both_accept m publication cs
  unfolding apply_settings apply_setting both_accept accepted clears clear_filters passes_all
  filters-applied [] m publication = sym (if_self (passes_all m.filters publication))
  filters-applied (filter_added f ∷ cs) m publication =
      filters-applied cs (apply_setting (filter_added f) m) publication
      ∙ both_accept-added cs f m publication
  filters-applied (filters_cleared ∷ cs) m publication =
      filters-applied cs (apply_setting filters_cleared m) publication
      ∙ if_both (clears cs) (accepted publication cs)
  filters-applied (auto_subscribe_set b ∷ cs) m publication =
      filters-applied cs (apply_setting (auto_subscribe_set b) m) publication
  filters-applied (subscribe_audio_set b ∷ cs) m publication =
      filters-applied cs (apply_setting (subscribe_audio_set b) m) publication
  filters-applied (subscribe_video_set b ∷ cs) m publication =
      filters-applied cs (apply_setting (subscribe_video_set b) m) publication
  filters-applied (source_priority_set source priority ∷ cs) m publication =
      filters-applied cs (apply_setting (source_priority_set source priority) m) publication

  field-applied :
      (given : SettingCall P → Option Bool) (field : TrackSubscriptionManager P → Bool)
      (step : (c : SettingCall P) (m : TrackSubscriptionManager P)
        → field (apply_setting c m) ≡ elim (given c) [ some b ↦ b | none ↦ field m ])
      (cs : List (SettingCall P)) (m : TrackSubscriptionManager P)
      → field (apply_settings cs m) ≡ last_value given (field m) cs
  unfolding apply_settings last_value
  field-applied given field step [] m = refl
  field-applied given field step (c ∷ cs) m =
      field-applied given field step cs (apply_setting c m)
      ∙ ap (λ b. last_value given b cs) (step c m)

  auto_subscribe-step :
      (c : SettingCall P) (m : TrackSubscriptionManager P)
      → (apply_setting c m).auto_subscribe
        ≡ elim (auto_given c) [ some b ↦ b | none ↦ m.auto_subscribe ]
  unfolding apply_setting
  auto_subscribe-step (auto_subscribe_set b) m = refl
  auto_subscribe-step (subscribe_audio_set b) m = refl
  auto_subscribe-step (subscribe_video_set b) m = refl
  auto_subscribe-step (source_priority_set source priority) m = refl
  auto_subscribe-step (filter_added f) m = refl
  auto_subscribe-step filters_cleared m = refl

  subscribe_audio-step :
      (c : SettingCall P) (m : TrackSubscriptionManager P)
      → (apply_setting c m).subscribe_audio
        ≡ elim (audio_given c) [ some b ↦ b | none ↦ m.subscribe_audio ]
  unfolding apply_setting
  subscribe_audio-step (auto_subscribe_set b) m = refl
  subscribe_audio-step (subscribe_audio_set b) m = refl
  subscribe_audio-step (subscribe_video_set b) m = refl
  subscribe_audio-step (source_priority_set source priority) m = refl
  subscribe_audio-step (filter_added f) m = refl
  subscribe_audio-step filters_cleared m = refl

  subscribe_video-step :
      (c : SettingCall P) (m : TrackSubscriptionManager P)
      → (apply_setting c m).subscribe_video
        ≡ elim (video_given c) [ some b ↦ b | none ↦ m.subscribe_video ]
  unfolding apply_setting
  subscribe_video-step (auto_subscribe_set b) m = refl
  subscribe_video-step (subscribe_audio_set b) m = refl
  subscribe_video-step (subscribe_video_set b) m = refl
  subscribe_video-step (source_priority_set source priority) m = refl
  subscribe_video-step (filter_added f) m = refl
  subscribe_video-step filters_cleared m = refl

  kind-applied :
      (cs : List (SettingCall P)) (k : TrackKind)
      → kind_refused k (apply_settings cs new_track_subscription_manager)
        ≡ (if kind_wanted k cs then false else true)
  unfolding kind_refused kind_wanted new_track_subscription_manager
  kind-applied cs track_kind_audio =
      ap (λ b. if b then false else true)
        (field-applied audio_given (λ m. m.subscribe_audio) subscribe_audio-step cs
          new_track_subscription_manager)
  kind-applied cs track_kind_video =
      ap (λ b. if b then false else true)
        (field-applied video_given (λ m. m.subscribe_video) subscribe_video-step cs
          new_track_subscription_manager)
  kind-applied cs track_kind_other = refl

  -- After any series of calls on a new manager a publication is subscribed to exactly if the last
  -- SetAutoSubscribe, if any, enabled it, so did the last call for audio or for video if the
  -- publication is of that kind, and every filter that was added after the last ClearFilters accepts
  -- it.
  pub subscribes_by_settings :
      (kind : P → TrackKind) (cs : List (SettingCall P)) (publication : P)
      → should_auto_subscribe kind (apply_settings cs new_track_subscription_manager) publication
        ≡ (last_value auto_given true cs
            && (kind_wanted (kind publication) cs && accepted publication cs))
  unfolding should_auto_subscribe new_track_subscription_manager both_accept passes_all
  subscribes_by_settings kind cs publication =
      let start = new_track_subscription_manager in
      let auto = field-applied auto_given (λ m. m.auto_subscribe) auto_subscribe-step cs start in
      let filtered =
        filters-applied cs start publication ∙ if_both (clears cs) (accepted publication cs) in
      rw (kind-applied cs (kind publication), auto, filtered)
        (tests_as_conjunction (last_value auto_given true cs) (kind_wanted (kind publication) cs)
          (accepted publication cs))
