-- ===== src/TrackSubscription.antt =====
-- pkg/agent/track_subscription_manager.go: TrackSubscriptionManager, which decides on the tracks to
-- subscribe to. A method holds the mutex, so it is one step. Publications are LiveKit's: the kind of
-- one is an argument, and a filter is a function of the publication.
pub mod Quality
pub mod Decisions
pub mod Average
mod Examples
use livekit_agent_sdk_go.Prelude.{
  ℕ, Bool, true, false, Option, none, some, List, [], ◌∷◌, ◌++◌, ◌==◌, if◌then◌else◌,
}
use livekit_agent_sdk_go.Prelude.Int.{ℤ, pos}

pub data TrackKind : Type 0 where
  track_kind_audio track_kind_video track_kind_other : TrackKind

-- A livekit.TrackSource is its number.
abbrev pub source_unknown : ℕ
source_unknown = 0

abbrev pub source_camera : ℕ
source_camera = 1

abbrev pub source_microphone : ℕ
source_microphone = 2

abbrev pub source_screen_share : ℕ
source_screen_share = 3

abbrev pub source_screen_share_audio : ℕ
source_screen_share_audio = 4

pub record TrackSubscriptionManager (P : Type 0) : Type 0 where
  pub auto_subscribe : Bool
  pub subscribe_audio : Bool
  pub subscribe_video : Bool
  pub source_priorities : ℕ → Option ℤ
  pub filters : List (P → Bool)

abbrev pub default_priorities : ℕ → Option ℤ
default_priorities source =
    if source == source_camera
    then some (pos 100)
    else if source == source_microphone
    then some (pos 100)
    else if source == source_screen_share
    then some (pos 90)
    else if source == source_screen_share_audio
    then some (pos 90)
    else if source == source_unknown
    then some (pos 50)
    else none

module _ {P : Type 0} where
  unfoldable pub new_track_subscription_manager : TrackSubscriptionManager P
  new_track_subscription_manager = record {
    auto_subscribe = true;
    subscribe_audio = true;
    subscribe_video = true;
    source_priorities = default_priorities;
    filters = [];
  }

  unfoldable pub set_auto_subscribe : Bool → TrackSubscriptionManager P → TrackSubscriptionManager P
  set_auto_subscribe enabled m = record m { auto_subscribe = enabled }

  unfoldable pub set_subscribe_audio :
      Bool → TrackSubscriptionManager P → TrackSubscriptionManager P
  set_subscribe_audio enabled m = record m { subscribe_audio = enabled }

  unfoldable pub set_subscribe_video :
      Bool → TrackSubscriptionManager P → TrackSubscriptionManager P
  set_subscribe_video enabled m = record m { subscribe_video = enabled }

  unfoldable pub set_source_priority :
      ℕ → ℤ → TrackSubscriptionManager P → TrackSubscriptionManager P
  set_source_priority source priority m = record m {
    source_priorities = λ s. if s == source then some priority else m.source_priorities s;
  }

  unfoldable pub add_filter : (P → Bool) → TrackSubscriptionManager P → TrackSubscriptionManager P
  add_filter filter m = record m { filters = m.filters ++ filter ∷ [] }

  unfoldable pub clear_filters : TrackSubscriptionManager P → TrackSubscriptionManager P
  clear_filters m = record m { filters = [] }

  unfoldable pub passes_all : List (P → Bool) → P → Bool
  passes_all [] publication = true
  passes_all (filter ∷ filters) publication =
      let rest = passes_all filters publication in if filter publication then rest else false

  unfoldable pub kind_refused : TrackKind → TrackSubscriptionManager P → Bool
  kind_refused track_kind_audio m = if m.subscribe_audio then false else true
  kind_refused track_kind_video m = if m.subscribe_video then false else true
  kind_refused track_kind_other m = false

  unfoldable pub should_auto_subscribe : (P → TrackKind) → TrackSubscriptionManager P → P → Bool
  unfolding passes_all kind_refused
  should_auto_subscribe kind m publication =
      if m.auto_subscribe
      then if kind_refused (kind publication) m then false else passes_all m.filters publication
      else false

  unfoldable pub get_source_priority : ℕ → TrackSubscriptionManager P → ℤ
  get_source_priority source m = elim (m.source_priorities source) [
    | some priority ↦ priority
    | none ↦ pos 0
  ]
