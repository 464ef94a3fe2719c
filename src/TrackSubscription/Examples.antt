-- ===== src/TrackSubscription/Examples.antt =====
-- Concrete runs of the subscription manager and of the monitor of connection quality.
use livekit_agent_sdk_go.Prelude.{
  ℕ, ◌≤◌, ◌≡◌, refl, true, false, List, [], ◌∷◌, arith, ltb, leb, if◌then◌else◌,
}
use livekit_agent_sdk_go.TrackSubscription.{
  TrackKind, track_kind_audio, track_kind_video, new_track_subscription_manager,
  should_auto_subscribe,
}
use livekit_agent_sdk_go.TrackSubscription.Decisions.{
  SettingCall, filter_added, filters_cleared, subscribe_audio_set, apply_setting, apply_settings,
  last_value, kind_wanted, accepted, clears, subscribes_by_settings,
}
use livekit_agent_sdk_go.TrackSubscription.Quality.{
  ConnectionQualityMonitor, quality_poor, quality_excellent, quality_lost, quality_number,
  new_connection_quality_monitor, start_monitoring, update_quality, get_average_quality, is_stable,
  same_quality,
}
use livekit_agent_sdk_go.TrackSubscription.Average.{lost_never_lowers}

-- Publications by their number: those below ten are audio.
abbrev kind_of_number : ℕ → TrackKind
kind_of_number n = if ltb n 10 then track_kind_audio else track_kind_video

abbrev settings : List (SettingCall ℕ)
settings =
    filter_added (λ n. ltb n 5)
    ∷ filters_cleared
    ∷ subscribe_audio_set false
    ∷ filter_added (λ n. leb 7 n)
    ∷ []

audio_left_out :
    should_auto_subscribe kind_of_number (apply_settings settings new_track_subscription_manager) 8
    ≡ false
unfolding should_auto_subscribe apply_settings apply_setting new_track_subscription_manager
audio_left_out = refl

subscribes_by_settings_example :
    should_auto_subscribe kind_of_number (apply_settings settings new_track_subscription_manager) 12
    ≡ true
unfolding last_value kind_wanted accepted clears
subscribes_by_settings_example = subscribes_by_settings kind_of_number settings 12

abbrev monitor : ConnectionQualityMonitor
unfolding new_connection_quality_monitor start_monitoring update_quality
monitor =
    (update_quality quality_poor 20
      (update_quality quality_excellent 10
        (start_monitoring "ada" 5 new_connection_quality_monitor)).0).0

-- Of a poor and a lost connection the average is a good one.
lost_raises :
    (quality_number (get_average_quality 41 25 monitor) ≡ 0)
    × (quality_number (get_average_quality 41 25 (update_quality quality_lost 30 monitor).0) ≡ 1)
unfolding quality_number get_average_quality monitor
lost_raises = (refl, refl)

not_stable : is_stable 30 25 monitor ≡ false
unfolding is_stable same_quality monitor
not_stable = refl

lost_never_lowers_example :
    quality_number (get_average_quality 30 25 monitor)
    ≤ quality_number (get_average_quality 30 25 (update_quality quality_lost 30 monitor).0)
unfolding monitor
lost_never_lowers_example =
    lost_never_lowers monitor 30 25 (omega arith) (omega arith) (omega arith)
