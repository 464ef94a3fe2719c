-- ===== src/QualityController.antt =====
-- pkg/agent/quality_controller.go: how QualityController adapts the quality of a track. A
-- livekit.VideoQuality is its number: LOW 0, MEDIUM 1, HIGH 2, OFF 3.
pub mod Adaptation
mod Examples
use livekit_agent_sdk_go.Prelude.{
  ℕ, zero, suc, ◌+◌, Bool, true, false, ◌||◌, ◌&&◌, not, Option, none, some, List, [], ◌∷◌, ◌++◌,
  ◌==◌, ltb, if◌then◌else◌,
}

pub data ChangeReason : Type 0 where
  no_reason high_packet_loss high_rtt poor_network_conditions network_conditions_improved :
      ChangeReason

pub record QualityChange : Type 0 where
  pub from_quality : ℕ
  pub to_quality : ℕ
  pub reason : ChangeReason
  pub timestamp : ℕ

-- The thresholds on floating-point numbers are applied in TrackReadings, and the fields that no code
-- reads (StableWindowDown, PreferTemporalScaling, AllowDynamicFPS) are left out.
pub record QualityAdaptationPolicy : Type 0 where
  pub stable_window_up : ℕ
  pub min_time_between_changes : ℕ
  pub max_quality : ℕ
  pub min_quality : ℕ

-- How the statistics of a track compare to the thresholds of the policy. The bitrate is compared to
-- a share of the target bitrate, which depends on the quality.
pub record TrackReadings : Type 0 where
  pub loss_above_up : Bool
  pub loss_above_down : Bool
  pub rtt_above_high : Bool
  pub rtt_above_low : Bool
  pub bitrate : ℕ
  pub bitrate_above_down : ℕ → Bool
  pub bitrate_above_up : ℕ → Bool
  pub jitter_above_50 : Bool
  pub freeze_count : ℕ

pub record TrackQualityMonitor : Type 0 where
  pub has_track : Bool
  pub current_quality : ℕ
  pub subscription_quality : ℕ
  pub last_quality_change : ℕ
  pub quality_history : List QualityChange
  pub adaptation_enabled : Bool

unfoldable pub get_target_bitrate : ℕ → ℕ
get_target_bitrate zero = 500000
get_target_bitrate (suc zero) = 1000000
get_target_bitrate (suc (suc zero)) = 2500000
get_target_bitrate (suc (suc (suc n))) = 1000000

unfoldable pub decrease_quality : ℕ → ℕ
decrease_quality (suc (suc zero)) = 1
decrease_quality _ = 0

unfoldable pub increase_quality : ℕ → ℕ
increase_quality zero = 1
increase_quality _ = 2

unfoldable pub should_decrease_quality : TrackReadings → ℕ → Bool
unfolding get_target_bitrate
should_decrease_quality r quality =
    if ltb 2 r.freeze_count
    then true
    else if ltb 0 r.bitrate && r.bitrate_above_down (get_target_bitrate quality)
    then true
    else r.jitter_above_50

unfoldable pub should_increase_quality :
    QualityAdaptationPolicy → TrackReadings → ℕ → TrackQualityMonitor → Bool
unfolding get_target_bitrate
should_increase_quality policy r now m =
    if ltb now (m.last_quality_change + policy.stable_window_up)
    then false
    else if r.loss_above_down
    then false
    else if r.rtt_above_low
    then false
    else if ltb 0 r.bitrate && r.bitrate_above_up (get_target_bitrate m.current_quality)
    then false
    else not (ltb 0 r.freeze_count)

-- The quality to aim at, and why.
unfoldable pub target_quality :
    QualityAdaptationPolicy → TrackReadings → ℕ → TrackQualityMonitor → ℕ × ChangeReason
unfolding decrease_quality increase_quality should_decrease_quality should_increase_quality
target_quality policy r now m =
    if r.loss_above_up
    then (decrease_quality m.current_quality, high_packet_loss)
    else if r.rtt_above_high
    then (decrease_quality m.current_quality, high_rtt)
    else if should_decrease_quality r m.current_quality
    then (decrease_quality m.current_quality, poor_network_conditions)
    else if should_increase_quality policy r now m
    then (increase_quality m.current_quality, network_conditions_improved)
    else (m.current_quality, no_reason)

unfoldable pub limit_quality : QualityAdaptationPolicy → ℕ → ℕ
limit_quality policy target =
    let capped = if ltb policy.max_quality target then policy.max_quality else target in
    if ltb capped policy.min_quality then policy.min_quality else capped

abbrev pub later_or : QualityChange → Option QualityChange → Option QualityChange
later_or c none = some c
later_or c (some d) = some d

abbrev pub last_change : List QualityChange → Option QualityChange
last_change [] = none
last_change (c ∷ cs) = later_or c (last_change cs)

-- The last change is less than the minimum time ago.
unfoldable pub changed_recently : QualityAdaptationPolicy → ℕ → Option QualityChange → Bool
changed_recently policy now none = false
changed_recently policy now (some c) = ltb now (c.timestamp + policy.min_time_between_changes)

-- ApplyQualitySettings fails for a track that is nil.
unfoldable pub adopt_quality : ℕ → ChangeReason → ℕ → TrackQualityMonitor → TrackQualityMonitor
adopt_quality target reason now m =
    if m.has_track
    then record m {
      quality_history =
          m.quality_history
          ++ record {
            from_quality = m.current_quality;
            to_quality = target;
            reason = reason;
            timestamp = now;
          }
            ∷ [];
      current_quality = target;
      subscription_quality = target;
      last_quality_change = now;
    }
    else m

-- `now` is the time at the start, and `later` that in shouldIncreaseQuality.
unfoldable pub update_track_quality :
    QualityAdaptationPolicy → TrackReadings → ℕ → ℕ → TrackQualityMonitor → TrackQualityMonitor
unfolding changed_recently target_quality limit_quality adopt_quality
update_track_quality policy r now later m =
    let (wanted, reason) = target_quality policy r later m in
    let target = limit_quality policy wanted in
    if changed_recently policy now (last_change m.quality_history)
    then m
    else if target == m.current_quality
    then m
    else adopt_quality target reason now m

-- The connection's quality is the number of a livekit.ConnectionQuality: POOR 0, GOOD 1, EXCELLENT 2.
unfoldable pub calculate_optimal_quality : QualityAdaptationPolicy → ℕ → ℕ
calculate_optimal_quality policy zero = policy.min_quality
calculate_optimal_quality policy (suc zero) =
    if policy.max_quality == 2 then 1 else policy.max_quality
calculate_optimal_quality policy (suc (suc zero)) = policy.max_quality
calculate_optimal_quality policy (suc (suc (suc n))) = 1
