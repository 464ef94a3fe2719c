-- ===== src/QualityController/Examples.antt =====
-- Concrete runs of the adaptation of a track's quality.
use livekit_agent_sdk_go.Prelude.{ℕ, ◌≡◌, refl, true, false, List, [], ◌∷◌, arith}
use livekit_agent_sdk_go.QualityController.{
  QualityAdaptationPolicy, TrackReadings, TrackQualityMonitor, update_track_quality,
}
use livekit_agent_sdk_go.QualityController.Adaptation.{
  IsCoherent, IsChain, run_rounds, rounds-IsCoherent,
}

abbrev policy : QualityAdaptationPolicy
policy = record {
  stable_window_up = 10;
  min_time_between_changes = 3;
  max_quality = 2;
  min_quality = 0;
}

-- A slow network, and a good one.
abbrev slow : TrackReadings
slow = record {
  loss_above_up = false;
  loss_above_down = false;
  rtt_above_high = true;
  rtt_above_low = true;
  bitrate = 0;
  bitrate_above_down = λ target. false;
  bitrate_above_up = λ target. false;
  jitter_above_50 = false;
  freeze_count = 0;
}

abbrev good : TrackReadings
good = record slow { rtt_above_high = false; rtt_above_low = false }

abbrev fresh : TrackQualityMonitor
fresh = record {
  has_track = true;
  current_quality = 2;
  subscription_quality = 2;
  last_quality_change = 0;
  quality_history = [];
  adaptation_enabled = true;
}

abbrev rounds : List (TrackReadings × ℕ × ℕ)
rounds = (slow, 20, 20) ∷ (slow, 21, 21) ∷ (slow, 23, 23) ∷ (good, 40, 40) ∷ []

ends_at_medium : (run_rounds policy rounds fresh).current_quality ≡ 1
unfolding run_rounds update_track_quality
ends_at_medium = refl

-- A track that is off is over the highest quality, and an update without any reason turns it on.
off_is_turned_on :
    (update_track_quality policy good 5 5 (record fresh { current_quality = 3 })).current_quality
    ≡ 2
unfolding update_track_quality
off_is_turned_on = refl

rounds-IsCoherent_example : IsCoherent policy (run_rounds policy rounds fresh)
unfolding IsChain
rounds-IsCoherent_example =
    rounds-IsCoherent policy rounds fresh (omega arith)
      (record { chain = tt; proper = tt; ends = tt })
