-- ===== src/TrackSubscription/Quality.antt =====
-- ConnectionQualityMonitor (pkg/agent/track_subscription_manager.go). A method holds the mutex, so it
-- is one step; a call of the callback is a result. Times and durations are nanoseconds.
use livekit_agent_sdk_go.Prelude.{
  ℕ, zero, suc, ◌+◌, ◌-◌, ◌/◌, String, Bool, true, false, ◌&&◌, not, Option, none, some, List, [],
  ◌∷◌, ◌++◌, ◌==◌, ltb, if◌then◌else◌, length, drop,
}

-- livekit.ConnectionQuality, whose numbers are 0 to 3 in this order.
pub data ConnectionQuality : Type 0 where
  quality_poor quality_good quality_excellent quality_lost : ConnectionQuality

unfoldable pub quality_number : ConnectionQuality → ℕ
quality_number quality_poor = 0
quality_number quality_good = 1
quality_number quality_excellent = 2
quality_number quality_lost = 3

-- The conversion from a number, which an average keeps up to 3.
unfoldable pub quality_of : ℕ → ConnectionQuality
quality_of zero = quality_poor
quality_of (suc zero) = quality_good
quality_of (suc (suc zero)) = quality_excellent
quality_of (suc (suc (suc n))) = quality_lost

unfoldable pub same_quality : ConnectionQuality → ConnectionQuality → Bool
unfolding quality_number
same_quality a b = quality_number a == quality_number b

pub record QualityMeasurement : Type 0 where
  pub quality : ConnectionQuality
  pub timestamp : ℕ

pub record ConnectionQualityMonitor : Type 0 where
  pub participant : Option String
  pub current_quality : ConnectionQuality
  pub quality_history : List QualityMeasurement
  pub history_size : ℕ
  pub last_update : Option ℕ
  pub has_callback : Bool

unfoldable pub new_connection_quality_monitor : ConnectionQualityMonitor
new_connection_quality_monitor = record {
  participant = none;
  current_quality = quality_good;
  quality_history = [];
  history_size = 10;
  last_update = none;
  has_callback = false;
}

unfoldable pub start_monitoring : String → ℕ → ConnectionQualityMonitor → ConnectionQualityMonitor
start_monitoring identity now m = record m {
  participant = some identity;
  current_quality = quality_good;
  last_update = some now;
  quality_history = [];
}

unfoldable pub stop_monitoring : ConnectionQualityMonitor → ConnectionQualityMonitor
stop_monitoring m = record m { participant = none }

unfoldable pub trim_history : ℕ → List QualityMeasurement → List QualityMeasurement
trim_history size history =
    if ltb size (length history) then drop (length history - size) history else history

-- The second result is the call of the callback, with the old and the new quality.
unfoldable pub update_quality :
    ConnectionQuality
    → ℕ
    → ConnectionQualityMonitor
    → ConnectionQualityMonitor × Option (ConnectionQuality × ConnectionQuality)
unfolding trim_history same_quality
update_quality quality now m =
    let measured : QualityMeasurement = record { quality = quality; timestamp = now } in
    (
      record m {
        current_quality = quality;
        last_update = some now;
        quality_history = trim_history m.history_size (m.quality_history ++ measured ∷ []);
      },
      if m.has_callback && not (same_quality m.current_quality quality)
          then some (m.current_quality, quality)
          else none,
    )

unfoldable pub set_quality_change_callback :
    Bool → ConnectionQualityMonitor → ConnectionQualityMonitor
set_quality_change_callback is_set m = record m { has_callback = is_set }

-- The time stamp is after now minus the duration.
unfoldable pub is_recent : ℕ → ℕ → QualityMeasurement → Bool
is_recent now duration measurement = ltb now (measurement.timestamp + duration)

-- The sum and the count of the recent measurements.
unfoldable pub sum_recent : ℕ → ℕ → List QualityMeasurement → ℕ
unfolding is_recent quality_number
sum_recent now duration [] = 0
sum_recent now duration (x ∷ xs) =
    let rest = sum_recent now duration xs in
    if is_recent now duration x then quality_number x.quality + rest else rest

unfoldable pub count_recent : ℕ → ℕ → List QualityMeasurement → ℕ
unfolding is_recent
count_recent now duration [] = 0
count_recent now duration (x ∷ xs) =
    let rest = count_recent now duration xs in if is_recent now duration x then suc rest else rest

unfoldable pub get_average_quality : ℕ → ℕ → ConnectionQualityMonitor → ConnectionQuality
unfolding quality_of sum_recent count_recent
get_average_quality now duration m =
    if length m.quality_history == 0
    then m.current_quality
    else if count_recent now duration m.quality_history == 0
    then m.current_quality
    else quality_of
        (sum_recent now duration m.quality_history / count_recent now duration m.quality_history)

-- The loop of IsStable: the quality of the first recent measurement, once it is found.
unfoldable pub stable_from : ℕ → ℕ → Option ConnectionQuality → List QualityMeasurement → Bool
unfolding is_recent same_quality
stable_from now duration last [] = true
stable_from now duration none (x ∷ xs) =
    let skipped = stable_from now duration none xs in
    let found = stable_from now duration (some x.quality) xs in
    if is_recent now duration x then found else skipped
stable_from now duration (some q) (x ∷ xs) =
    let rest = stable_from now duration (some q) xs in
    if is_recent now duration x && not (same_quality x.quality q) then false else rest

unfoldable pub is_stable : ℕ → ℕ → ConnectionQualityMonitor → Bool
unfolding stable_from
is_stable now duration m =
    if ltb (length m.quality_history) 2
    then true
    else stable_from now duration none m.quality_history
