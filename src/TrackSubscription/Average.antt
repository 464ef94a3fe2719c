-- ===== src/TrackSubscription/Average.antt =====
-- The average of ConnectionQualityMonitor (pkg/agent/track_subscription_manager.go), which counts a
-- lost connection as 3, above an excellent one.
use native.Mathlib.Nat.{le-div_iff_mul-le, mul-suc, mul-zero}
use livekit_agent_sdk_go.Prelude.{
  ℕ, zero, suc, ◌+◌, ◌-◌, ◌*◌, ◌/◌, ◌≤◌, ◌<◌, ◌≡◌, refl, ap, true, false, Bool-cases, inl, inr,
  List, [], ◌∷◌, ◌++◌, arith, ltb, ltb→lt, ◌==◌, length, drop, length-append,
}
use livekit_agent_sdk_go.TrackSubscription.Quality.{
  ConnectionQuality, ConnectionQualityMonitor, QualityMeasurement, quality_poor, quality_good,
  quality_excellent, quality_lost, quality_number, quality_of, is_recent, sum_recent, count_recent,
  trim_history, update_quality, get_average_quality,
}

number_bounded : (q : ConnectionQuality) → quality_number q ≤ 3
unfolding quality_number
number_bounded quality_poor = omega arith
number_bounded quality_good = omega arith
number_bounded quality_excellent = omega arith
number_bounded quality_lost = omega arith

number-of_le : (n : ℕ) → quality_number (quality_of n) ≤ n
unfolding quality_number quality_of
number-of_le zero = omega arith
number-of_le (suc zero) = omega arith
number-of_le (suc (suc zero)) = omega arith
number-of_le (suc (suc (suc n))) = omega arith

le-number-of : (q n : ℕ) → q ≤ 3 → q ≤ n → q ≤ quality_number (quality_of n)
unfolding quality_number quality_of
le-number-of q zero h k = omega arith
le-number-of q (suc zero) h k = omega arith
le-number-of q (suc (suc zero)) h k = omega arith
le-number-of q (suc (suc (suc n))) h k = omega arith

-- A number is at most the average of the recent measurements of a history.
module _ (now duration : ℕ) where
  abbrev AtMost : ℕ → List QualityMeasurement → Type 0
  AtMost q history = q * count_recent now duration history ≤ sum_recent now duration history

  count-snoc :
      (history : List QualityMeasurement) (x : QualityMeasurement)
      → is_recent now duration x ≡ true
      → count_recent now duration (history ++ x ∷ []) ≡ suc (count_recent now duration history)
  unfolding count_recent
  count-snoc [] x h = rw h refl
  count-snoc (y ∷ ys) x h =
      let ih = count-snoc ys x h in
      elim (Bool-cases (is_recent now duration y)) [
        | inl now_recent ↦ rw now_recent (ap suc ih)
        | inr passed ↦ rw passed ih
      ]

  sum-snoc :
      (history : List QualityMeasurement) (x : QualityMeasurement)
      → is_recent now duration x ≡ true
      → sum_recent now duration (history ++ x ∷ [])
        ≡ sum_recent now duration history + quality_number x.quality
  unfolding sum_recent
  sum-snoc [] x h = rw h (omega arith)
  sum-snoc (y ∷ ys) x h =
      let ih = sum-snoc ys x h in
      elim (Bool-cases (is_recent now duration y)) [
        | inl now_recent ↦ rw now_recent (omega arith)
        | inr passed ↦ rw passed ih
      ]

  -- One more lost measurement keeps every lower bound of the average up to 3.
  AtMost-snoc :
      (q : ℕ) (history : List QualityMeasurement) (x : QualityMeasurement)
      → is_recent now duration x ≡ true
      → x.quality ≡ quality_lost
      → q ≤ 3
      → AtMost q history
      → AtMost q (history ++ x ∷ [])
  unfolding quality_number
  AtMost-snoc q history x recent lost small h =
      rw (count-snoc history x recent, sum-snoc history x recent, lost)
        (omega (arith, mul-suc q (count_recent now duration history)))

  AtMost-tail :
      (q : ℕ) (y : QualityMeasurement) (ys : List QualityMeasurement)
      → is_recent now duration y ≡ false
      → AtMost q (y ∷ ys)
      → AtMost q ys
  unfolding count_recent sum_recent
  AtMost-tail q y ys passed = rw passed (λ h. h)

  AtMost-exchange :
      (q : ℕ) (y x : QualityMeasurement) (ys : List QualityMeasurement)
      → is_recent now duration x ≡ true
      → x.quality ≡ quality_lost
      → is_recent now duration y ≡ true
      → AtMost q (y ∷ ys)
      → AtMost q (ys ++ x ∷ [])
  unfolding count_recent sum_recent quality_number
  AtMost-exchange q y x ys recent lost in_time =
      rw (in_time, count-snoc ys x recent, sum-snoc ys x recent, lost)
        (λ h. omega (arith, number_bounded y.quality))

  -- The lost measurement makes up for a recent one that falls out of the history.
  AtMost-shift :
      (q : ℕ) (y x : QualityMeasurement) (ys : List QualityMeasurement)
      → is_recent now duration x ≡ true
      → x.quality ≡ quality_lost
      → q ≤ 3
      → AtMost q (y ∷ ys)
      → AtMost q (ys ++ x ∷ [])
  AtMost-shift q y x ys recent lost small h = elim (Bool-cases (is_recent now duration y)) [
    | inl in_time ↦ AtMost-exchange q y x ys recent lost in_time h
    | inr passed ↦ AtMost-snoc q ys x recent lost small (AtMost-tail q y ys passed h)
  ]

  trim-full :
      (size : ℕ) (y x : QualityMeasurement) (ys : List QualityMeasurement)
      → length (y ∷ ys) ≤ size
      → ltb size (length (y ∷ (ys ++ x ∷ []))) ≡ true
      → trim_history size (y ∷ (ys ++ x ∷ [])) ≡ ys ++ x ∷ []
  unfolding trim_history
  trim-full size y x ys fits full = rw full (
      ap (λ n. drop n (y ∷ (ys ++ x ∷ []))) {x = length (y ∷ (ys ++ x ∷ [])) - size} {y = 1}
        (omega (arith, length-append ys (x ∷ []), ltb→lt size (length (y ∷ (ys ++ x ∷ []))) full)))

  trim-free :
      (size : ℕ) (history : List QualityMeasurement)
      → ltb size (length history) ≡ false
      → trim_history size history ≡ history
  unfolding trim_history
  trim-free size history free = rw free refl

  AtMost-trimmed :
      (q size : ℕ) (history : List QualityMeasurement) (x : QualityMeasurement)
      → is_recent now duration x ≡ true
      → x.quality ≡ quality_lost
      → q ≤ 3
      → 0 < size
      → length history ≤ size
      → AtMost q history
      → AtMost q (trim_history size (history ++ x ∷ []))
        × (0 < count_recent now duration (trim_history size (history ++ x ∷ [])))
  AtMost-trimmed q size [] x recent lost small room fits h =
      rw (trim-free size (x ∷ []) (ground arith))
        (AtMost-snoc q [] x recent lost small h, omega (arith, count-snoc [] x recent))
  AtMost-trimmed q size (y ∷ ys) x recent lost small room fits h =
      elim (Bool-cases (ltb size (length (y ∷ (ys ++ x ∷ []))))) [
        | inl full ↦
            rw (trim-full size y x ys fits full)
              (AtMost-shift q y x ys recent lost small h, omega (arith, count-snoc ys x recent))
        | inr free ↦ rw (trim-free size (y ∷ (ys ++ x ∷ [])) free) (
          AtMost-snoc q (y ∷ ys) x recent lost small h,
          omega (arith, count-snoc (y ∷ ys) x recent),
        )
      ]

  count_le-length :
      (history : List QualityMeasurement) → count_recent now duration history ≤ length history
  unfolding count_recent
  count_le-length [] = omega arith
  count_le-length (y ∷ ys) =
      let ih = count_le-length ys in
      elim (Bool-cases (is_recent now duration y)) [
        | inl in_time ↦ rw in_time (omega arith)
        | inr passed ↦ rw passed (omega arith)
      ]

  average_counted :
      (m : ConnectionQualityMonitor)
      → 0 < count_recent now duration m.quality_history
      → get_average_quality now duration m
        ≡ quality_of (
            sum_recent now duration m.quality_history / count_recent now duration m.quality_history)
  unfolding get_average_quality
  average_counted m counted =
      let bound = count_le-length m.quality_history in
      let some_there : (length m.quality_history == 0) ≡ false = ground arith in
      let some_recent : (count_recent now duration m.quality_history == 0) ≡ false = ground arith in
      rw (some_there, some_recent) refl

  -- The answer is at most the average of the recent measurements, and any such bound is at most it.
  average-AtMost :
      (m : ConnectionQualityMonitor)
      → AtMost (quality_number (get_average_quality now duration m)) m.quality_history
  average-AtMost m =
      let n = count_recent now duration m.quality_history in
      elim (Bool-cases (n == 0)) [
        | inl nothing ↦ let h : n ≡ 0 = ground arith in rw (h, mul-zero) (omega arith)
        | inr there ↦
            let counted : 0 < n = ground arith in
            rw (average_counted m counted) (
              (le-div_iff_mul-le counted).0
                (number-of_le (sum_recent now duration m.quality_history / n)))
      ]

  AtMost-average :
      (q : ℕ) (m : ConnectionQualityMonitor)
      → q ≤ 3
      → 0 < count_recent now duration m.quality_history
      → AtMost q m.quality_history
      → q ≤ quality_number (get_average_quality now duration m)
  AtMost-average q m small counted h = rw (average_counted m counted) (
      le-number-of q
        (sum_recent now duration m.quality_history / count_recent now duration m.quality_history)
        small ((le-div_iff_mul-le counted).1 h))

-- Recording that the connection is lost never lowers the average quality over a positive duration: the monitor's
-- history has room for one measurement at least and is within its size.
pub lost_never_lowers :
    (m : ConnectionQualityMonitor) (now duration : ℕ)
    → 0 < duration
    → 0 < m.history_size
    → length m.quality_history ≤ m.history_size
    → quality_number (get_average_quality now duration m)
      ≤ quality_number (get_average_quality now duration (update_quality quality_lost now m).0)
unfolding update_quality is_recent
lost_never_lowers m now duration positive room fits =
    let before = get_average_quality now duration m in
    let h =
      AtMost-trimmed now duration (quality_number before) m.history_size m.quality_history
        (record { quality = quality_lost; timestamp = now }) (ground arith) refl
        (number_bounded before) room fits (average-AtMost now duration m) in
    AtMost-average now duration (quality_number before) (update_quality quality_lost now m).0
      (number_bounded before) h.1 h.0
