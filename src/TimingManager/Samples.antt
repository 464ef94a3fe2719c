-- ===== src/TimingManager/Samples.antt =====
-- The samples of the clock skew in UpdateServerTime (pkg/agent/timing_manager.go), against the list
-- of all measurements.
use mathlib.Core.List.{append-nil}
use livekit_agent_sdk_go.Prelude.{
  ℕ, ◌+◌, ◌-◌, ◌≤◌, ◌<◌, ◌≡◌, refl, inl, inr, Bool-cases, true, false, List, [], ◌∷◌, ◌++◌, arith,
  ltb, length, drop, length-append, length-drop, ◌∙◌, ap, sym, ltb→lt,
}
use livekit_agent_sdk_go.Prelude.Suffix.{last_of, drop-drop, drop_nil, drop-snoc}
use livekit_agent_sdk_go.Prelude.Int.{ℤ, ◌-ℤ◌}
use livekit_agent_sdk_go.Prelude.Exec.{Exec, ok, ◌>>=◌, Returns, returns, Returns-bind}
use livekit_agent_sdk_go.TimingManager.{
  TimingManager, push_sample, average, apply_offset, update_server_time, sum_ℤ, quot_ℤ,
}

push_sample-cut :
    (most : ℕ) (xs : List ℤ) (x : ℤ)
    → ltb most (length (last_of most xs ++ x ∷ [])) ≡ true
    → push_sample most (last_of most xs) x ≡ last_of most (xs ++ x ∷ [])
unfolding push_sample
push_sample-cut most xs x h =
    let k = length xs - most in
    let long : most ≤ length xs =
      omega (arith, length-append (last_of most xs) (x ∷ []), length-drop k xs, ltb→lt _ _ h) in
    rw h (
      ap (λ ys. drop 1 ys) (sym (drop-snoc k xs x (omega arith)))
      ∙ drop-drop 1 k (xs ++ x ∷ [])
      ∙ ap (λ j. drop j (xs ++ x ∷ [])) {x = k + 1} (omega (arith, length-append xs (x ∷ []))))

push_sample-kept :
    (most : ℕ) (xs : List ℤ) (x : ℤ)
    → ltb most (length (last_of most xs ++ x ∷ [])) ≡ false
    → push_sample most (last_of most xs) x ≡ last_of most (xs ++ x ∷ [])
unfolding push_sample
push_sample-kept most xs x h =
    let k = length xs - most in
    let short : length xs < most =
      ground (arith, length-append (last_of most xs) (x ∷ []), length-drop k xs) in
    rw h (
      ap (λ j. drop j xs ++ x ∷ []) {y = 0} (omega arith)
      ∙ ap (λ j. drop j (xs ++ x ∷ [])) {x = 0} (omega (arith, length-append xs (x ∷ []))))

pub push_sample-last :
    (most : ℕ) (xs : List ℤ) (x : ℤ)
    → push_sample most (last_of most xs) x ≡ last_of most (xs ++ x ∷ [])
push_sample-last most xs x = elim (Bool-cases (ltb most (length (last_of most xs ++ x ∷ [])))) [
  | inl h ↦ push_sample-cut most xs x h
  | inr h ↦ push_sample-kept most xs x h
]

-- One measurement: the time of the server, and the local time at which it came.
abbrev pub Measurement : Type 0
Measurement = ℤ × ℤ

abbrev pub offsets : List Measurement → List ℤ
offsets [] = []
offsets ((server, received) ∷ ms) = (server -ℤ received) ∷ offsets ms

-- The measurements are fed to the manager one after another.
unfoldable pub update_all : List Measurement → TimingManager → Exec TimingManager
update_all [] m = ok m
update_all ((server, received) ∷ ms) m = do
  m' ← update_server_time server received m
  update_all ms m'

average-ok : (xs : List ℤ) → 1 ≤ length xs → average xs ≡ ok (quot_ℤ (sum_ℤ xs) (length xs))
unfolding average
average-ok xs h = ground arith

samples-apply_offset :
    (avg : ℤ) (m : TimingManager)
    → ((apply_offset avg m).skew_samples ≡ m.skew_samples)
      × ((apply_offset avg m).max_skew_samples ≡ m.max_skew_samples)
unfolding apply_offset
samples-apply_offset avg m = (ground arith, ground arith)

push_sample-nonempty :
    (most : ℕ) (xs : List ℤ) (x : ℤ) → 1 ≤ most → 1 ≤ length (push_sample most xs x)
unfolding push_sample
push_sample-nonempty most xs x h =
    ground (arith, length-append xs (x ∷ []), length-drop 1 (xs ++ x ∷ []))

update_server_time-samples :
    (most : ℕ) (server received : ℤ) (m : TimingManager)
    → 1 ≤ most
    → m.max_skew_samples ≡ most
    → Returns
        (λ m'.
          (m'.skew_samples ≡ push_sample most m.skew_samples (server -ℤ received))
          × (m'.max_skew_samples ≡ most))
        (update_server_time server received m)
unfolding update_server_time
update_server_time-samples most server received m one e =
    let samples = push_sample m.max_skew_samples m.skew_samples (server -ℤ received) in
    let pushed = record m { skew_samples = samples } in
    let same = samples-apply_offset (quot_ℤ (sum_ℤ samples) (length samples)) pushed in
    rw
      (average-ok samples
        (push_sample-nonempty m.max_skew_samples m.skew_samples (server -ℤ received) (rw e one)))
      (returns (same.0 ∙ ap (λ n. push_sample n m.skew_samples (server -ℤ received)) e, same.1 ∙ e))

append_one : (h : List ℤ) (x : ℤ) (xs : List ℤ) → (h ++ x ∷ []) ++ xs ≡ h ++ x ∷ xs
append_one [] x xs = refl
append_one (y ∷ h) x xs = ap (λ ys. y ∷ ys) (append_one h x xs)

update_all-samples :
    (ms : List Measurement) (most : ℕ) (h : List ℤ) (m : TimingManager)
    → 1 ≤ most
    → m.max_skew_samples ≡ most
    → m.skew_samples ≡ last_of most h
    → Returns (λ m'. m'.skew_samples ≡ last_of most (h ++ offsets ms)) (update_all ms m)
unfolding update_all
update_all-samples [] most h m one e s =
    returns (s ∙ ap (λ xs. last_of most xs) (sym (append-nil h)))
update_all-samples ((server, received) ∷ ms) most h m one e s =
    let x = server -ℤ received in
    rw (sym (append_one h x (offsets ms))) (
      Returns-bind (update_server_time-samples most server received m one e) (λ m' done.
        update_all-samples ms most (h ++ x ∷ []) m' one done.1
          (done.0 ∙ ap (λ xs. push_sample most xs x) s ∙ push_sample-last most h x)))

-- A manager that keeps at least one sample takes any number of measurements without a panic (the
-- average never divides by zero), and the samples that it then averages are the last ones that were
-- measured, as many as it keeps.
pub samples_are_last :
    (ms : List Measurement) (m : TimingManager)
    → 1 ≤ m.max_skew_samples
    → m.skew_samples ≡ []
    → Returns (λ m'. m'.skew_samples ≡ last_of m.max_skew_samples (offsets ms)) (update_all ms m)
samples_are_last ms m one e =
    update_all-samples ms m.max_skew_samples [] m one refl
      (e ∙ sym (drop_nil {A = ℤ} (0 - m.max_skew_samples)))
