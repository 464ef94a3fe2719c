-- ===== src/TimingManager/Guard.antt =====
-- TimingGuard.Execute (pkg/agent/timing_manager.go).
use livekit_agent_sdk_go.Prelude.{
  ℕ, ◌+◌, ◌≡◌, refl, Bool-cases, inl, inr, true, false, String, Option, none, some, arith,
  if◌then◌else◌, ap, ◌∙◌,
}
use livekit_agent_sdk_go.Prelude.Dict.{lookup}
use livekit_agent_sdk_go.Prelude.Int.{ℤ, ltb_ℤ, ◌-ℤ◌, ◌≤ℤ◌}
use livekit_agent_sdk_go.TimingManager.Backpressure.{should_apply_backpressure, get_delay}
use livekit_agent_sdk_go.TimingManager.{
  TimingManager, TimingGuard, Readings, deadline_exceeded, ran, DeadlineContext,
  timing_guard_execute, check_deadline, check_found, check_backpressure, timing_record_event,
  propagate_deadline, get_deadline, after_check, guarded_call,
}

propagate_earliest :
    (parent : Option ℤ) (id : String) (m : TimingManager) (d : DeadlineContext)
    → lookup id m.deadlines ≡ some d
    → (c : ℤ) × (propagate_deadline parent id m ≡ some c) × (c ≤ℤ d.adjusted_deadline)
unfolding propagate_deadline get_deadline
propagate_earliest none id m d e = (d.adjusted_deadline, ground arith, omega arith)
propagate_earliest (some p) id m d e = elim (Bool-cases (ltb_ℤ p d.adjusted_deadline)) [
  | inl h ↦ (p, ground arith, ground arith)
  | inr h ↦ (d.adjusted_deadline, ground arith, omega arith)
]

-- The manager after the check and the event that a guard records before it calls the function.
abbrev pub before_call : Readings → TimingManager → TimingManager
before_call t m = timing_record_event t.at_record (check_backpressure t.at_backpressure m).0

deadlines-before_call :
    (t : Readings) (m : TimingManager) → (before_call t m).deadlines ≡ m.deadlines
unfolding timing_record_event check_backpressure
deadlines-before_call t m = ground arith

checked :
    (now : ℤ) (m : TimingManager)
    → ((check_backpressure now m).1 ≡ should_apply_backpressure now m.backpressure)
      × ((check_backpressure now m).0.backpressure ≡ m.backpressure)
unfolding check_backpressure
checked now m = (ground arith, ground arith)

module _ (scaled : ℤ → ℕ → ℕ → ℤ) (g : TimingGuard)
    (fn : Option ℤ → TimingManager → TimingManager × Option String) (t : Readings)
    (m : TimingManager) (d : DeadlineContext) where
  -- A guard on a job whose deadline has passed does not call its function: it answers by how much the
  -- deadline is exceeded, and only the count of missed deadlines changes.
  pub guard_refuses :
      lookup g.job_id m.deadlines ≡ some d
      → ltb_ℤ d.adjusted_deadline t.at_check ≡ true
      → timing_guard_execute scaled g fn t m ≡ (
        record m { missed_deadlines = m.missed_deadlines + 1 },
        deadline_exceeded g.operation (t.at_check -ℤ d.adjusted_deadline),
      )
  unfolding timing_guard_execute check_deadline check_found after_check
  guard_refuses e h = rw (e, h) refl

  -- Any other guard on a job with a deadline calls its function once, in a context that ends no later
  -- than the job's deadline, after it has recorded the call as an event; what the function answers
  -- and does to the manager is what the guard answers and leaves. It sleeps before only if
  -- backpressure applies.
  pub guard_calls_once :
      lookup g.job_id m.deadlines ≡ some d
      → ltb_ℤ d.adjusted_deadline t.at_check ≡ false
      → (c : ℤ) × (c ≤ℤ d.adjusted_deadline)
        × (timing_guard_execute scaled g fn t m ≡ (
          (fn (some c) (before_call t m)).0,
          ran
              (if should_apply_backpressure t.at_backpressure m.backpressure
                then some (get_delay scaled t.at_delay m.backpressure)
                else none)
              (fn (some c) (before_call t m)).1,
        ))
  unfolding timing_guard_execute check_deadline check_found after_check guarded_call
  guard_calls_once e h =
      let (c, same, early) =
        propagate_earliest t.parent g.job_id (before_call t m) d
          (ap (λ ds. lookup g.job_id ds) (deadlines-before_call t m) ∙ e) in
      let (applied, kept) = checked t.at_backpressure m in
      (c, early, rw (e, h, same, applied, kept) refl)
