-- ===== src/TimingManager/Examples.antt =====
-- Concrete runs of the timing manager.
use livekit_agent_sdk_go.Prelude.{◌≡◌, refl, String, Option, some, List, [], ◌∷◌, leb, arith}
use livekit_agent_sdk_go.Prelude.Dict.{lookup, insert}
use livekit_agent_sdk_go.Prelude.Int.{ℤ, pos, ◌+ℤ◌, ◌-ℤ◌}
use livekit_agent_sdk_go.TimingManager.Backpressure.{
  should_apply_backpressure, new_backpressure_controller,
}
use livekit_agent_sdk_go.TimingManager.{
  TimingManager, TimingManagerOptions, TimingGuard, Readings, DeadlineContext, new_timing_manager,
  set_deadline, apply_offset, deadline_context, adjust_deadlines_for_skew,
}
use livekit_agent_sdk_go.Prelude.Suffix.{last_of}
use livekit_agent_sdk_go.TimingManager.Window.{record_all, after, backpressure_exact}
use livekit_agent_sdk_go.TimingManager.Samples.{Measurement, offsets}
use livekit_agent_sdk_go.TimingManager.Skew.{skew_moves_away}

abbrev events : List ℤ
events = pos 1 ∷ pos 5 ∷ pos 6 ∷ pos 20 ∷ []

-- The window of 10 that ends at 15 holds one event after 5.
recent : after (pos 15 -ℤ pos 10) (pos 5 ∷ pos 6 ∷ []) ≡ 1
unfolding after ◌-ℤ◌
recent = refl

backpressure_exact_example :
    should_apply_backpressure
      (pos 21)
      (record_all events (new_backpressure_controller (pos 10) 2 (pos 0)))
    ≡ leb 2 (after (pos 21 -ℤ pos 10) events)
backpressure_exact_example =
    backpressure_exact (pos 10) (pos 0) (pos 21) 2 events
      (
        (omega arith, (omega arith, (omega arith, tt))),
        ((omega arith, (omega arith, tt)), ((omega arith, tt), (tt, tt))),
      )
      (omega arith, (omega arith, (omega arith, (omega arith, tt))))

abbrev options : TimingManagerOptions
options = record {
  max_skew_samples = 2;
  skew_threshold = pos 5;
  backpressure_window = pos 10;
  backpressure_limit = 2;
}

abbrev measured : List Measurement
measured = (pos 30, pos 20) ∷ (pos 31, pos 25) ∷ (pos 40, pos 32) ∷ []

abbrev manager : TimingManager
manager = new_timing_manager options (pos 0)

last_two : last_of 2 (offsets measured) ≡ pos 6 ∷ pos 8 ∷ []
unfolding ◌-ℤ◌
last_two = refl

skew_moves_away_example :
    (d : DeadlineContext) × (lookup "a"
        (apply_offset (pos 10) (set_deadline "a" (pos 95) "server" (pos 3) manager)).deadlines
      ≡ some d)
    × (d.adjusted_deadline
        ≡ (pos 95 -ℤ pos 10)
          +ℤ (pos 10 -ℤ manager.server_time_offset)
          +ℤ (pos 10 -ℤ manager.server_time_offset))
unfolding new_timing_manager
skew_moves_away_example = skew_moves_away "a" "server" (pos 95) (pos 3) (pos 10) manager refl

-- With the server 10 ahead, a deadline at 95 of its clock is 85 here, but the adjusted one is 105.
adjusted :
    (lookup "a"
      (apply_offset (pos 10) (set_deadline "a" (pos 95) "server" (pos 3) manager)).deadlines)
    ≡ some (record (deadline_context "a" (pos 95) "server" (pos 3) (pos 0)) {
      adjusted_deadline = pos 105;
    })
unfolding new_timing_manager apply_offset set_deadline deadline_context lookup insert
    adjust_deadlines_for_skew ◌-ℤ◌ ◌+ℤ◌
adjusted = refl

abbrev guard : TimingGuard
guard = record { job_id = "a"; operation = "publish" }

abbrev busy : TimingManager
busy = set_deadline "a" (pos 95) "server" (pos 3) manager

abbrev due : DeadlineContext
due = deadline_context "a" (pos 95) "server" (pos 3) (pos 0)

abbrev readings_at : ℤ → Readings
readings_at now = record {
  at_check = now;
  at_backpressure = now;
  at_delay = now;
  at_record = now;
  parent = some (pos 200);
}

abbrev failing : Option ℤ → TimingManager → TimingManager × Option String
failing deadline m = (m, some "closed")
