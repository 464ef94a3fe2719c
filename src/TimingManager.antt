-- ===== src/TimingManager.antt =====
-- pkg/agent/timing_manager.go: the skew between the clocks of server and worker, the deadlines of the
-- jobs, and backpressure. Times and durations are integers in nanoseconds, without the bounds of 64
-- bits; the time of `time.Now()` is an argument. A method that holds the mutex is one step.
pub mod Backpressure
pub mod Window
pub mod Samples
pub mod Skew
pub mod Guard
mod Examples
use livekit_agent_sdk_go.Prelude.{
  ℕ, suc, zero, ◌+◌, ◌/◌, String, Bool, true, false, Option, none, some, List, [], ◌∷◌, ◌++◌, ltb,
  ◌==◌, if◌then◌else◌, length, drop,
}
use livekit_agent_sdk_go.Prelude.Dict.{Dict, lookup, insert, delete}
use livekit_agent_sdk_go.Prelude.Exec.{Exec, ok, panic, ◌>>=◌}
use livekit_agent_sdk_go.Prelude.Int.{ℤ, pos, negsuc, pos_part, neg_part, sub_ℕ, ◌+ℤ◌, ◌-ℤ◌, ltb_ℤ}
use livekit_agent_sdk_go.TimingManager.Backpressure.{
  BackpressureController, new_backpressure_controller, record_event, should_apply_backpressure,
  get_delay,
}

pub record DeadlineContext : Type 0 where
  pub job_id : String
  pub original_deadline : ℤ
  pub adjusted_deadline : ℤ
  pub propagated_from : String
  pub created_at : ℤ

-- Negative numbers of samples and of events are left out: the constructor panics on them.
pub record TimingManagerOptions : Type 0 where
  pub max_skew_samples : ℕ
  pub skew_threshold : ℤ
  pub backpressure_window : ℤ
  pub backpressure_limit : ℕ

pub record TimingManager : Type 0 where
  pub server_time_offset : ℤ
  pub skew_samples : List ℤ
  pub max_skew_samples : ℕ
  pub skew_threshold : ℤ
  pub deadlines : Dict DeadlineContext
  pub backpressure : BackpressureController
  pub skew_detections : ℕ
  pub missed_deadlines : ℕ
  pub backpressure_events : ℕ

abbrev pub or_default : ℕ → ℕ → ℕ
or_default given default = if given == 0 then default else given

abbrev pub or_default_ℤ : ℤ → ℤ → ℤ
or_default_ℤ (pos n) default = if n == 0 then default else pos n
or_default_ℤ (negsuc n) default = negsuc n

unfoldable pub new_timing_manager : TimingManagerOptions → ℤ → TimingManager
unfolding new_backpressure_controller
new_timing_manager opts now = record {
  server_time_offset = pos 0;
  skew_samples = [];
  max_skew_samples = or_default opts.max_skew_samples 10;
  skew_threshold = or_default_ℤ opts.skew_threshold (pos 1000000000);
  deadlines = [];
  backpressure =
      new_backpressure_controller (or_default_ℤ opts.backpressure_window (pos 1000000000))
        (or_default opts.backpressure_limit 100) now;
  skew_detections = 0;
  missed_deadlines = 0;
  backpressure_events = 0;
}

-- Append the sample, and cut off the oldest one if there are too many.
unfoldable pub push_sample : ℕ → List ℤ → ℤ → List ℤ
push_sample most samples x =
    let all = samples ++ x ∷ [] in if ltb most (length all) then drop 1 all else all

unfoldable pub sum_ℤ : List ℤ → ℤ
sum_ℤ [] = pos 0
sum_ℤ (x ∷ xs) = x +ℤ sum_ℤ xs

-- Go's division of integers, which rounds towards zero.
abbrev pub quot_ℤ : ℤ → ℕ → ℤ
quot_ℤ (pos a) n = pos (a / n)
quot_ℤ (negsuc a) n = sub_ℕ 0 (suc a / n)

-- Division by zero panics.
unfoldable pub average : List ℤ → Exec ℤ
unfolding sum_ℤ
average samples =
    if length samples == 0 then panic else ok (quot_ℤ (sum_ℤ samples) (length samples))

abbrev pub abs : ℤ → ℤ
abs d = pos (pos_part d + neg_part d)

unfoldable pub shift : ℤ → DeadlineContext → DeadlineContext
shift adjustment d = record d { adjusted_deadline = d.adjusted_deadline +ℤ adjustment }

unfoldable pub adjust_deadlines_for_skew : ℤ → Dict DeadlineContext → Dict DeadlineContext
unfolding shift
adjust_deadlines_for_skew adjustment [] = []
adjust_deadlines_for_skew adjustment ((id, d) ∷ rest) =
    (id, shift adjustment d) ∷ adjust_deadlines_for_skew adjustment rest

-- The part of UpdateServerTime that follows the average.
unfoldable pub apply_offset : ℤ → TimingManager → TimingManager
unfolding adjust_deadlines_for_skew
apply_offset avg m =
    if ltb_ℤ m.skew_threshold (abs avg)
    then record m {
      server_time_offset = avg;
      skew_detections = m.skew_detections + 1;
      deadlines = adjust_deadlines_for_skew (avg -ℤ m.server_time_offset) m.deadlines;
    }
    else m

unfoldable pub update_server_time : ℤ → ℤ → TimingManager → Exec TimingManager
unfolding push_sample average apply_offset
update_server_time server_time received_at m = do
  let samples = push_sample m.max_skew_samples m.skew_samples (server_time -ℤ received_at)
  avg ← average samples
  ok (apply_offset avg (record m { skew_samples = samples }))

unfoldable pub server_time_now : ℤ → TimingManager → ℤ
server_time_now now m = now +ℤ m.server_time_offset

unfoldable pub deadline_context : String → ℤ → String → ℤ → ℤ → DeadlineContext
deadline_context id deadline propagated_from now offset = record {
  job_id = id;
  original_deadline = deadline;
  adjusted_deadline = deadline -ℤ offset;
  propagated_from = propagated_from;
  created_at = now;
}

unfoldable pub set_deadline : String → ℤ → String → ℤ → TimingManager → TimingManager
set_deadline id deadline propagated_from now m = record m {
  deadlines =
      insert id (deadline_context id deadline propagated_from now m.server_time_offset) m.deadlines;
}

unfoldable pub get_deadline : String → TimingManager → Option DeadlineContext
get_deadline id m = lookup id m.deadlines

-- The new state, whether the deadline is exceeded, and by how much, or how much is left.
unfoldable pub check_found : Option DeadlineContext → ℤ → TimingManager → TimingManager × Bool × ℤ
check_found none now m = (m, false, pos 0)
check_found (some d) now m =
    if ltb_ℤ d.adjusted_deadline now
    then (record m { missed_deadlines = m.missed_deadlines + 1 }, true, now -ℤ d.adjusted_deadline)
    else (m, false, d.adjusted_deadline -ℤ now)

unfoldable pub check_deadline : String → ℤ → TimingManager → TimingManager × Bool × ℤ
unfolding check_found
check_deadline id now m = check_found (lookup id m.deadlines) now m

unfoldable pub remove_deadline : String → TimingManager → TimingManager
remove_deadline id m = record m { deadlines = delete id m.deadlines }

-- The deadline of the context that is made, if one is set: the earlier one of the parent's and the
-- job's, as context.WithDeadline has it.
unfoldable pub propagate_deadline : Option ℤ → String → TimingManager → Option ℤ
unfolding get_deadline
propagate_deadline parent id m = elim (get_deadline id m) [
  | none ↦ parent
  | some d ↦ elim parent [
    | none ↦ some d.adjusted_deadline
    | some p ↦ some (if ltb_ℤ p d.adjusted_deadline then p else d.adjusted_deadline)
  ]
]

unfoldable pub check_backpressure : ℤ → TimingManager → TimingManager × Bool
unfolding should_apply_backpressure
check_backpressure now m =
    if should_apply_backpressure now m.backpressure
    then (record m { backpressure_events = m.backpressure_events + 1 }, true)
    else (m, false)

unfoldable pub timing_record_event : ℤ → TimingManager → TimingManager
unfolding record_event
timing_record_event now m = record m { backpressure = record_event now m.backpressure }

-- The times that a guard reads, and the deadline of the context that it is given.
pub record Readings : Type 0 where
  pub at_check : ℤ
  pub at_backpressure : ℤ
  pub at_delay : ℤ
  pub at_record : ℤ
  pub parent : Option ℤ

pub record TimingGuard : Type 0 where
  pub job_id : String
  pub operation : String

pub data GuardResult : Type 0 where
  deadline_exceeded : String → ℤ → GuardResult
  ran : Option ℤ → Option String → GuardResult

-- `fn` gets the deadline of its context, and may use the manager; `ran` holds the delay that was
-- slept before, if backpressure was applied, and the error of `fn`.
module _ (scaled : ℤ → ℕ → ℕ → ℤ) (g : TimingGuard)
    (fn : Option ℤ → TimingManager → TimingManager × Option String) (t : Readings) where
  -- What follows the check of the backpressure.
  unfoldable pub guarded_call : TimingManager × Bool → TimingManager × GuardResult
  unfolding timing_record_event propagate_deadline get_delay
  guarded_call (m, apply) =
      let delay = if apply then some (get_delay scaled t.at_delay m.backpressure) else none in
      let m' = timing_record_event t.at_record m in
      let (m″, err) = fn (propagate_deadline t.parent g.job_id m') m' in (m″, ran delay err)

  -- What follows the check of the deadline.
  unfoldable pub after_check : TimingManager × Bool × ℤ → TimingManager × GuardResult
  unfolding guarded_call check_backpressure
  after_check (m, exceeded, over_by) =
      if exceeded
      then (m, deadline_exceeded g.operation over_by)
      else guarded_call (check_backpressure t.at_backpressure m)

  unfoldable pub timing_guard_execute : TimingManager → TimingManager × GuardResult
  unfolding after_check check_deadline
  timing_guard_execute m = after_check (check_deadline g.job_id t.at_check m)

pub record ClockSkewDetector : Type 0 where
  pub samples : List ℤ
  pub max_samples : ℕ

unfoldable pub new_clock_skew_detector : ℕ → ClockSkewDetector
new_clock_skew_detector most = record { samples = []; max_samples = most }

unfoldable pub get_average_skew : ClockSkewDetector → ℤ
unfolding sum_ℤ
get_average_skew d =
    if length d.samples == 0 then pos 0 else quot_ℤ (sum_ℤ d.samples) (length d.samples)

unfoldable pub add_sample : ℤ → ℤ → ClockSkewDetector → ClockSkewDetector × ℤ
unfolding push_sample get_average_skew
add_sample local_time remote_time d =
    let d' = record d {
      samples = push_sample d.max_samples d.samples (remote_time -ℤ local_time);
    } in
    (d', get_average_skew d')

-- SetJobDeadline: five minutes from now; a nil job is ignored.
unfoldable pub set_job_deadline : Option String → ℤ → ℤ → TimingManager → TimingManager
unfolding set_deadline
set_job_deadline none now later m = m
set_job_deadline (some id) now later m =
    set_deadline id (now +ℤ pos 300000000000) "job_assignment" later m
