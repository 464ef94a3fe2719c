-- ===== src/TimingManager/Backpressure.antt =====
-- BackpressureController (pkg/agent/timing_manager.go): the events of a sliding window. The time of
-- `time.Now()` is an argument.
use livekit_agent_sdk_go.Prelude.{
  ℕ, suc, zero, Bool, Option, none, some, List, [], ◌∷◌, ◌++◌, leb, if◌then◌else◌, length,
  get_elem?,
}
use livekit_agent_sdk_go.Prelude.Int.{ℤ, pos, ◌-ℤ◌, ltb_ℤ}

-- The limit is not negative: the constructor would panic in `make`.
pub record BackpressureController : Type 0 where
  pub window : ℤ
  pub limit : ℕ
  pub events : List ℤ
  pub last_cleanup : ℤ
  pub max_backoff : ℤ

unfoldable pub new_backpressure_controller : ℤ → ℕ → ℤ → BackpressureController
new_backpressure_controller window limit now = record {
  window = window;
  limit = limit;
  events = [];
  last_cleanup = now;
  max_backoff = pos 5000000000;
}

-- The loop of cleanup and its cut: the events from the first one that is not before the cutoff.
unfoldable pub cut_old : ℤ → List ℤ → List ℤ
cut_old cutoff [] = []
cut_old cutoff (e ∷ es) = if ltb_ℤ e cutoff then cut_old cutoff es else e ∷ es

unfoldable pub cleanup : ℤ → BackpressureController → BackpressureController
unfolding cut_old
cleanup now b = record b { events = cut_old (now -ℤ b.window) b.events }

unfoldable pub record_event : ℤ → BackpressureController → BackpressureController
unfolding cleanup
record_event now b =
    let b' = record b { events = b.events ++ now ∷ [] } in
    if ltb_ℤ b.window (now -ℤ b.last_cleanup)
    then record (cleanup now b') { last_cleanup = now }
    else b'

-- One turn of the loop that counts back: it goes on below an event that is after the cutoff.
abbrev pub counted : ℤ → Option ℤ → ℕ → ℕ
counted cutoff none below = 0
counted cutoff (some e) below = if ltb_ℤ cutoff e then suc below else 0

-- The loop from the given position: the positions below it are still to be read.
unfoldable pub count_back : ℤ → List ℤ → ℕ → ℕ
count_back cutoff es zero = 0
count_back cutoff es (suc i) = counted cutoff (get_elem? es i) (count_back cutoff es i)

unfoldable pub current_rate : ℤ → BackpressureController → ℕ
unfolding count_back
current_rate now b = count_back (now -ℤ b.window) b.events (length b.events)

unfoldable pub should_apply_backpressure : ℤ → BackpressureController → Bool
unfolding current_rate
should_apply_backpressure now b = leb b.limit (current_rate now b)

-- `scaled window rate limit` is the floating-point product of the window, the overage and the factor
-- 1.5, converted to a duration.
unfoldable pub get_delay : (ℤ → ℕ → ℕ → ℤ) → ℤ → BackpressureController → ℤ
get_delay scaled now b =
    let rate = current_rate now b in
    if leb rate b.limit then pos 0 else capped b.max_backoff (scaled b.window rate b.limit)
  where
    capped : ℤ → ℤ → ℤ
    capped most delay = if ltb_ℤ most delay then most else delay
