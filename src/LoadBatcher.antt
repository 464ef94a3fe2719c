-- ===== src/LoadBatcher.antt =====
-- pkg/agent/load_calculator.go: LoadBatcher, which holds back updates of the worker's status. Every
-- method holds the mutex, so it is one step; the calls of UpdateStatus that it makes are results.
pub mod Coalescing
mod Examples
use livekit_agent_sdk_go.Prelude.{
  ℕ, suc, zero, ◌+◌, Bool, true, false, ◌||◌, not, Option, none, some, is_some, List, [], ◌∷◌, ◌++◌,
  leb, if◌then◌else◌,
}
use livekit_agent_sdk_go.Prelude.Int.{ℤ, pos, negsuc}

-- types.go: WorkerStatus
pub data WorkerStatus : Type 0 where
  worker_status_available worker_status_full : WorkerStatus

-- A float32 is kept as the expression that computes it: float32(a) / float32(b), or the bits that a
-- LoadCalculator answers.
pub data Load : Type 0 where
  ratio : ℕ → ℕ → Load
  calculated : ℕ → Load

-- `timer` is the time at which the running timer fires; a timer that is nil or stopped is none.
pub record LoadBatcher : Type 0 where
  pub interval : ℕ
  pub pending_load : Option Load
  pub pending_status : Option WorkerStatus
  pub timer : Option ℕ
  pub closed : Bool

unfoldable pub batch_interval : ℤ → ℕ
batch_interval (pos zero) = 5000000000
batch_interval (pos (suc n)) = suc n
batch_interval (negsuc n) = 5000000000

unfoldable pub new_load_batcher : ℤ → LoadBatcher
unfolding batch_interval
new_load_batcher interval = record {
  interval = batch_interval interval;
  pending_load = none;
  pending_status = none;
  timer = none;
  closed = false;
}

unfoldable pub update : WorkerStatus → Load → ℕ → LoadBatcher → LoadBatcher
update status load now b = if b.closed then b else record b {
  pending_status = some status;
  pending_load = some load;
  timer = some (now + b.interval);
}

-- The update that waits, if the load and the status are both set.
unfoldable pub pending : Option WorkerStatus → Option Load → Option (WorkerStatus × Load)
pending (some status) (some load) = some (status, load)
pending (some status) none = none
pending none load = none

unfoldable pub flush : LoadBatcher → LoadBatcher × Option (WorkerStatus × Load)
unfolding pending
flush b =
    if b.closed || not (is_some (pending b.pending_status b.pending_load)) then (b, none) else (
      record b { pending_load = none; pending_status = none; timer = none },
      pending b.pending_status b.pending_load,
    )

unfoldable pub stop : LoadBatcher → LoadBatcher × Option (WorkerStatus × Load)
unfolding pending
stop b = (record b { closed = true; timer = none }, pending b.pending_status b.pending_load)

-- What happens until the time `now`: the timer fires if it is due.
unfoldable pub elapse : ℕ → LoadBatcher → LoadBatcher × Option (WorkerStatus × Load)
unfolding flush
elapse now b = elim b.timer [
  | none ↦ (b, none)
  | some due ↦ if leb due now then flush b else (b, none)
]

abbrev pub sent_list : Option (WorkerStatus × Load) → List (WorkerStatus × Load)
sent_list none = []
sent_list (some u) = u ∷ []

-- Calls of Update at the given times, with the timer in between: what is sent, and the batcher.
unfoldable pub run_updates :
    List (ℕ × WorkerStatus × Load) → LoadBatcher → List (WorkerStatus × Load) × LoadBatcher
unfolding elapse update
run_updates [] b = ([], b)
run_updates ((now, status, load) ∷ rest) b =
    let (c, fired) = elapse now b in
    let (later, last) = run_updates rest (update status load now c) in
    (sent_list fired ++ later, last)
