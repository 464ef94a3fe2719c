-- ===== src/JobQueue.antt =====
-- pkg/agent/job_queue.go: the priority queue of pending jobs. Every method holds the mutex, so it
-- is one step. The time of `time.Now()` is an argument.
pub mod Item
pub mod Heap
pub mod Order
mod Moved
mod Up
mod Down
mod Ops
pub mod Validity
pub mod Enqueue
pub mod Dequeue
pub mod Drain
pub mod Remove
pub mod Wait
pub mod Priority
mod Examples
use livekit_agent_sdk_go.Prelude.{
  ℕ, zero, suc, ◌+◌, String, Bool, true, false, ◌&&◌, ◌||◌, Option, none, some, List, [], ◌∷◌, ltb,
  leb, ◌==◌, str_eq, if◌then◌else◌, length,
}
use livekit_agent_sdk_go.Prelude.Exec.{Exec, ok, panic, ◌>>=◌}
use Item.{
  Job, JobType, unrecognized, JobQueueItem, Entry, load, jt_room, jt_publisher, jt_participant,
  job_priority_low, job_priority_normal, job_priority_high, job_priority_urgent,
}
use Prim.Native.String.{◌++◌}
use Heap.{heap_init, heap_push, heap_pop, heap_remove}

-- The channel `waitChan` holds one signal at most; `signal` tells whether it does.
pub record JobQueue : Type 0 where
  pub items : List JobQueueItem
  pub max_size : ℕ
  pub signal : Bool
  pub closed : Bool

pub data EnqueueError : Type 0 where
  queue_closed : EnqueueError
  queue_full : ℕ → EnqueueError

unfoldable pub new_job_queue : ℕ → Exec JobQueue
new_job_queue max_size = do
  items ← heap_init []
  ok (record { items = items; max_size = max_size; signal = false; closed = false })

-- The queue after the call, and the error that it returns, if any.
unfoldable pub enqueue :
    Job → ℕ → String → String → ℕ → JobQueue → Exec (JobQueue × Option EnqueueError)
enqueue job priority token url now q =
    if q.closed
    then ok (q, some queue_closed)
    else if ltb 0 q.max_size && leb q.max_size (length q.items)
    then ok (q, some (queue_full q.max_size))
    else (do
      items ←
          heap_push q.items (record {
            job = job;
            priority = priority;
            enqueue_time = now;
            token = token;
            url = url;
          })
      ok (record q { items = items; signal = true }, none))

unfoldable pub dequeue : JobQueue → Exec (JobQueue × Option JobQueueItem)
dequeue q =
    if length q.items == 0
    then ok (q, none)
    else (do (item, items) ← heap_pop q.items; ok (record q { items = items }, some item))

unfoldable pub peek : JobQueue → Exec (Option JobQueueItem)
peek q = if length q.items == 0 then ok none else (do item ← load q.items 0; ok (some item))

unfoldable pub size : JobQueue → ℕ
size q = length q.items

unfoldable pub clear : JobQueue → JobQueue
clear q = record q { items = [] }

-- Closing a channel that is closed panics.
unfoldable pub close : JobQueue → Exec JobQueue
close q = if q.closed then panic else ok (record q { closed = true })

with_priority : ℕ → List JobQueueItem → List JobQueueItem
with_priority priority [] = []
with_priority priority (x ∷ xs) =
    let rest = with_priority priority xs in if x.priority == priority then x ∷ rest else rest

unfoldable pub get_jobs_by_priority : ℕ → JobQueue → List JobQueueItem
unfolding with_priority
get_jobs_by_priority priority q = with_priority priority q.items

-- The first position, counting from i, whose job has the id.
unfoldable pub find_job : String → List JobQueueItem → ℕ → Option ℕ
find_job id [] i = none
find_job id (x ∷ xs) i = if str_eq x.job.id id then some i else find_job id xs (suc i)

unfoldable pub remove_job : String → JobQueue → Exec (JobQueue × Bool)
unfolding find_job
remove_job id q = elim (find_job id q.items 0) [
  | none ↦ ok (q, false)
  | some i ↦ (do (item, items) ← heap_remove q.items i; ok (record q { items = items }, true))
]

-- What happens while DequeueWithContext is blocked in its select: the context is cancelled, or other
-- goroutines call the queue's methods.
pub data Turn : Type 0 where
  cancelled : Turn
  others : (JobQueue → JobQueue) → Turn

pub data Answer : Type 0 where
  job : JobQueueItem → Answer
  context_done : Answer
  waiting : ℕ → Answer

-- A receive from `waitChan` does not block: it holds a signal, or it is closed.
abbrev pub is_ready : JobQueue → Bool
is_ready q = q.signal || q.closed

-- The select of DequeueWithContext and the rounds of its loop that follow; the first argument counts
-- the receives that have found no job, after each of which the loop has gone round. `waiting` says that
-- the call has not returned when the turns are over. A receive takes the signal out of the channel.
unfoldable pub wait_turns : ℕ → List Turn → JobQueue → Exec (JobQueue × Answer)
wait_turns rounds [] q = ok (q, waiting rounds)
wait_turns rounds (cancelled ∷ ts) q = ok (q, context_done)
wait_turns rounds (others f ∷ ts) q =
    let woken : Exec (JobQueue × Answer) = dequeue (record (f q) { signal = false }) >>= λ r.
    elim (r.1) [ some x ↦ ok (r.0, job x) | none ↦ wait_turns (suc rounds) ts r.0 ] in
    let blocked = wait_turns rounds ts (f q) in if is_ready (f q) then woken else blocked

unfoldable pub dequeue_with_context : List Turn → JobQueue → Exec (JobQueue × Answer)
unfolding wait_turns
dequeue_with_context ts q =
    dequeue q >>= λ r. elim (r.1) [ some x ↦ ok (r.0, job x) | none ↦ wait_turns 0 ts r.0 ]

-- DefaultPriorityCalculator.CalculatePriority
priority_of_type : JobType → ℕ
priority_of_type jt_room = job_priority_high
priority_of_type jt_participant = job_priority_normal
priority_of_type jt_publisher = job_priority_normal
priority_of_type (unrecognized n) = job_priority_normal

unfoldable pub default_priority : Job → ℕ
unfolding priority_of_type
default_priority j =
    if str_eq j.metadata "urgent" || str_eq j.metadata "high-priority"
    then job_priority_urgent
    else if str_eq j.metadata "high"
    then job_priority_high
    else if str_eq j.metadata "low"
    then job_priority_low
    else priority_of_type j.job_type

-- MetadataPriorityCalculator.CalculatePriority; the first argument is its PriorityField.
unfoldable pub metadata_priority : String → Job → ℕ
metadata_priority field j =
    if str_eq j.metadata "" || str_eq field ""
    then job_priority_normal
    else if str_eq j.metadata (field ++ ":urgent")
    then job_priority_urgent
    else if str_eq j.metadata (field ++ ":high")
    then job_priority_high
    else if str_eq j.metadata (field ++ ":low")
    then job_priority_low
    else job_priority_normal
