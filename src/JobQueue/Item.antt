-- ===== src/JobQueue/Item.antt =====
-- The entries of the job queue, and its implementation of `heap.Interface`
-- (pkg/agent/job_queue.go).
use livekit_agent_sdk_go.Prelude.{
  ℕ, ◌-◌, String, Bool, Option, List, [], ◌∷◌, ◌++◌, ltb, ◌==◌, if◌then◌else◌, length, get_elem?,
  set, take,
}
use livekit_agent_sdk_go.Prelude.Exec.{Exec, ok, panic, ◌>>=◌, or_panic}
use livekit_agent_sdk_go.Prelude.Int.{ℤ, pos, negsuc}

-- livekit.JobType, as far as the code names its values.
pub data JobType : Type 0 where
  jt_room jt_publisher jt_participant : JobType
  unrecognized : ℕ → JobType

-- The fields of livekit.Job that the code reads: of the room its name, of the participant its
-- identity, and none where the pointer is nil.
pub record Job : Type 0 where
  pub id : String
  pub metadata : String
  pub job_type : JobType
  pub room_name : Option String
  pub participant_identity : Option String

-- JobPriority: its constants are 0 to 3.
abbrev pub job_priority_low : ℕ
job_priority_low = 0

abbrev pub job_priority_normal : ℕ
job_priority_normal = 1

abbrev pub job_priority_high : ℕ
job_priority_high = 2

abbrev pub job_priority_urgent : ℕ
job_priority_urgent = 3

-- All of a JobQueueItem but the position that the heap writes into it.
pub record Entry : Type 0 where
  pub job : Job
  pub priority : ℕ
  pub enqueue_time : ℕ
  pub token : String
  pub url : String

pub record JobQueueItem : Type 0 where
  pub entry : Entry
  pub open entry use *
  pub index : ℤ

-- The body of Less: the entry x comes out before y.
unfoldable pub comes_before : JobQueueItem → JobQueueItem → Bool
comes_before x y =
    if x.priority == y.priority
    then ltb x.enqueue_time y.enqueue_time
    else ltb y.priority x.priority

-- `items[i]`
unfoldable pub load : List JobQueueItem → ℕ → Exec JobQueueItem
load items i = or_panic (get_elem? items i)

unfoldable pub less : List JobQueueItem → ℕ → ℕ → Exec Bool
unfolding load comes_before
less items i j = do x ← load items i; y ← load items j; ok (comes_before x y)

-- The items change places, then each is told its new index.
unfoldable pub swap : List JobQueueItem → ℕ → ℕ → Exec (List JobQueueItem)
unfolding load
swap items i j = do
  x ← load items i
  y ← load items j
  let swapped = set (set items i y) j x
  a ← load swapped i
  let first = set swapped i (record a { index = pos i })
  b ← load first j
  ok (set first j (record b { index = pos j }))

unfoldable pub push : List JobQueueItem → Entry → List JobQueueItem
push items e = items ++ record { entry = e; index = pos (length items) } ∷ []

unfoldable pub pop : List JobQueueItem → Exec (JobQueueItem × List JobQueueItem)
unfolding load
pop items = if length items == 0 then panic else do
  let last = length items - 1
  item ← load items last
  ok (record item { index = negsuc 0 }, take last items)
